-- ===== src/Security.antt =====
-- security/
pub mod Capabilities
