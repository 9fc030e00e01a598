-- ===== src/Auth.antt =====
-- auth/
pub mod Grants
