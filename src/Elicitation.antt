-- ===== src/Elicitation.antt =====
-- elicitation/: the catalog of questions, the stores of asked questions, and the scheduler.
pub mod Catalog
pub mod Store
pub mod Scheduler
