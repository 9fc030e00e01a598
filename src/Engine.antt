-- ===== src/Engine.antt =====
-- engine/: the execution of a workflow.
pub mod Dag
pub mod Dispatch
pub mod Retry
pub mod Ancestors
pub mod Rows
pub mod Fork
