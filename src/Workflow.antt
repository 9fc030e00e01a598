-- ===== src/Workflow.antt =====
-- workflow/: the definition of a workflow, its structural checks and its topological order.
pub mod Definition
pub mod Topology
pub mod Validation
