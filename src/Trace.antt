-- ===== src/Trace.antt =====
-- trace_projection.py: what a reader without a grant sees of a run.
pub mod Markers
pub mod Tokens
pub mod Schema
pub mod Trigger
pub mod ToolCall
pub mod Projection
pub mod Reading
pub mod Schemas
