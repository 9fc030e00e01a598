-- ===== src/Tests.antt =====
-- Tests: small inputs on which the code's model is run and its theorems are applied.
mod Flows
mod Topology
mod Capabilities
mod Catalog
mod Store
mod Scheduler
mod Grants
mod Engine
mod Agent
mod Trace
mod Recovery
