-- ===== src/Agent.antt =====
-- agent/agent.py and agent/registry.py: the loop that lets a model call tools.
pub mod Conversation
pub mod Registry
pub mod Pins
pub mod Loop
