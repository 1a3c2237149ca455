-- ===== src/Agents.antt =====
-- scanner/src/aegify/agents.
pub mod Checkpoint
pub mod Exploration
