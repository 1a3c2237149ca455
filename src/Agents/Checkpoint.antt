-- ===== src/Agents/Checkpoint.antt =====
-- scanner/src/aegify/agents/checkpoint.py: `CheckpointBackend`.
pub mod Records
pub mod Turns
pub mod Sessions
pub mod Safety
pub mod History
pub mod Starts
pub mod Once
pub mod Replay
pub mod Recovery
mod Tests
