-- ===== src/Agents/Exploration.antt =====
-- scanner/src/aegify/agents/exploration.py: `AgentSourceExplorer`.
pub mod Turns
pub mod Records
pub mod Tools
pub mod Rounds
pub mod Review
pub mod Rule
pub mod Calls
pub mod Bounds
pub mod Issued
pub mod Sources
pub mod Quiet
pub mod Complete
mod Tests
