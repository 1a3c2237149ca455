-- ===== src/Ir/Query.antt =====
-- scanner/src/aegify/ir/query.py: `ProgramGraphQuery`.
pub mod Edges
pub mod Context
pub mod Walks
pub mod Sound
pub mod Complete
pub mod Paths
mod Tests
