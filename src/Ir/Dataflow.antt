-- ===== src/Ir/Dataflow.antt =====
-- scanner/src/aegify/ir/program_graph.py: reaching definitions (`_build_data_overlays`).
pub mod Definitions
pub mod Sets
pub mod Rounds
pub mod Reaching
mod Tests
pub mod Overlays
pub mod Edges
