-- ===== src/Ir/Cfg.antt =====
-- scanner/src/aegify/ir/program_graph.py: the control flow graph of a function (`_build_function`).
pub mod Nodes
pub mod Statements
pub mod Graph
pub mod Emit
pub mod Grows
pub mod Steps
pub mod Drains
pub mod Exit
pub mod Blocks
mod Tests
