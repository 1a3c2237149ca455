-- ===== src/Ir.antt =====
-- scanner/src/aegify/ir: the normalized program graph and its queries.
pub mod Query
pub mod Dataflow
pub mod Routes
pub mod Cfg
