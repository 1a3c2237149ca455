-- ===== src/Semantic.antt =====
-- The semantic indices of scanner/src/aegify/semantic.
pub mod Scip
