-- ===== src/Rules.antt =====
-- The rule language of scanner/src/aegify/rules.
pub mod CallOptions
