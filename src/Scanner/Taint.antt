-- ===== src/Scanner/Taint.antt =====
-- The traces of scanner/src/aegify/scanner/taint_v2.py.
pub mod Traces
pub mod Merged
mod Tests
