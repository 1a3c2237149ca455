-- ===== src/Scanner.antt =====
-- The scanner of scanner/src/aegify/scanner.
pub mod Calls
pub mod Findings
pub mod Taint
