-- ===== src/Scanner/Findings.antt =====
-- What scanner/src/aegify/scanner/engine.py keeps of the findings of a scan.
pub mod Records
pub mod Filter
pub mod Represented
pub mod Capped
pub mod Kept
mod Tests
