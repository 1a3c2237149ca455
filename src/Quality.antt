-- ===== src/Quality.antt =====
-- The saved case reports of scanner/src/aegify/quality: cases, their metrics, the evaluation that
-- writes them and the comparison that reads them.
pub mod Cases
pub mod Metrics
pub mod Owasp
pub mod Evaluate
pub mod Written
pub mod Compare
pub mod Reports
pub mod Answers
pub mod Gate
pub mod Exit
pub mod Replay
mod Tests
