-- ===== src/Models.antt =====
-- scanner/src/aegify/models.py: the records that several parts of the scanner share.
pub mod Values
pub mod Receipts
pub mod Gaps
mod Tests
