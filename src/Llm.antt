-- ===== src/Llm.antt =====
-- scanner/src/aegify/llm: work with model providers.
pub mod Budget
pub mod Redaction
