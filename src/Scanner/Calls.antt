-- ===== src/Scanner/Calls.antt =====
-- The calls that scanner/src/aegify/scanner/call_graph.py resolves, and the scores of
-- scanner/src/aegify/semantic/signatures.py by which it does.
pub mod Types
pub mod Scores
pub mod Graph
pub mod Overloads
pub mod Best
pub mod Candidates
pub mod Resolve
mod Tests
