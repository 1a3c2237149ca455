-- ===== src/Rules/CallOptions.antt =====
-- scanner/src/aegify/rules/call_options.py: a selector over the boolean options of a call, what its
-- answers mean, and what the parser of the selector accepts.
pub mod Arguments
pub mod Spec
pub mod Values
pub mod Keywords
pub mod Everywhere
pub mod Parsed
mod Tests
