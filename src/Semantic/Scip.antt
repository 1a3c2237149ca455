-- ===== src/Semantic/Scip.antt =====
-- scanner/src/aegify/semantic/scip_symbol.py: the package coordinates of SCIP symbols.
pub mod Symbols
pub mod Printed
pub mod Parsed
mod Tests
