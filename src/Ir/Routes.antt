-- ===== src/Ir/Routes.antt =====
-- scanner/src/aegify/ir/query.py: the path queries that search projections of the graph.
pub mod Projections
pub mod Queries
pub mod Trails
pub mod Chains
pub mod Links
pub mod Across
mod Tests
