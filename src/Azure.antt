-- ===== src/Azure.antt =====
-- The queries of Azure.
pub mod Value
pub mod Fixtures
pub mod ResourceGraph
pub mod Lustre
