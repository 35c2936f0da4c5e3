-- ===== src/Topology.antt =====
-- The experiment's graph: vertex/topology.
pub mod Models
pub mod Validate
pub mod Media
