-- ===== src/Cluster.antt =====
-- cluster.py: the registry of nodes, the router that picks one of them for a model, and the records
-- of evidence.
pub mod Checks
pub mod Node
pub mod Route
pub mod Paths
pub mod Evidence
pub mod Manifest
pub mod Report
pub mod Main
mod Tests
