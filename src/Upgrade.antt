-- ===== src/Upgrade.antt =====
-- The software upgrade: the orchestrator of a cluster and the upgrade of a node.
pub mod Interface
pub mod Node
pub mod Cluster
pub mod Laws
