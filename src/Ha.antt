-- ===== src/Ha.antt =====
-- api/python/provisioner/cortx_ha.py: the HA interfaces, the broker over them and the cluster calls.
pub mod Response
pub mod Managers
pub mod Broker
pub mod Cluster
