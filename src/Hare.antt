-- ===== src/Hare.antt =====
-- api/python/provisioner/hare.py: the cluster through `pcs`, `hctl` and the utility scripts.
pub mod Defs
pub mod Laws
