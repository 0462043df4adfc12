-- ===== src/Lock.antt =====
-- api/python/provisioner/lock.py: the lock file of the API.
pub mod Defs
pub mod Stale
pub mod Acquire
pub mod Exclusion
pub mod Race
pub mod ApiLock
