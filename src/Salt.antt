-- ===== src/Salt.antt =====
-- salt.py: calls of SaltStack, the reading of their results, and what is built on them.
pub mod Args
pub mod Results
pub mod Client
pub mod Ssh
pub mod Runner
pub mod Functions
pub mod Provisioner
pub mod Jobs
