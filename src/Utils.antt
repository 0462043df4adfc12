-- ===== src/Utils.antt =====
-- Functions of api/python/provisioner/utils.py on versions and checksums.
pub mod Version
pub mod Checksum
pub mod Formats
