-- ===== src/Pillar.antt =====
-- api/python/provisioner/pillar.py and values.py: pillar data, its entries, and their update.
pub mod Value
pub mod Entry
pub mod Updater
pub mod Resolver
pub mod Setter
