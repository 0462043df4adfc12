-- ===== src/Tests.antt =====
-- The library's theorems applied to concrete inputs.
mod Ensure
mod Ha
mod Lock
mod Pillar
mod Upgrade
mod Hare
mod Rollback
mod Update
mod Validator
mod Setter
mod Certs
mod UpdateRepo
mod UpgradeRepo
mod PillarValues
mod Utils
mod Check
mod Salt
mod Cli
