-- ===== src/Lib.antt =====
-- CORTX Provisioner: the core of its Python API (api/python/provisioner).
--
-- The provisioner configures a CORTX cluster through SaltStack. A command takes the lock of the
-- API, reads and changes pillar data in YAML files, applies salt states on minions, and drives the
-- cluster through the HA interfaces. An upgrade is a command of this kind that holds together all
-- the others.
--
-- Which file models which part:
--
-- Ensure, Ensure/Rounds: `ensure` of utils.py, the loop that waits for a check, which the HA
--   functions and those of hare use.
-- Json, Json/Values: JSON values as Python holds them, and `load_json_str` of utils.py.
-- Ha/Response: `HAResponse` and `parse_ret` of cortx_ha.py. Ha/Managers: its three managers, one
--   function per method, by the constructor for the class. Ha/Broker: `ClusterManagerBroker` with
--   its class attributes as state. Ha/Cluster: the functions at the end of the module.
-- Hare/Defs: hare.py.
-- Lock/Defs: lock.py; the state is the directory of lock files, a list of names and contents.
--   Lock/Race: the steps of two processes that take the lock, in any order.
-- Pillar/Value, Pillar/Entry: values.py, and `KeyPath`, `PillarKey` and `PillarEntry` of pillar.py.
-- Pillar/Updater: `PillarUpdater`; the pillars that its entries share are one store by file, so
--   that each entry sees what the others wrote. Pillar/Resolver: `PillarResolver.get`.
-- Upgrade/Interface: what the upgrade commands call. Upgrade/Cluster: `SWUpgrade` of
--   commands/upgrade/sw_upgrade.py. Upgrade/Node: `SWUpgradeNode` of sw_upgrade_node.py.
-- Rollback: `SWRollback` of commands/sw_rollback.py.
-- Update: `SWUpdate` of commands/__init__.py, with `YumRollbackManager` of salt.py around the body:
--   the transactions of yum are found on entry, and an exception of the body rolls them back.
-- Pillar/Setter: `PillarSet` and `Set` of commands/__init__.py, over the model of `PillarUpdater`.
-- Certs: `SetSSLCerts` of commands/__init__.py; its state has the name of the backup file, which
--   may not be bound when the handler reads it.
-- Validator, Validator/Paths, Validator/Content: the validators of commands/validator/validator.py,
--   one constructor for a class, and a result without a state, since they only read the files.
--   Validator/Bundle: the schemes of the upgrade bundles, from set_swupgrade_repo.py.
--   Validator/Conforms says in terms of the files alone what a validator asks for.
-- UpdateRepo: `SetSWUpdateRepo` of commands/set_swupdate_repo.py, and the input that it takes.
-- UpgradeRepo/PillarValues: `pillar_value` of `SWUpgradeRepo` in inputs.py.
-- UpgradeRepo: `SetSWUpgradeRepo` of commands/upgrade/set_swupgrade_repo.py and its state.
--   UpgradeRepo/Checks: its checks before and after the mount, for both versions of the bundle.
--   UpgradeRepo/Packages, UpgradeRepo/Compatibility: `CortxISOInfo`, the versions of packages, and
--   `CompatibilityValidator`. UpgradeRepo/Validation: `dynamic_validation`, which puts them in order.
-- Salt/Args, Salt/Results: of salt.py, the arguments of calls with their masked views, and the
--   results of the local client and of the caller. Salt/Client: `_salt_client_cmd`, `function_run`
--   and `local_minion_id`; the state has the world and the remembered minion. Salt/Functions: the
--   functions over it. Salt/Runner: `_salt_runner_cmd`. Salt/Ssh: the results of salt-ssh.
--   Salt/Ssh/Client, Salt/Ssh/Access: `SaltSSHClient`. Salt/Provisioner, Salt/Jobs:
--   `provisioner_cmd` and `SaltJobsRunner`, which run a command of the provisioner by salt and read
--   what it did.
-- Serialize, Serialize/Data: serialize.py, between values and JSON trees; an object is its class
--   and what its `to_args` gives. Cli: the output that `main` of __main__.py prints for a value or
--   an exception, and `process_cli_result` of _api_cli.py, which reads it. Cli/Call: the command
--   line of `_api_call`.
-- Check: `CheckEntry`, `CheckResult` and the decision makers of commands/check.py.
-- Utils/Version, Utils/Checksum: `normalize_rpm_version` and the checksum formats of utils.py;
--   Utils/Formats has the printed form of a checksum line.
-- Errors: the exceptions of errors.py and of Python that the modelled code raises or catches.
-- Exec: code over a state that may raise. A state is passed on also where an exception is raised,
--   as Python keeps what was written before it.
-- Fallible: results without a state. Prelude and its children: library names, tests, texts, dicts.
-- Tests: the theorems applied to concrete inputs.
--
-- SaltStack, local processes, the HA package, YAML, `json.loads`, yum, pip, gpg, hashlib and
-- `packaging` are fields of the records `Env`, `Ops` and `Files`: functions on an arbitrary world,
-- which may raise anything. No law is assumed of them. For `json` and for the classes of objects a
-- theorem that needs one has it as a hypothesis: that the tree that was printed is read back, and
-- that an object is built again from its arguments.
--
-- A command that is sent to a minion goes through all of Cli, Serialize and Salt: its output is
-- printed there, comes back as the return of a salt job, and is read by the caller.
--
-- The commands share these parts: an update and the change of certificates put the cluster into
-- maintenance and back through Hare/Defs, the setters change the pillar through Pillar/Updater, and
-- the upgrade repository is checked by the validators, the checks and the checksum formats.
--
-- The one loop without a structural bound is `ensure`. It runs on fuel `tries + 1`, one more than
-- the rounds that the code makes when `tries` is positive; with `tries` 0 it makes one round.
--
-- Not modelled: log messages, the printed form of exceptions, the parsers of arguments, the salt
-- tree under srv, and shell scripts. Of salt.py: `list_minions`, and `sls_exists` without a summary.
-- Of the commands: the update of firmware, controllers and users, ConfigureCortx, `_run` of
-- `SetSWUpgradeRepo`, `AuthenticityValidator`, the set-up of a system over SSH, and the checks
-- themselves, which run commands on minions. Nor an `OSError` of the queries of paths by the
-- validators and of the reading of lock files, and a lock directory that is removed while a lock is
-- taken. Times are whole seconds. Numbers in
-- JSON are natural. `lower` and `strip` are those of ASCII. In a pillar a scalar stands for any
-- value that is no dict.
pub mod Prelude
pub mod Errors
pub mod Exec
pub mod Fallible
pub mod Ensure
pub mod Json
pub mod Ha
pub mod Lock
pub mod Pillar
pub mod Hare
pub mod Serialize
pub mod Cli
pub mod Salt
pub mod Utils
pub mod Upgrade
pub mod Validator
pub mod Rollback
pub mod Update
pub mod Certs
pub mod UpdateRepo
pub mod UpgradeRepo
pub mod Check
mod Tests
