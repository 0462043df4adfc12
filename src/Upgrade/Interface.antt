-- ===== src/Upgrade/Interface.antt =====
-- What the upgrade commands call: SaltStack, other commands, and the cluster calls of cortx_ha.py.
use cortx_prvsnr.Prelude.{String, Bool, Option, List}
use cortx_prvsnr.Prelude.Dict.{Dict}
use cortx_prvsnr.Exec.{Exec}

-- `CortxFlows`
pub data Flow : Type 0 where
  upgrade upgrade_offline : Flow

-- `MiniAPIHooks` and `MiniAPILevels`, as far as they are fired.
pub data HookName : Type 0 where
  pre_upgrade post_upgrade : HookName

pub data Level : Type 0 where
  cluster node : Level

-- A hook with its context: the version that is left and the one that is upgraded to.
pub record Hook : Type 0 where
  pub name : HookName
  pub flow : Flow
  pub level : Level
  pub from_ver : String
  pub to_ver : String

-- All targets of the cluster, or some nodes.
pub data Targets : Type 0 where
  all_targets : Targets
  local_minion : Targets
  nodes : List String → Targets

pub record Ops : Type 1 where
  pub World : Type 0
  -- cortx_ha.py
  pub is_cluster_healthy : Exec World Bool
  pub cluster_standby : Exec World (Unit {0})
  pub cluster_start : Exec World (Unit {0})
  -- salt.py
  pub apply_states : List String → Targets → Exec World (Unit {0})
  pub list_minions : Exec World (List String)
  pub cmd_run : String → Targets → Exec World String
  pub get_last_txn_ids : Exec World (Dict String)
  -- the pillar: a value set by key path, and those that the commands read
  pub pillar_set : String → Dict String → Exec World (Unit {0})
  pub pillar_sw_list : Exec World (List String)
  pub pillar_sw_data : Exec World (Dict String)
  -- checks before the upgrade: a result, or a failure of the checks; the decision may raise
  pub CheckResult : Type 0
  pub run_checks : Exec World CheckResult
  pub make_decision : CheckResult → Exec World (Unit {0})
  -- mini API hooks, and the releases
  pub hook : Hook → Targets → Exec World (Unit {0})
  pub cortx_version : Exec World String
  pub iso_version : Exec World (Option String)
  pub swupgrade_version : Exec World String
  pub set_release : String → Exec World (Unit {0})
  -- `__version__` of the running provisioner
  pub own_version : String
