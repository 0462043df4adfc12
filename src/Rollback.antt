-- ===== src/Rollback.antt =====
-- `SWRollback` of commands/sw_rollback.py: packages of all nodes, then the components.
pub mod Laws
use cortx_prvsnr.Prelude.{String, ◌<>◌, Bool, true, false, Option, none, some, List, [], ◌∷◌}
use cortx_prvsnr.Prelude.{if◌then◌else◌}
use mathlib.Core.List.{reverse}
use cortx_prvsnr.Prelude.Text.{is_empty}
use cortx_prvsnr.Prelude.Dict.{Dict, lookup}
use cortx_prvsnr.Errors.{attribute_error, key_error, value_error, bad_pillar_data_error}
use cortx_prvsnr.Errors.{sw_rollback_error}
use cortx_prvsnr.Exec.{Result, ok, err, Exec, pure, raise, handle, ◌>>=◌, ◌>>◌}

-- The pillar data under `sw_list`: a dict of components, or another value. Either may be empty.
pub data SwList : Type 0 where
  components : List String → SwList
  a_list : List String → SwList

-- The pillar data under `upgrade`: the transaction ids of each node by version, and the software.
-- A transaction id that is `None` is an empty text here.
pub record UpgradeData : Type 0 where
  pub yum_snapshots : Dict (Dict String)
  pub sw_list : Option SwList

pub record Ops : Type 1 where
  pub World : Type 0
  pub upgrade_data : Exec World UpgradeData
  pub yum_rollback : String → String → Exec World (Unit {0})
  pub config_salt_master : Exec World (Unit {0})
  pub config_salt_minions : Exec World (Unit {0})
  pub apply_provisioner_config : String → Exec World (Unit {0})
  pub apply_states : List String → String → Exec World (Unit {0})

-- `reversed(list(upgrade_dict['sw_list'].values()))`, before the reversal.
unfoldable pub values_of : Option SwList → Result (List String)
values_of none = err (key_error "sw_list")
values_of (some (components cs)) = ok cs
values_of (some (a_list cs)) = err (attribute_error "'list' object has no attribute 'values'")

module _ (O : Ops) where
  open O use {World, upgrade_data, yum_rollback, config_salt_master, config_salt_minions}
  open O use {apply_provisioner_config, apply_states}

  -- The loop over the nodes of a version.
  unfoldable pub rollback_nodes : Dict String → Exec World (Unit {0})
  unfolding is_empty
  rollback_nodes [] = pure tt
  rollback_nodes ((target, txn_id) ∷ d) =
      if is_empty txn_id
      then raise (bad_pillar_data_error ("yum txn id not available for " <> target))
      else yum_rollback txn_id target >> rollback_nodes d

  to_version : Option (Dict String) → Exec World (Unit {0})
  unfolding rollback_nodes
  to_version none = raise (value_error "yum snapshots not available")
  to_version (some yum_txn_ids) = rollback_nodes yum_txn_ids

  -- With a version the packages are rolled back to it.
  unfoldable pub rollback_packages : Option String → Dict (Dict String) → Exec World (Unit {0})
  unfolding to_version is_empty lookup
  rollback_packages none yum_snapshots = pure tt
  rollback_packages (some target_version) yum_snapshots =
      if is_empty target_version then pure tt else elim yum_snapshots [
        | [] ↦ raise (value_error "yum snapshots data not available for rollback")
        | s ∷ ss ↦ to_version (lookup target_version (s ∷ ss))
      ]

  unfoldable pub rollback_component : String → String → Exec World (Unit {0})
  rollback_component component targets = apply_states ((component <> ".rollback") ∷ []) targets

  -- The loop over the components.
  unfoldable pub rollback_components : List String → String → Exec World (Unit {0})
  unfolding rollback_component
  rollback_components [] targets = pure tt
  rollback_components (c ∷ cs) targets =
      rollback_component c targets >> rollback_components cs targets

  restore : String → Result (List String) → Exec World (Unit {0})
  unfolding rollback_components
  restore targets (ok cs) = rollback_components (reverse cs) targets
  restore targets (err e) = raise e

  -- The body of the `try`.
  unfoldable pub rollback_all : Option String → String → UpgradeData → Exec World (Unit {0})
  unfolding restore
  rollback_all target_version targets upgrade_dict = do
    rollback_packages target_version upgrade_dict.yum_snapshots
    config_salt_master
    config_salt_minions
    apply_provisioner_config targets
    restore targets (values_of upgrade_dict.sw_list)

  -- `run(target_version, targets)`
  unfoldable pub run_rollback : Option String → String → Exec World (Unit {0})
  run_rollback target_version targets = do
    upgrade_dict ← upgrade_data
    λ w.
        handle (λ e. raise (sw_rollback_error e))
          (rollback_all target_version targets upgrade_dict w)
