-- ===== src/Update.antt =====
-- `SWUpdate` of commands/__init__.py, and `YumRollbackManager` and `get_last_txn_ids` of salt.py.
pub mod Kinds
pub mod Success
pub mod Failures
pub mod Reversal
use cortx_prvsnr.Prelude.{String, ◌<>◌, Bool, true, false, Option, none, some, List, [], ◌∷◌}
use cortx_prvsnr.Prelude.{if◌then◌else◌}
use cortx_prvsnr.Prelude.Dict.{Dict}
use cortx_prvsnr.Errors.{Exception, RollbackError, no_rollback_error, rollback_error, value_error}
use cortx_prvsnr.Errors.{cluster_maintenance_enable_error, cluster_maintenance_disable_error}
use cortx_prvsnr.Errors.{sw_stack_update_error, ha_post_update_error, cluster_not_healthy_error}
use cortx_prvsnr.Errors.{sw_update_error, sw_update_fatal_error}
use cortx_prvsnr.Exec.{Result, ok, err, Exec, pure, raise, lift, handle, ◌>>=◌, ◌>>◌}
use cortx_prvsnr.Check.{CheckEntry, make_update_decision}
use cortx_prvsnr.Hare.Defs.{Env, consul_export, ensure_cluster_is_healthy}
use cortx_prvsnr.Hare.Defs.{cluster_maintenance_enable, cluster_maintenance_disable}

-- SaltStack, the checks before an update, and the helpers of the salt configuration.
-- `config_salt_minions` says whether the configuration of the minions has changed.
pub record Ops : Type 1 where
  pub hare : Env
  pub apply_states : List String → String → Exec hare.World (Unit {0})
  pub run_checks : Exec hare.World (List CheckEntry)
  pub config_salt_master : Exec hare.World (Unit {0})
  pub config_salt_minions : Exec hare.World Bool
  pub ensure_salt_master_is_running : Exec hare.World (Unit {0})
  pub restart_salt_minions : Exec hare.World (Unit {0})
  pub yum_history : String → Exec hare.World (Dict String)
  pub yum_rollback : String → String → Exec hare.World (Unit {0})

-- `len(txn_ids) > 1`
unfoldable pub has_several : Dict String → Bool
has_several [] = false
has_several (id ∷ []) = false
has_several (id ∷ other ∷ ids) = true

-- `try: m except Exception as exc: raise wrap(exc) from exc`
unfoldable pub wrapped {ℓ} :
    {S : Type 0} {A : Type ℓ} → (Exception → Exception) → Exec S A → Exec S A
wrapped wrap m s = handle (λ e. raise (wrap e)) (m s)

-- What `SWUpdate.run` tells apart among the exceptions of an update.
pub data FailureKind : Type 0 where
  enabling_failed stopped_failed unexpected : FailureKind

unfoldable pub kind_of : Exception → FailureKind
kind_of (cluster_maintenance_enable_error e) = enabling_failed
kind_of (sw_stack_update_error e) = stopped_failed
kind_of (cluster_maintenance_disable_error e) = stopped_failed
kind_of (ha_post_update_error e) = stopped_failed
kind_of (cluster_not_healthy_error e) = stopped_failed
kind_of e = unexpected

-- `isinstance(exc_value, (HAPostUpdateError, ClusterNotHealthyError))`
unfoldable pub is_started : Exception → Bool
is_started (ha_post_update_error e) = true
is_started (cluster_not_healthy_error e) = true
is_started e = false

module _ (O : Ops) where
  open O use {hare, apply_states, run_checks, config_salt_master, config_salt_minions}
  open O use {ensure_salt_master_is_running, restart_salt_minions, yum_history, yum_rollback}

  abbrev World : Type 0
  World = hare.World

  unfoldable pub ensure_update_repos_configuration : String → Exec World (Unit {0})
  ensure_update_repos_configuration targets =
      apply_states ("components.misc_pkgs.swupdate.repo" ∷ []) targets
      >> apply_states ("components.misc_pkgs.sw_update.repo.sanity_check" ∷ []) targets

  unfoldable pub update_component : String → String → Exec World (Unit {0})
  update_component component targets = apply_states ((component <> ".upgrade") ∷ []) targets

  unfoldable pub update_components : List String → String → Exec World (Unit {0})
  unfolding update_component
  update_components [] targets = pure tt
  update_components (c ∷ cs) targets = update_component c targets >> update_components cs targets

  unfoldable pub apply_provisioner_config : String → Exec World (Unit {0})
  apply_provisioner_config targets = apply_states ("components.provisioner.config" ∷ []) targets

  unfoldable pub apply_ha_post_update : String → Exec World (Unit {0})
  apply_ha_post_update targets = apply_states ("components.ha.iostack-ha.post_update" ∷ []) targets

  -- `_consul_export(stage)`; the name of the file has the time and the process too.
  unfoldable pub export_stage : String → Exec World (Unit {0})
  export_stage stage = consul_export hare stage true >> pure tt

  unfoldable pub healthy : Exec World (Unit {0})
  healthy = ensure_cluster_is_healthy hare 1 10

  unfoldable pub enable_maintenance : Exec World (Unit {0})
  unfolding wrapped
  enable_maintenance =
      wrapped cluster_maintenance_enable_error (cluster_maintenance_enable hare) >> pure tt

  -- The checks: those that break off are ignored, and the decision only warns.
  unfoldable pub decided : Result (List CheckEntry) × World → Result (Unit {0}) × World
  decided (ok entries, w) = lift (make_update_decision entries) w
  decided (err e, w) = (ok tt, w)

  unfoldable pub preflight : Exec World (Unit {0})
  unfolding decided
  preflight w = decided (run_checks w)

  -- What is done before the transactions are looked up.
  unfoldable pub prepare : String → Exec World (Unit {0})
  unfolding healthy preflight ensure_update_repos_configuration export_stage
  prepare targets =
      healthy >> preflight >> ensure_update_repos_configuration targets >> export_stage "update-pre"

  unfoldable pub get_last_txn_ids : String → Bool → Exec World (Dict String)
  unfolding has_several
  get_last_txn_ids targets multiple_targets_ok = do
    txn_ids ← yum_history targets
    (if multiple_targets_ok
        then pure txn_ids
        else if has_several txn_ids
        then raise (value_error "Multiple targetting is not expected")
        else pure txn_ids)

  abbrev pub components : List String
  components = "motr" ∷ "s3server" ∷ "hare" ∷ "ha.cortx-ha" ∷ "sspl" ∷ "uds" ∷ "csm" ∷ []

  -- Packages and configuration; whether the minions have to be restarted.
  unfoldable pub update_stack : String → Exec World Bool
  unfolding update_component apply_provisioner_config update_components
  update_stack targets = do
    update_component "provisioner" targets
    apply_provisioner_config targets
    config_salt_master
    minion_conf_changes ← config_salt_minions
    update_components components targets
    pure minion_conf_changes

  swallowed : Result (Unit {0}) × World → Result (Unit {0}) × World
  swallowed (r, w) = (ok tt, w)

  unfoldable pub restart : Bool → Exec World (Unit {0})
  unfolding swallowed
  restart false w = (ok tt, w)
  restart true w = swallowed (restart_salt_minions w)

  -- The body of the `with`.
  unfoldable pub update_within : String → Exec World (Unit {0})
  unfolding enable_maintenance update_stack wrapped export_stage apply_ha_post_update healthy
      restart
  update_within targets = do
    enable_maintenance
    minion_conf_changes ← wrapped sw_stack_update_error (update_stack targets)
    wrapped cluster_maintenance_disable_error (cluster_maintenance_disable hare false)
    export_stage "update-pre-ha-update"
    wrapped ha_post_update_error (apply_ha_post_update targets)
    export_stage "update-post-ha-update"
    wrapped cluster_not_healthy_error healthy
    export_stage "update-post"
    restart minion_conf_changes

  -- `_pre_yum_rollback`
  unfoldable pub pre_yum_rollback : Exception → Exec World (Unit {0})
  unfolding is_started enable_maintenance
  pre_yum_rollback e = if is_started e then enable_maintenance else pure tt

  unfoldable pub rollback_targets : Dict String → Exec World (Unit {0})
  rollback_targets [] = pure tt
  rollback_targets ((target, txn_id) ∷ ids) = yum_rollback txn_id target >> rollback_targets ids

  outcome : Result (Unit {0}) × World → Option Exception × World
  outcome (ok u, w) = (none, w)
  outcome (err e, w) = (some e, w)

  -- `__exit__` after an exception: it gives the rollback error, and raises nothing.
  unfoldable pub exit_rollback : Dict String → Exception → World → Option Exception × World
  unfolding pre_yum_rollback rollback_targets outcome
  exit_rollback ids e w = outcome ((pre_yum_rollback e >> rollback_targets ids) w)

  unfoldable pub restore_config : String → Exec World (Unit {0})
  unfolding apply_provisioner_config
  restore_config targets = do
    ensure_salt_master_is_running
    config_salt_master
    config_salt_minions
    apply_provisioner_config targets

  unfoldable pub recover_cluster : String → Exec World (Unit {0})
  unfolding export_stage apply_ha_post_update healthy
  recover_cluster targets = do
    cluster_maintenance_disable hare false
    export_stage "rollback-pre-ha-update"
    apply_ha_post_update targets
    export_stage "rollback-post-ha-update"
    healthy
    export_stage "rollback-post"

  -- The last step: `raise final_error_t(update_exc, rollback_error=…)`.
  concluded : Exception → Result (Unit {0}) × World → Result (Unit {0}) × World
  concluded update_exc (ok u, w) = (err (sw_update_error update_exc no_rollback_error), w)
  concluded update_exc (err exc, w) =
      (err (sw_update_fatal_error update_exc (rollback_error exc)), w)

  -- The handling of a failure after which the packages are as they were.
  unfoldable pub after_rollback : String → Exception → FailureKind → Exec World (Unit {0})
  unfolding restore_config recover_cluster concluded
  after_rollback targets update_exc enabling_failed w =
      (cluster_maintenance_disable hare true
          >> raise (sw_update_error update_exc no_rollback_error))
        w
  after_rollback targets update_exc stopped_failed w =
      concluded update_exc ((restore_config targets >> recover_cluster targets) w)
  after_rollback targets update_exc unexpected w =
      (err (sw_update_error update_exc no_rollback_error), w)

  unfoldable pub failed_within :
      String → Exception → Option Exception × World → Result (Unit {0}) × World
  unfolding after_rollback kind_of
  failed_within targets update_exc (some exc, w) =
      (err (sw_update_fatal_error update_exc (rollback_error exc)), w)
  failed_within targets update_exc (none, w) =
      after_rollback targets update_exc (kind_of update_exc) w

  unfoldable pub finish :
      String → Dict String → Result (Unit {0}) × World → Result (Unit {0}) × World
  unfolding failed_within exit_rollback
  finish targets ids (ok u, w) = (ok u, w)
  finish targets ids (err e, w) = failed_within targets e (exit_rollback ids e w)

  entered : String → Result (Dict String) × World → Result (Unit {0}) × World
  unfolding finish update_within
  entered targets (ok ids, w) = finish targets ids (update_within targets w)
  entered targets (err e, w) = (err (sw_update_error e no_rollback_error), w)

  -- `run(targets)`; `rollback_ctx` is `None` until the transactions are known.
  unfoldable pub run_update : String → Exec World (Unit {0})
  unfolding entered prepare get_last_txn_ids
  run_update targets w = entered targets ((prepare targets >> get_last_txn_ids targets true) w)
