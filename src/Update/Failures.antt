-- ===== src/Update/Failures.antt =====
-- What an update that fails leaves behind.
use cortx_prvsnr.Prelude.{String, ◌≡◌, sym, refl, true, arith}
use cortx_prvsnr.Prelude.Dict.{Dict}
use cortx_prvsnr.Errors.{Exception, no_rollback_error, rollback_error}
use cortx_prvsnr.Errors.{sw_update_error, sw_update_fatal_error}
use cortx_prvsnr.Exec.{Result, ok, err, ◌>>◌, raise, continue}
use cortx_prvsnr.Hare.Defs.{cluster_maintenance_disable}
use cortx_prvsnr.Update.{Ops, World, run_update, entered, finish, prepare, get_last_txn_ids}
use cortx_prvsnr.Update.{update_within, exit_rollback, outcome, pre_yum_rollback, rollback_targets}
use cortx_prvsnr.Update.{failed_within, after_rollback, concluded, restore_config, recover_cluster}
use cortx_prvsnr.Update.{kind_of, FailureKind, enabling_failed, stopped_failed, unexpected}
use cortx_prvsnr.Update.Kinds.{BrokeAt, update_within-BrokeAt, update_within-expected}

module _ (O : Ops) where
  open O use {hare}

  -- The transactions were known at `entry`, and `x` broke the update off at `broken`; `step` is the
  -- step that raised it.
  pub record Broken (targets : String) (w : World O) (ids : Dict String) (x : Exception)
      (broken : World O) : Type 0 where
    pub entry : World O
    pub known : (prepare O targets >> get_last_txn_ids O targets true) w ≡ (ok ids, entry)
    pub break : update_within O targets entry ≡ (err x, broken)
    pub step : BrokeAt O targets entry x broken

  -- The packages of all targets were rolled back from there.
  abbrev pub RolledBack : Dict String → Exception → World O → World O → Type 0
  RolledBack ids x broken back =
      (pre_yum_rollback O x >> rollback_targets O ids) broken ≡ (ok tt, back)

  -- How an update fails, with the state at the end and the exception that is raised.
  pub data Failure : String → World O → World O → Exception → Type 0 where
    untouched :
        {targets : String} {w t : World O} {x : Exception}
        → (prepare O targets >> get_last_txn_ids O targets true) w ≡ (err x, t)
        → Failure targets w t (sw_update_error x no_rollback_error)
    not_rolled_back :
        {targets : String} {w broken t : World O} {x r : Exception} {ids : Dict String}
        → Broken targets w ids x broken
        → (pre_yum_rollback O x >> rollback_targets O ids) broken ≡ (err r, t)
        → Failure targets w t (sw_update_fatal_error x (rollback_error r))
    reverted :
        {targets out : String} {w broken back t : World O} {x : Exception} {ids : Dict String}
        → Broken targets w ids x broken
        → RolledBack ids x broken back
        → kind_of x ≡ enabling_failed
        → cluster_maintenance_disable hare true back ≡ (ok out, t)
        → Failure targets w t (sw_update_error x no_rollback_error)
    still_enabled :
        {targets : String} {w broken back t : World O} {x e : Exception} {ids : Dict String}
        → Broken targets w ids x broken
        → RolledBack ids x broken back
        → kind_of x ≡ enabling_failed
        → cluster_maintenance_disable hare true back ≡ (err e, t)
        → Failure targets w t e
    recovered :
        {targets : String} {w broken back t : World O} {x : Exception} {ids : Dict String}
        → Broken targets w ids x broken
        → RolledBack ids x broken back
        → kind_of x ≡ stopped_failed
        → (restore_config O targets >> recover_cluster O targets) back ≡ (ok tt, t)
        → Failure targets w t (sw_update_error x no_rollback_error)
    not_recovered :
        {targets : String} {w broken back t : World O} {x r : Exception} {ids : Dict String}
        → Broken targets w ids x broken
        → RolledBack ids x broken back
        → kind_of x ≡ stopped_failed
        → (restore_config O targets >> recover_cluster O targets) back ≡ (err r, t)
        → Failure targets w t (sw_update_fatal_error x (rollback_error r))

  module _ (targets : String) (w t : World O) (ids : Dict String) (x e : Exception)
      (broken : World O) (b : Broken targets w ids x broken) where
    disabled :
        (back : World O) (r : Result String × World O)
        → RolledBack ids x broken back
        → kind_of x ≡ enabling_failed
        → cluster_maintenance_disable hare true back ≡ r
        → continue {B = Unit {0}} (λ _. raise (sw_update_error x no_rollback_error)) r ≡ (err e, t)
        → Failure targets w t e
    disabled back (ok out, u) rolled k d h =
        let is_e : sw_update_error x no_rollback_error ≡ e = ground arith in
        let is_t : u ≡ t = ground arith in rw (sym is_e) (reverted b rolled k (rw is_t at d))
    disabled back (err y, u) rolled k d h =
        let is_e : y ≡ e = ground arith in
        let is_t : u ≡ t = ground arith in still_enabled b rolled k (rw (is_e, is_t) at d)

    concluded-Failure :
        (back : World O) (r : Result (Unit {0}) × World O)
        → RolledBack ids x broken back
        → kind_of x ≡ stopped_failed
        → (restore_config O targets >> recover_cluster O targets) back ≡ r
        → concluded O x r ≡ (err e, t)
        → Failure targets w t e
    unfolding concluded
    concluded-Failure back (ok u, v) rolled k d h =
        let is_e : sw_update_error x no_rollback_error ≡ e = ground arith in
        let is_t : v ≡ t = ground arith in rw (sym is_e) (recovered b rolled k (rw is_t at d))
    concluded-Failure back (err r, v) rolled k d h =
        let is_e : sw_update_fatal_error x (rollback_error r) ≡ e = ground arith in
        let is_t : v ≡ t = ground arith in rw (sym is_e) (not_recovered b rolled k (rw is_t at d))

    after-Failure :
        (back : World O) (k : FailureKind)
        → RolledBack ids x broken back
        → kind_of x ≡ k
        → after_rollback O targets x k back ≡ (err e, t)
        → Failure targets w t e
    unfolding after_rollback
    after-Failure back enabling_failed rolled k h = disabled back _ rolled k refl h
    after-Failure back stopped_failed rolled k h = concluded-Failure back _ rolled k refl h
    after-Failure back unexpected rolled k h =
        absurd (update_within-expected O targets b.entry broken x b.break k)

    within-Failure :
        (r : Result (Unit {0}) × World O)
        → (pre_yum_rollback O x >> rollback_targets O ids) broken ≡ r
        → failed_within O targets x (outcome O r) ≡ (err e, t)
        → Failure targets w t e
    unfolding failed_within outcome
    within-Failure (ok tt, back) rolled h = after-Failure back (kind_of x) rolled refl h
    within-Failure (err r, v) rolled h =
        let is_e : sw_update_fatal_error x (rollback_error r) ≡ e = ground arith in
        let is_t : v ≡ t = ground arith in rw (sym is_e) (not_rolled_back b (rw is_t at rolled))

  module _ (targets : String) (w t : World O) (e : Exception) where
    finish-Failure :
        (ids : Dict String) (entry : World O) (r : Result (Unit {0}) × World O)
        → (prepare O targets >> get_last_txn_ids O targets true) w ≡ (ok ids, entry)
        → update_within O targets entry ≡ r
        → finish O targets ids r ≡ (err e, t)
        → Failure targets w t e
    unfolding finish exit_rollback
    finish-Failure ids entry (ok u, v) known body h = ground arith
    finish-Failure ids entry (err x, v) known body h =
        within-Failure targets w t ids x e v
          (record {
            entry = entry;
            known = known;
            break = body;
            step = update_within-BrokeAt O targets entry v x body;
          })
          _ refl h

    entered-Failure :
        (r : Result (Dict String) × World O)
        → (prepare O targets >> get_last_txn_ids O targets true) w ≡ r
        → entered O targets r ≡ (err e, t)
        → Failure targets w t e
    unfolding entered
    entered-Failure (ok ids, entry) known h = finish-Failure ids entry _ known refl h
    entered-Failure (err x, v) known h =
        let is_e : sw_update_error x no_rollback_error ≡ e = ground arith in
        let is_t : v ≡ t = ground arith in rw (sym is_e) (untouched (rw is_t at known))

    -- An update fails in one of six ways: before the transactions are known, with an `SWUpdateError`
    -- and no rollback; with an `SWUpdateFatalError` that tells what broke the rollback of the
    -- packages; with the packages rolled back after the call that enables maintenance raised, which
    -- is then disabled in the background or with the exception of that command; or, where
    -- maintenance had been enabled and a later step raised, with the packages rolled back and the
    -- cluster recovered, an `SWUpdateError`, or with an `SWUpdateFatalError` that tells what broke
    -- the recovery. The step that raised is told by its own exception, and the steps before it had
    -- returned.
    pub run_update-err : run_update O targets w ≡ (err e, t) → Failure targets w t e
    unfolding run_update
    run_update-err h = entered-Failure _ refl h
