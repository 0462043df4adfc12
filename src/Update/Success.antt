-- ===== src/Update/Success.antt =====
-- The steps of an update that returns.
use cortx_prvsnr.Prelude.{String, ◌≡◌, ◌≢◌, Option, none, some, refl, Bool, true, false, arith}
use cortx_prvsnr.Prelude.Dict.{Dict}
use cortx_prvsnr.Errors.{Exception}
use cortx_prvsnr.Errors.{cluster_maintenance_disable_error}
use cortx_prvsnr.Errors.{sw_stack_update_error, ha_post_update_error, cluster_not_healthy_error}
use cortx_prvsnr.Exec.{Result, ok, err, Exec, raise, handle, >>=-eq-ok, ◌>>◌}
use cortx_prvsnr.Hare.Defs.{cluster_maintenance_disable}
use cortx_prvsnr.Update.{Ops, World, wrapped, FailureKind, run_update, entered, finish, prepare}
use cortx_prvsnr.Update.{get_last_txn_ids, update_within, enable_maintenance, update_stack}
use cortx_prvsnr.Update.{export_stage, apply_ha_post_update, healthy, restart, concluded}
use cortx_prvsnr.Update.{failed_within, after_rollback, kind_of}
use cortx_prvsnr.Update.{enabling_failed, stopped_failed, unexpected}

pub wrapped-ok :
    {S A : Type 0} (wrap : Exception → Exception) (m : Exec S A) (s t : S) (a : A)
    → wrapped wrap m s ≡ (ok a, t)
    → m s ≡ (ok a, t)
unfolding wrapped
wrapped-ok {S = S} {A = A} wrap m s t a h = split (m s) h
  where
    split : (r : Result A × S) → handle (λ e. raise (wrap e)) r ≡ (ok a, t) → r ≡ (ok a, t)
    split (ok b, u) p = p
    split (err e, u) p = ground arith

module _ (O : Ops) where
  open O use {hare}

  -- What an update that returns has done, with the state before each of its main steps.
  pub record Updated (targets : String) (w t : World O) : Type 0 where
    pub ids : Dict String
    pub changed : Bool
    pub entry : World O
    pub enabled : World O
    pub updated : World O
    pub started : World O
    pub applied : World O
    pub exported : World O
    pub checked : World O
    pub known : (prepare O targets >> get_last_txn_ids O targets true) w ≡ (ok ids, entry)
    pub enable_step : enable_maintenance O entry ≡ (ok tt, enabled)
    pub stack_step : update_stack O targets enabled ≡ (ok changed, updated)
    pub disable_step :
        (out : String) × (cluster_maintenance_disable hare false updated ≡ (ok out, started))
    pub ha_step :
        (export_stage O "update-pre-ha-update" >> apply_ha_post_update O targets) started
        ≡ (ok tt, applied)
    pub export_step : export_stage O "update-post-ha-update" applied ≡ (ok tt, exported)
    pub healthy_step : healthy O exported ≡ (ok tt, checked)
    pub end_step : (export_stage O "update-post" >> restart O changed) checked ≡ (ok tt, t)

  concluded-err :
      (x : Exception) (r : Result (Unit {0}) × World O) (t : World O) → concluded O x r ≢ (ok tt, t)
  unfolding concluded
  concluded-err x (ok u, v) t h = ground arith
  concluded-err x (err e, v) t h = ground arith

  after_rollback-err :
      (targets : String) (x : Exception) (k : FailureKind) (w t : World O)
      → after_rollback O targets x k w ≢ (ok tt, t)
  unfolding after_rollback
  after_rollback-err targets x enabling_failed w t h =
      let (out, u, done, h₁) = >>=-eq-ok (cluster_maintenance_disable hare true) _ w h in
      ground arith
  after_rollback-err targets x stopped_failed w t h = concluded-err x _ t h
  after_rollback-err targets x unexpected w t h = ground arith

  failed_within-err :
      (targets : String) (x : Exception) (r : Option Exception × World O) (t : World O)
      → failed_within O targets x r ≢ (ok tt, t)
  unfolding failed_within
  failed_within-err targets x (none, v) t h = after_rollback-err targets x (kind_of x) v t h
  failed_within-err targets x (some e, v) t h = ground arith

  finish-ok :
      (targets : String) (ids : Dict String) (r : Result (Unit {0}) × World O) (t : World O)
      → finish O targets ids r ≡ (ok tt, t)
      → r ≡ (ok tt, t)
  unfolding finish
  finish-ok targets ids (ok u, v) t h = h
  finish-ok targets ids (err e, v) t h = absurd (failed_within-err targets e _ t h)

  entered-ok :
      (targets : String) (r : Result (Dict String) × World O) (t : World O)
      → entered O targets r ≡ (ok tt, t)
      → (ids : Dict String) × (u : World O) × (r ≡ (ok ids, u))
        × (update_within O targets u ≡ (ok tt, t))
  unfolding entered
  entered-ok targets (ok ids, u) t h = (ids, u, refl, finish-ok targets ids _ t h)
  entered-ok targets (err e, u) t h = ground arith

  -- An update that returns has, in this order and each with success: made its preparations and
  -- found the transactions, enabled the maintenance mode, updated the packages and their
  -- configuration, disabled the maintenance mode, applied the update of the cluster, and found the
  -- cluster healthy; after that it has only exported the consul store and restarted the minions.
  pub run_update-ok :
      (targets : String) (w t : World O) → run_update O targets w ≡ (ok tt, t) → Updated targets w t
  unfolding run_update update_within
  run_update-ok targets w t h =
      let (ids, entry, known, h₀) = entered-ok targets _ t h in
      let (_, enabled, enable_step, h₁) = >>=-eq-ok (enable_maintenance O) _ entry h₀ in
      let (changed, updated, s₂, h₂) =
        >>=-eq-ok (wrapped sw_stack_update_error (update_stack O targets)) _ enabled h₁ in
      let (out, started, s₃, h₃) =
        >>=-eq-ok
          (wrapped cluster_maintenance_disable_error (cluster_maintenance_disable hare false)) _
          updated h₂ in
      let (_, e₁, s₄, h₄) = >>=-eq-ok (export_stage O "update-pre-ha-update") _ started h₃ in
      let (_, applied, s₅, h₅) =
        >>=-eq-ok (wrapped ha_post_update_error (apply_ha_post_update O targets)) _ e₁ h₄ in
      let (_, exported, s₆, h₆) = >>=-eq-ok (export_stage O "update-post-ha-update") _ applied h₅ in
      let (_, checked, s₇, h₇) =
        >>=-eq-ok (wrapped cluster_not_healthy_error (healthy O)) _ exported h₆ in
      record {
        ids = ids;
        changed = changed;
        entry = entry;
        enabled = enabled;
        updated = updated;
        started = started;
        applied = applied;
        exported = exported;
        checked = checked;
        known = known;
        enable_step = enable_step;
        stack_step =
            wrapped-ok sw_stack_update_error (update_stack O targets) enabled updated changed s₂;
        disable_step = (
          out,
          wrapped-ok cluster_maintenance_disable_error (cluster_maintenance_disable hare false)
              updated started out s₃,
        );
        ha_step =
            rw s₄
              (wrapped-ok ha_post_update_error (apply_ha_post_update O targets) e₁ applied tt s₅);
        export_step = s₆;
        healthy_step = wrapped-ok cluster_not_healthy_error (healthy O) exported checked tt s₇;
        end_step = h₇;
      }
