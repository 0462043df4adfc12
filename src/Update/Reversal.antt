-- ===== src/Update/Reversal.antt =====
-- What an `SWUpdateError` of an update says of the packages and of the cluster.
use cortx_prvsnr.Prelude.{String, ◌≡◌, refl, arith, true, false}
use cortx_prvsnr.Prelude.Dict.{Dict}
use cortx_prvsnr.Errors.{Exception, RollbackError, sw_update_error}
use cortx_prvsnr.Errors.{cluster_maintenance_enable_error}
use cortx_prvsnr.Exec.{ok, err, >>=-eq-ok, ◌>>◌}
use cortx_prvsnr.Hare.Defs.{cluster_maintenance_disable, cluster_maintenance_enable}
use cortx_prvsnr.Update.{Ops, World, run_update, prepare, get_last_txn_ids, restore_config}
use cortx_prvsnr.Update.{recover_cluster, export_stage, apply_ha_post_update, healthy}
use cortx_prvsnr.Update.{kind_of, enabling_failed, stopped_failed}
use cortx_prvsnr.Update.Kinds.{BrokeAt-enable}
use cortx_prvsnr.Update.Failures.{Broken, RolledBack, Failure, untouched, not_rolled_back}
use cortx_prvsnr.Update.Failures.{reverted, still_enabled, recovered, not_recovered, run_update-err}

module _ (O : Ops) where
  open O use {hare}

  -- Nothing was begun; or all targets were rolled back, and the maintenance mode could not be enabled
  -- before, or a later step failed and the cluster was found healthy afterwards.
  pub data Reverted (targets : String) (w t : World O) : Type 0 where
    not_begun :
        {x : Exception}
        → (prepare O targets >> get_last_txn_ids O targets true) w ≡ (err x, t)
        → Reverted targets w t
    never_stopped :
        {ids : Dict String} {x : Exception} {broken back : World O}
        → Broken O targets w ids x broken
        → RolledBack O ids x broken back
        → (y : Exception) → x ≡ cluster_maintenance_enable_error y
        → (entry : World O)
        → (prepare O targets >> get_last_txn_ids O targets true) w ≡ (ok ids, entry)
        → cluster_maintenance_enable hare entry ≡ (err y, broken)
        → Reverted targets w t
    found_healthy :
        {ids : Dict String} {x : Exception} {broken back : World O} (before after : World O)
        → Broken O targets w ids x broken
        → RolledBack O ids x broken back
        → kind_of x ≡ stopped_failed
        → healthy O before ≡ (ok tt, after)
        → export_stage O "rollback-post" after ≡ (ok tt, t)
        → Reverted targets w t

  recover_cluster-healthy :
      (targets : String) (w t : World O)
      → recover_cluster O targets w ≡ (ok tt, t)
      → (before after : World O) × (healthy O before ≡ (ok tt, after))
        × (export_stage O "rollback-post" after ≡ (ok tt, t))
  unfolding recover_cluster
  recover_cluster-healthy targets w t h =
      let (_, w₁, _, h₁) = >>=-eq-ok (cluster_maintenance_disable hare false) _ w h in
      let (_, w₂, _, h₂) = >>=-eq-ok (export_stage O "rollback-pre-ha-update") _ w₁ h₁ in
      let (_, w₃, _, h₃) = >>=-eq-ok (apply_ha_post_update O targets) _ w₂ h₂ in
      let (_, w₄, _, h₄) = >>=-eq-ok (export_stage O "rollback-post-ha-update") _ w₃ h₃ in
      let (_, w₅, found, h₅) = >>=-eq-ok (healthy O) _ w₄ h₄ in (w₄, w₅, found, h₅)

  stopped :
      {targets : String} {w t broken back : World O} {ids : Dict String} {x : Exception}
      → Broken O targets w ids x broken
      → RolledBack O ids x broken back
      → kind_of x ≡ enabling_failed
      → Reverted targets w t
  stopped {targets = targets} {broken = broken} {x = x} b rolled k =
      let (y, is_x, failed) = BrokeAt-enable O targets b.entry broken x b.step k in
      never_stopped b rolled y is_x b.entry b.known failed

  Failure-Reverted :
      (targets : String) (w t : World O) (e x : Exception) (r : RollbackError)
      → Failure O targets w t e
      → e ≡ sw_update_error x r
      → Reverted targets w t
  Failure-Reverted targets w t e x r (untouched failed) p = not_begun failed
  Failure-Reverted targets w t e x r (not_rolled_back b failed) p = ground arith
  Failure-Reverted targets w t e x r (reverted b rolled k d) p = stopped b rolled k
  Failure-Reverted targets w t e x r (still_enabled b rolled k d) p = stopped b rolled k
  Failure-Reverted targets w t e x r (recovered {back = back} b rolled k d) p =
      let (_, u, _, h) = >>=-eq-ok (restore_config O targets) _ back d in
      let (before, after, found, h₁) = recover_cluster-healthy targets u t h in
      found_healthy before after b rolled k found h₁
  Failure-Reverted targets w t e x r (not_recovered b rolled k d) p = ground arith

  -- An `SWUpdateError` that is not fatal comes before the yum transactions of all targets are known;
  -- or every target was rolled back to its transaction: after the call that enables the maintenance
  -- mode had raised, which is the first step after the lookup of the transactions; or after a later
  -- step had raised, and then the cluster was found healthy.
  pub run_update-Reverted :
      (targets : String) (w t : World O) (x : Exception) (r : RollbackError)
      → run_update O targets w ≡ (err (sw_update_error x r), t)
      → Reverted targets w t
  run_update-Reverted targets w t x r h =
      Failure-Reverted targets w t (sw_update_error x r) x r
        (run_update-err O targets w t (sw_update_error x r) h) refl
