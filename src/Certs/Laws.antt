-- ===== src/Certs/Laws.antt =====
-- How `SetSSLCerts` fails, and the maintenance mode after it.
use cortx_prvsnr.Prelude.{String, ◌≡◌, true, false, ◌⊎◌}
use cortx_prvsnr.Prelude.{inl, inr}
use cortx_prvsnr.Errors.{Exception, RollbackError, no_rollback_error, rollback_error}
use cortx_prvsnr.Errors.{ssl_certs_update_error, unbound_local_error}
use cortx_prvsnr.Exec.{ok, err}
use cortx_prvsnr.Hare.Defs.{cluster_maintenance_enable}
use cortx_prvsnr.Certs.{Ops, Paths, unexpected}
use cortx_prvsnr.Certs.{
  kind_of, set_certs, recover, restore, replace, on_world, failed, finished, handled, run_certs,
}
use cortx_prvsnr.Certs.{World}
use cortx_prvsnr.Update.{wrapped}

module _ (O : Ops) (P : Paths) (targets : String) where
  open O use {hare}

  -- The copy of the new certificates fails, or that of the old ones before anything else is done.
  unfoldable pub CopyFails : String → World O P targets → World O P targets → Exception → Type 0
  CopyFails source u t e =
      (O.copy_to_file_roots source P.dest u ≡ (err e, t))
      ⊎ ((name : String) × (v : World O P targets) × (O.copy_to_file_roots source P.dest u
            ≡ (ok name, v))
          × (O.copy_to_file_roots P.ssl_certs_file P.backup v ≡ (err e, t)))

  -- When a copy of certificates fails, the command ends right there with an `SSLCertsUpdateError`,
  -- with the maintenance mode enabled before and not disabled again.
  pub run_certs-left :
      (source : String) (w u t : World O P targets) (out : String) (e : Exception)
      → O.is_file source w ≡ true
      → cluster_maintenance_enable hare w ≡ (ok out, u)
      → CopyFails source u t e
      → kind_of e ≡ unexpected
      → (x : Exception) × (r : RollbackError) × (run_certs O P targets source false w
          ≡ (err (ssl_certs_update_error x r), t))
  unfolding run_certs set_certs replace handled failed finished recover restore on_world wrapped
      CopyFails
  run_certs-left source w u t out e there enabled (inl copying) k =
      (e, no_rollback_error, rw (run_certs, set_certs, there, enabled, copying, k))
  run_certs-left source w u t out e there enabled (inr (name, v, copied, copying)) k = (
    ssl_certs_update_error e no_rollback_error,
    rollback_error (unbound_local_error "backup_file_name"),
    rw (run_certs, set_certs, there, enabled, copied, copying),
  )
