-- ===== src/Certs.antt =====
-- `SetSSLCerts` of commands/__init__.py.
pub mod Steps
pub mod Recovery
pub mod Laws
pub mod Failures
use cortx_prvsnr.Prelude.{String, ◌<>◌, Bool, true, false, Option, none, some, List, [], ◌∷◌}
use cortx_prvsnr.Prelude.{if◌then◌else◌}
use cortx_prvsnr.Errors.{Exception, RollbackError, no_rollback_error, rollback_error, value_error}
use cortx_prvsnr.Errors.{cluster_maintenance_enable_error, cluster_maintenance_disable_error}
use cortx_prvsnr.Errors.{ssl_certs_update_error, unbound_local_error}
use cortx_prvsnr.Exec.{Result, ok, err, Exec, pure, raise, handle, ◌>>=◌, ◌>>◌}
use cortx_prvsnr.Hare.Defs.{Env, cluster_maintenance_enable, cluster_maintenance_disable}
use cortx_prvsnr.Update.{wrapped}

-- Files, the copy to the file roots of salt, which gives the path of the copy, and the states.
pub record Ops : Type 1 where
  pub hare : Env
  pub is_file : String → hare.World → Bool
  pub copy_to_file_roots : String → String → Exec hare.World String
  pub apply_states : List String → String → Exec hare.World (Unit {0})

-- The paths of the certificates and of the backup, whose name has the time stamp.
pub record Paths : Type 0 where
  pub ssl_certs_file : String
  pub dest : String
  pub backup : String

-- What the handler tells apart.
pub data FailureKind : Type 0 where
  enabling_failed updating_failed unexpected : FailureKind

unfoldable pub kind_of : Exception → FailureKind
kind_of (cluster_maintenance_enable_error e) = enabling_failed
kind_of (ssl_certs_update_error e r) = updating_failed
kind_of (cluster_maintenance_disable_error e) = updating_failed
kind_of e = unexpected

module _ (O : Ops) (P : Paths) (targets : String) where
  open O use {hare, is_file, copy_to_file_roots, apply_states}

  abbrev World : Type 0
  World = hare.World

  -- The world and the local variable `backup_file_name`, which may not be bound.
  abbrev pub Local : Type 0
  Local = World × Option String

  unfoldable pub on_world {ℓ} : {A : Type ℓ} → Exec World A → Exec Local A
  on_world m (w, b) = let (r, v) = m w in (r, (v, b))

  bind : String → Exec Local (Unit {0})
  bind name (w, b) = (ok tt, (w, some name))

  unfoldable pub apply_certs : Exec World (Unit {0})
  apply_certs = apply_states ("components.misc_pkgs.ssl_certs" ∷ []) targets

  -- The backup of the old certificates, and the new ones.
  unfoldable pub replace : Exec Local (Unit {0})
  unfolding on_world bind apply_certs
  replace = on_world (copy_to_file_roots P.ssl_certs_file P.backup) >>= λ name.
      bind name >> on_world apply_certs

  -- The body of the `try`.
  unfoldable pub set_certs : String → Exec Local (Unit {0})
  unfolding replace on_world wrapped
  set_certs source =
      on_world (wrapped cluster_maintenance_enable_error (cluster_maintenance_enable hare))
      >> on_world (copy_to_file_roots source P.dest)
      >> wrapped (λ e. ssl_certs_update_error e no_rollback_error) replace
      >> on_world
          (wrapped cluster_maintenance_disable_error (cluster_maintenance_disable hare false))
      >> pure tt

  -- The old certificates; the name is an error where it was not bound.
  unfoldable pub restore : Option String → Exec World (Unit {0})
  unfolding apply_certs
  restore none = raise (unbound_local_error "backup_file_name")
  restore (some name) = copy_to_file_roots name P.dest >> apply_certs

  unfoldable pub recover : Option String → Exec World (Unit {0})
  unfolding restore
  recover backup = restore backup >> cluster_maintenance_disable hare false >> pure tt

  abbrev pub error_of : Result (Unit {0}) → RollbackError
  error_of (ok u) = no_rollback_error
  error_of (err e) = rollback_error e

  finished : Exception → Result (Unit {0}) × World → Result (Unit {0}) × World
  finished e (r, w) = (err (ssl_certs_update_error e (error_of r)), w)

  unfoldable pub failed : Exception → FailureKind → Option String → Exec World (Unit {0})
  unfolding recover finished
  failed e enabling_failed backup w =
      (cluster_maintenance_disable hare true >> raise (ssl_certs_update_error e no_rollback_error))
        w
  failed e updating_failed backup w = finished e (recover backup w)
  failed e unexpected backup w = finished e (ok tt, w)

  handled : Result (Unit {0}) × Local → Result (Unit {0}) × World
  unfolding failed kind_of
  handled (ok u, (w, b)) = (ok u, w)
  handled (err e, (w, b)) = failed e (kind_of e) b w

  -- `run(source, restart, targets, dry_run)`
  unfoldable pub run_certs : String → Bool → Exec World (Unit {0})
  unfolding handled set_certs
  run_certs source dry_run w =
      if is_file source w
      then (if dry_run then (ok tt, w) else handled (set_certs source (w, none)))
      else (err (value_error "is not a file"), w)
