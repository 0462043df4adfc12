-- ===== src/Pillar/Setter.antt =====
-- `PillarSet` and `Set` of commands/__init__.py: pillar updates with a rollback, and with states
-- that are applied before and after.
pub mod Laws
pub mod States
use cortx_prvsnr.Prelude.{String, Bool, true, false, List, [], ◌∷◌, if◌then◌else◌}
use cortx_prvsnr.Errors.{Exception, RollbackError, no_rollback_error, rollback_error}
use cortx_prvsnr.Errors.{pillar_set_error}
use cortx_prvsnr.Exec.{Result, ok, err, Exec, pure, raise, handle, ◌>>◌, ◌>>=◌}
use cortx_prvsnr.Pillar.Updater.{Env, Settings, Item, Updater, update, apply, rollback}

module _ (E : Env) (o : Settings) where
  open E use {World}

  -- `PillarUpdater(targets, local=local)`
  abbrev pub fresh : World → Updater E o
  fresh w = record { world = w; pillars = []; p_entries = [] }

  -- `rollback_exc`
  abbrev pub error_of : Result (Unit {0}) → RollbackError
  error_of (ok u) = no_rollback_error
  error_of (err e) = rollback_error e

  -- What `PillarSet.run` ends with: `PillarSetError` for every exception.
  unfoldable pub reported : Exception → Result (Unit {0}) × Updater E o → Result (Unit {0}) × World
  reported e (r, s) = (err (pillar_set_error e (error_of r)), s.world)

  applied : Result (Unit {0}) × Updater E o → Result (Unit {0}) × World
  unfolding reported
  applied (ok u, s) = (ok u, s.world)
  applied (err e, s) = reported e ((rollback E o >> apply E o false) s)

  updated : Result (Unit {0}) × Updater E o → Result (Unit {0}) × World
  unfolding applied reported
  updated (ok u, s) = applied (apply E o false s)
  updated (err e, s) = reported e (ok tt, s)

  -- `PillarSet.run(input_data, targets, dry_run, local)`
  unfoldable pub pillar_set : Bool → List Item → Exec World (Unit {0})
  unfolding updated
  pillar_set true items w = (ok tt, w)
  pillar_set false items w = updated (update E o items (fresh w))

  module _ (apply_states : List String → Exec World (Unit {0}))
      (pre_states post_states : List String) where
    -- `StatesApplier.apply(states)`
    unfoldable pub on_states : List String → Exec (Updater E o) (Unit {0})
    on_states [] s = (ok tt, s)
    on_states (st ∷ sts) s =
        let (r, w) = apply_states (st ∷ sts) s.world in (r, record s { world = w })

    -- The inner `try`.
    unfoldable pub changed : Exec (Updater E o) (Unit {0})
    unfolding on_states
    changed s =
        handle (λ e. rollback E o >> apply E o false >> raise e)
          ((apply E o false >> on_states post_states) s)

    -- `Set._apply`, after the update of the pillars in memory.
    unfoldable pub apply_around : Exec (Updater E o) (Unit {0})
    unfolding on_states changed
    apply_around s =
        handle (λ e. on_states post_states >> raise e) ((on_states pre_states >> changed) s)

    unfoldable pub set_apply : List Item → Exec (Updater E o) (Unit {0})
    unfolding apply_around
    set_apply items = update E o items >> apply_around

    -- `Set.run`, for the validation that a subclass may add.
    unfoldable pub run_set : Bool → Exec World (Unit {0}) → List Item → Exec World (Unit {0})
    unfolding set_apply
    run_set dry_run dynamic_validation items =
        dynamic_validation
        >> (if dry_run then pure tt else λ w.
            (let (r, s) = set_apply items (fresh w) in (r, s.world)))
