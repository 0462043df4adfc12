-- ===== src/Pillar/Updater/Apply.antt =====
-- `PillarUpdater.apply` with `rollback_on_error` (pillar.py).
use cortx_prvsnr.Prelude.{◌≡◌, refl, ap, ◌∙◌, sym, List, [], ◌∷◌, arith, true}
use cortx_prvsnr.Prelude.{Bool-cases, inl, inr}
use mathlib.Core.Path.{subst}
use cortx_prvsnr.Prelude.Dict.{Dict}
use cortx_prvsnr.Errors.{Exception}
use cortx_prvsnr.Exec.{Result, ok, err, continue}
use cortx_prvsnr.Pillar.Value.{Value}
use cortx_prvsnr.Pillar.Updater.{Env, Settings, Item, Updater, update}
use cortx_prvsnr.Pillar.Updater.{rollback, write_out, apply, dump, dump_files, refresh, on_world}
use cortx_prvsnr.Pillar.Updater.Rollback.{Good-update, Good-rollback}
use cortx_prvsnr.Pillar.Updater.Rollback.{AllLoaded, rollback-AllLoaded}
use cortx_prvsnr.Pillar.Updater.Undoable.{AllRestored}

module _ (E : Env) (o : Settings) where
  -- Nothing but the world is changed.
  abbrev pub Same : Updater E o → Updater E o → Type 0
  Same s t = (t.pillars ≡ s.pillars) × (t.p_entries ≡ s.p_entries)

  dump_files-Same : (d : Dict Value) (s : Updater E o) → Same s (dump_files E o d s).1
  unfolding dump_files
  dump_files-Same [] s = (refl, refl)
  dump_files-Same ((file, v) ∷ d) s =
      split (on_world E o (E.dump_yaml file v) s) (refl, refl) (λ t. dump_files-Same d t)
    where
      split :
          (r : Result (Unit {0}) × Updater E o)
          → Same s r.1
          → ((t : Updater E o) → Same t (dump_files E o d t).1)
          → Same s (continue (λ _. dump_files E o d) r).1
      split (ok x, t) (a, b) next = ((next t).0 ∙ a, (next t).1 ∙ b)
      split (err e, t) h next = h

  pub write_out-Same : (s : Updater E o) → Same s (write_out E o s).1
  unfolding write_out refresh dump
  write_out-Same s = split (dump E o s) (dump_files-Same s.pillars s)
    where
      refresh-Same : (t : Updater E o) → Same t (refresh E o t).1
      refresh-Same t = elim (Bool-cases o.local_only) [
        | inl here ↦ rw here (refl, refl)
        | inr wide ↦ rw wide (refl, refl)
      ]

      split :
          (r : Result (Unit {0}) × Updater E o)
          → Same s r.1
          → Same s (continue (λ _. refresh E o) r).1
      split (ok x, t) (a, b) = ((refresh-Same t).0 ∙ a, (refresh-Same t).1 ∙ b)
      split (err e, t) h = h

  -- From whatever has the pillars and entries of an update, the rollback restores and loses none.
  pub rollback-Same :
      (start : Updater E o) (items : List Item) (u : Updater E o)
      → start.p_entries ≡ []
      → Same (update E o items start).1 u
      → (t : Updater E o) × (rollback E o u ≡ (ok tt, t))
        × AllLoaded (update E o items start).1.pillars t.pillars
        × AllRestored E o start t.pillars
  rollback-Same start items u fresh (pillars, entries) =
      let (t, done, restored) =
        Good-rollback E o start (update E o items start).1 u (Good-update E o start items fresh)
          pillars entries in
      (
        t,
        done,
        subst (λ (d : Dict Value). AllLoaded d t.pillars) pillars (rollback-AllLoaded E o u t done),
        restored,
      )

  pub Same-failed :
      {r : Result (Unit {0})} (s u : Updater E o) → write_out E o s ≡ (r, u) → Same s u
  Same-failed s u h =
      let (a, b) = write_out-Same s in
      (
        ap (λ (q : Result (Unit {0}) × Updater E o). q.1.pillars) (sym h) ∙ a,
        ap (λ (q : Result (Unit {0}) × Updater E o). q.1.p_entries) (sym h) ∙ b,
      )

  -- The exception that `apply` ends with: the one of the second write, or else the first one.
  abbrev pub last_error : Exception → Result (Unit {0}) → Exception
  last_error e (ok x) = e
  last_error e (err f) = f

  -- When the pillars of an update cannot be written or refreshed, `apply(rollback_on_error=True)`
  -- raises, after it has rolled the update back and written again. The pillars that it writes then
  -- are those after the rollback: every file that was loaded is among them, and each has what the
  -- file had when the update started, up to empty dicts.
  pub apply-restores :
      (start : Updater E o) (items : List Item) (e : Exception) (u : Updater E o)
      → start.p_entries ≡ []
      → write_out E o (update E o items start).1 ≡ (err e, u)
      → (t : Updater E o) × (rollback E o u ≡ (ok tt, t))
        × AllLoaded (update E o items start).1.pillars t.pillars
        × AllRestored E o start t.pillars
        × (apply E o true (update E o items start).1
            ≡ (err (last_error e (write_out E o t).0), (write_out E o t).1))
  unfolding apply
  apply-restores start items e u fresh failed =
      let s = (update E o items start).1 in
      let (t, undone, loaded, restored) =
        rollback-Same start items u fresh (Same-failed s u failed) in
      (t, undone, loaded, restored, ground (arith, failed, undone))
