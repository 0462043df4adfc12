-- ===== src/Pillar/Setter/States.antt =====
-- What `Set` leaves behind when it fails: the states that it applies around the update.
use cortx_prvsnr.Prelude.{String, ◌≡◌, List, ◌⊎◌}
use cortx_prvsnr.Errors.{Exception}
use cortx_prvsnr.Exec.{ok, err, Exec, ◌>>◌}
use cortx_prvsnr.Pillar.Updater.{Env, Settings, Item, Updater, update, rollback, write_out}
use cortx_prvsnr.Pillar.Updater.Rollback.{AllLoaded}
use cortx_prvsnr.Pillar.Updater.Undoable.{AllRestored}
use cortx_prvsnr.Pillar.Setter.{fresh, on_states}

module _ (E : Env) (o : Settings) (apply_states : List String → Exec E.World (Unit {0}))
    (pre_states post_states : List String) where
  open E use {World}

  abbrev post : Exec (Updater E o) (Unit {0})
  post = on_states E o apply_states pre_states post_states post_states

  abbrev pre : Exec (Updater E o) (Unit {0})
  pre = on_states E o apply_states pre_states post_states pre_states

  -- The files or the later states failed from `before`, the update was rolled back to `back`, this
  -- was written, and the later states were applied.
  pub record WrittenBack (items : List Item) (w : World) (t : Updater E o) : Type 0 where
    pub before : Updater E o
    pub broken : Updater E o
    pub back : Updater E o
    pub cause : Exception
    pub begin_step : (update E o items >> pre) (fresh E o w) ≡ (ok tt, before)
    pub failed_step : (write_out E o >> post) before ≡ (err cause, broken)
    pub undo_step : rollback E o broken ≡ (ok tt, back)
    pub loaded : AllLoaded (update E o items (fresh E o w)).1.pillars back.pillars
    pub restored : AllRestored E o (fresh E o w) back.pillars
    pub post_step : (post (write_out E o back).1).1 ≡ t

  -- Where `Set` fails: before anything is written; at the states before the update, with the later
  -- ones applied then; or at the files or the later states, with the files written back.
  pub Broken : List Item → World → Updater E o → Exception → Type 0
  Broken items w t e =
      ((update E o items (fresh E o w) ≡ (err e, t)) × (t.world ≡ w))
      ⊎ ((x : Exception) × (u : Updater E o) × ((update E o items >> pre) (fresh E o w)
            ≡ (err x, u))
          × ((post u).1 ≡ t))
      ⊎ WrittenBack items w t

  module _ (items : List Item) (w : World) (t : Updater E o) (e : Exception) where
    abbrev s : Updater E o
    s = (update E o items (fresh E o w)).1

    -- The update is rolled back and written from a failure after `u`.
    abbrev Back : Updater E o → Updater E o → Type 0
    Back u z =
        (x : Exception) × (v : Updater E o) × (back : Updater E o) × ((write_out E o >> post) u
          ≡ (err x, v))
        × (rollback E o v ≡ (ok tt, back))
        × AllLoaded s.pillars back.pillars
        × AllRestored E o (fresh E o w) back.pillars
        × (z ≡ (write_out E o back).1)
