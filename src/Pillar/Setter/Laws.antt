-- ===== src/Pillar/Setter/Laws.antt =====
-- What `PillarSet` and `Set` leave behind when they fail.
use cortx_prvsnr.Prelude.{◌≡◌, List}
use cortx_prvsnr.Errors.{Exception, no_rollback_error, pillar_set_error}
use cortx_prvsnr.Exec.{ok, err}
use cortx_prvsnr.Pillar.Updater.{Env, Settings, Item, Updater, update, write_out}
use cortx_prvsnr.Pillar.Updater.{rollback}
use cortx_prvsnr.Pillar.Updater.Rollback.{AllLoaded}
use cortx_prvsnr.Pillar.Updater.Undoable.{AllRestored}
use cortx_prvsnr.Pillar.Setter.{fresh, error_of}

module _ (E : Env) (o : Settings) where
  open E use {World}

  -- How `PillarSet.run` fails: in memory only, or at the files, which it then writes again from
  -- pillars that have what the files had at the start, up to empty dicts.
  pub data Failure (items : List Item) (w : World) : World → Exception → Type 0 where
    not_written :
        (x : Exception)
        → (s : Updater E o) → update E o items (fresh E o w) ≡ (err x, s)
        → Failure items w w (pillar_set_error x no_rollback_error)
    written_back :
        (x : Exception) (u back : Updater E o)
        → write_out E o (update E o items (fresh E o w)).1 ≡ (err x, u)
        → rollback E o u ≡ (ok tt, back)
        → AllLoaded (update E o items (fresh E o w)).1.pillars back.pillars
        → AllRestored E o (fresh E o w) back.pillars
        → Failure items w
            (write_out E o back).1.world
            (pillar_set_error x (error_of E o (write_out E o back).0))

  module _ (items : List Item) (w t : World) (e : Exception) where
    abbrev s : Updater E o
    s = (update E o items (fresh E o w)).1
