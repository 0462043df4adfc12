-- ===== src/Lock/Race.antt =====
-- The steps of two processes that take the same lock (lock.py): `acquire` looks at the lock files
-- first and creates its own afterwards, and another process may do a step in between.
use cortx_prvsnr.Prelude.{ℕ, String, ◌≡◌, refl, ◌∙◌, some, none, eq_refl, if◌then◌else◌}
use cortx_prvsnr.Prelude.Dict.{lookup, insert, delete, lookup-insert, lookup-delete}
use cortx_prvsnr.Exec.{Result, ok}
use cortx_prvsnr.Lock.Defs.{Env, Store, files, lock_filename, own_metadata, handle_old_lock_files}
use cortx_prvsnr.Lock.Defs.{create, release}
use cortx_prvsnr.Lock.Exclusion.{process}

-- How far a process is: it has not asked for the lock, it has seen that no process holds it, or it
-- holds it.
pub data Phase : Type 0 where
  idle checked locked : Phase

-- The store with the phases of both processes.
abbrev pub System : Env → Type 0
System E = Store E × Phase × Phase

-- Another process on the system of the first, with its own pid and minion.
module _ (E : Env) (pid : ℕ) (minion : E.World → Result String) (targets : String) where
  -- A step of either process; `release` follows the locked call, whatever the other has done.
  pub data Step : System E → System E → Type 0 where
    check_first :
        {s t : Store E} {q : Phase}
        → handle_old_lock_files E s ≡ (ok tt, t)
        → Step (s, idle, q) (t, checked, q)
    check_second :
        {s t : Store E} {p : Phase}
        → handle_old_lock_files (process E pid minion) s ≡ (ok tt, t)
        → Step (s, p, idle) (t, p, checked)
    create_first :
        {s t : Store E} {q : Phase} {name : String}
        → create E targets s ≡ (ok name, t)
        → Step (s, checked, q) (t, locked, q)
    create_second :
        {s t : Store E} {p : Phase} {name : String}
        → create (process E pid minion) targets s ≡ (ok name, t)
        → Step (s, p, checked) (t, p, locked)
    release_first :
        {s : Store E} {q : Phase}
        → Step (s, locked, q) (release E (some (lock_filename targets)) s, idle, q)
    release_second :
        {s : Store E} {p : Phase}
        → Step
            (s, p, locked)
            (release (process E pid minion) (some (lock_filename targets)) s, p, idle)

  infixr 5 ◌then◌
  pub data Steps : System E → System E → Type 0 where
    done : {x : System E} → Steps x x
    ◌then◌ : {x y z : System E} → Step x y → Steps y z → Steps x z

  -- Where both processes have looked at the lock files before either has created its own, both can
  -- come to hold the lock. There is one file for both, of the process that was the last, and where
  -- that one releases it, the other goes on without a lock file.
  pub both_locked :
      (s t u : Store E) (m n : String)
      → handle_old_lock_files E s ≡ (ok tt, t)
      → handle_old_lock_files (process E pid minion) t ≡ (ok tt, u)
      → E.local_minion_id u.world ≡ ok m
      → minion u.world ≡ ok n
      → (v w : Store E) × Steps (s, idle, idle) (v, locked, locked)
        × (lookup (lock_filename targets) (files v.dir)
            ≡ some (own_metadata (process E pid minion) n))
        × Steps (v, locked, locked) (w, locked, idle)
        × (lookup (lock_filename targets) (files w.dir) ≡ none)
  unfolding create release
  both_locked s t u m n first second known_m known_n =
      let name = lock_filename targets in
      let once = record u { dir = some (insert name (own_metadata E m) (files u.dir)) } in
      let twice = record u {
        dir = some (insert name (own_metadata (process E pid minion) n) (files once.dir));
      } in
      (
        twice,
        record u { dir = some (delete name (files twice.dir)) },
        check_first first
            then check_second second
            then create_first {t = once} {name = name} (rw (known_m, create) refl)
            then create_second {t = twice} {name = name} (rw (known_n, create) refl)
            then done,
        lookup-insert name name (own_metadata (process E pid minion) n) (files once.dir)
            ∙ rw (eq_refl name) refl,
        release_second then done,
        lookup-delete name name (files twice.dir) ∙ rw (eq_refl name) refl,
      )
