-- ===== src/Lock/Acquire.antt =====
-- `Lock.acquire` (lock.py).
use cortx_prvsnr.Prelude.{String, ◌≡◌, refl, ◌∙◌, true, false}
use cortx_prvsnr.Prelude.{Option, none, some, ◌==◌, eq_refl, arith, if◌then◌else◌}
use cortx_prvsnr.Prelude.Dict.{Dict, lookup, lookup-insert}
use cortx_prvsnr.Errors.{lock_file_acquire_error}
use cortx_prvsnr.Exec.{Result, ok, err, >>=-eq-ok}
use cortx_prvsnr.Lock.Defs.{Env, Content, Store, is_lock_name, files, get_lock_files}
use cortx_prvsnr.Lock.Defs.{own_metadata, lock_filename, acquire}
use cortx_prvsnr.Lock.Defs.{handle_old_lock_files, create}
use cortx_prvsnr.Lock.Stale.{HasUniqueNames, held, AllChecked, is_stale, IsTaken, IsFree, listing}
use cortx_prvsnr.Lock.Stale.{handle_old_lock_files-lookup, handle_old_lock_files-taken}
use cortx_prvsnr.Lock.Stale.{handle_old_lock_files-free, handle_old_lock_files-ok}

module _ (E : Env) where
  open E use {World, local_minion_id}

  acquire-listing :
      (targets : String) (s : Store E)
      → acquire E targets s ≡ acquire E targets (listing E s.world (files s.dir))
  unfolding acquire
  acquire-listing targets s = go s.dir
    where
      go :
          (d : Option (Dict Content))
          → acquire E targets (record { world = s.world; dir = d })
            ≡ acquire E targets (listing E s.world (files d))
      go none = refl
      go (some d) = refl

  free-listing :
      (targets minion : String) (w : World) (d : Dict Content)
      → HasUniqueNames d
      → AllChecked E w (get_lock_files d)
      → IsFree E w d
      → local_minion_id w ≡ ok minion
      → (k : String)
      → ((acquire E targets (listing E w d)).0 ≡ ok (lock_filename targets))
        × ((acquire E targets (listing E w d)).1.world ≡ w)
        × (lookup k (files (acquire E targets (listing E w d)).1.dir) ≡ (
            if lock_filename targets == k
            then some (own_metadata E minion)
            else if is_stale E w k (lookup k d)
            then none
            else lookup k d))
  unfolding acquire create
  free-listing targets minion w d u checked free known k = ground (
    arith,
    handle_old_lock_files-free E w d u checked free,
    handle_old_lock_files-lookup E w d k u checked,
    known,
    lookup-insert (lock_filename targets) k (own_metadata E minion)
        (files (handle_old_lock_files E (listing E w d)).1.dir),
  )

  stale-free :
      (w : World) (d : Dict Content) (k : String)
      → IsFree E w d
      → (if is_stale E w k (lookup k d) then none else lookup k d)
        ≡ (if is_lock_name k then none else lookup k d)
  stale-free w d k free = split (lookup k d) (free k)
    where
      split :
          (o : Option Content)
          → ((c : Content) → o ≡ some c → is_lock_name k ≡ true → held E w c ≡ false)
          → (if is_stale E w k o then none else o) ≡ (if is_lock_name k then none else o)
      split none f = ground arith
      split (some c) f = ground (arith, f c)

  -- When every check of a lock file ends and no lock file is held, the lock is granted: its own
  -- file then names this process, every other lock file is gone, and other files and the world are
  -- as before.
  pub acquire-free :
      (targets minion : String) (s : Store E)
      → HasUniqueNames (files s.dir)
      → AllChecked E s.world (get_lock_files (files s.dir))
      → IsFree E s.world (files s.dir)
      → local_minion_id s.world ≡ ok minion
      → ((acquire E targets s).0 ≡ ok (lock_filename targets))
        × ((acquire E targets s).1.world ≡ s.world)
        × ((k : String)
            → lookup k (files (acquire E targets s).1.dir) ≡ (
                if lock_filename targets == k
                then some (own_metadata E minion)
                else if is_lock_name k
                then none
                else lookup k (files s.dir)))
  acquire-free targets minion s u checked free known = rw acquire-listing (
    (free-listing targets minion s.world (files s.dir) u checked free known "").0,
    (free-listing targets minion s.world (files s.dir) u checked free known "").1,
    λ k.
        (free-listing targets minion s.world (files s.dir) u checked free known k).2
        ∙ rw (stale-free s.world (files s.dir) k free),
  )

  taken-listing :
      (targets : String) (w : World) (d : Dict Content) (k : String)
      → HasUniqueNames d
      → AllChecked E w (get_lock_files d)
      → IsTaken E w d
      → ((name : String) × ((acquire E targets (listing E w d)).0
            ≡ err (lock_file_acquire_error name)))
        × ((acquire E targets (listing E w d)).1.world ≡ w)
        × (lookup k (files (acquire E targets (listing E w d)).1.dir)
            ≡ (if is_stale E w k (lookup k d) then none else lookup k d))
  unfolding acquire
  taken-listing targets w d k u checked taken =
      let (name, refused) = handle_old_lock_files-taken E w d checked taken in
      (
        (name, ground arith),
        ground (arith, handle_old_lock_files-lookup E w d k u checked),
        ground (arith, handle_old_lock_files-lookup E w d k u checked),
      )

  -- When a lock file is held, the lock is refused with the name of a lock file. The files that are
  -- held, and those that are no lock files, stay; the stale lock files are gone.
  pub acquire-taken :
      (targets : String) (s : Store E)
      → HasUniqueNames (files s.dir)
      → AllChecked E s.world (get_lock_files (files s.dir))
      → IsTaken E s.world (files s.dir)
      → ((name : String) × ((acquire E targets s).0 ≡ err (lock_file_acquire_error name)))
        × ((acquire E targets s).1.world ≡ s.world)
        × ((k : String)
            → lookup k (files (acquire E targets s).1.dir) ≡ (
                if is_stale E s.world k (lookup k (files s.dir))
                then none
                else lookup k (files s.dir)))
  acquire-taken targets s u checked taken = rw acquire-listing (
    (taken-listing targets s.world (files s.dir) "" u checked taken).0,
    (taken-listing targets s.world (files s.dir) "" u checked taken).1,
    λ k. (taken-listing targets s.world (files s.dir) k u checked taken).2,
  )

  created :
      (targets name : String) (s t : Store E)
      → create E targets s ≡ (ok name, t)
      → (minion : String) × (local_minion_id s.world ≡ ok minion)
        × (name ≡ lock_filename targets)
        × (t.world ≡ s.world)
        × (lookup name (files t.dir) ≡ some (own_metadata E minion))
  unfolding create
  created targets name s t h = split (local_minion_id s.world) refl
    where
      split :
          (r : Result String)
          → local_minion_id s.world ≡ r
          → (minion : String) × (local_minion_id s.world ≡ ok minion)
            × (name ≡ lock_filename targets)
            × (t.world ≡ s.world)
            × (lookup name (files t.dir) ≡ some (own_metadata E minion))
      split (ok minion) e = (
        minion,
        e,
        ground arith,
        ground arith,
        ground (
          arith,
          lookup-insert (lock_filename targets) (lock_filename targets) (own_metadata E minion)
              (files s.dir),
          eq_refl (lock_filename targets),
        ),
      )
      split (err e) failed = ground arith

  ok-listing :
      (targets name : String) (w : World) (d : Dict Content) (t : Store E)
      → acquire E targets (listing E w d) ≡ (ok name, t)
      → (minion : String) × (local_minion_id w ≡ ok minion)
        × (name ≡ lock_filename targets)
        × (t.world ≡ w)
        × (lookup name (files t.dir) ≡ some (own_metadata E minion))
        × ¬ (IsTaken E w d)
  unfolding acquire
  ok-listing targets name w d t h =
      let (x, u, handled, made) = >>=-eq-ok (handle_old_lock_files E) _ (listing E w d) h in
      let (checked, same, free) = handle_old_lock_files-ok E w d u handled in
      let (minion, known, e, kept, found) = created targets name u t made in
      (minion, rw same at known, e, kept ∙ same, found, free)

  pub acquire-ok :
      (targets name : String) (s t : Store E)
      → acquire E targets s ≡ (ok name, t)
      → (minion : String) × (local_minion_id s.world ≡ ok minion)
        × (name ≡ lock_filename targets)
        × (t.world ≡ s.world)
        × (lookup name (files t.dir) ≡ some (own_metadata E minion))
        × ¬ (IsTaken E s.world (files s.dir))
  acquire-ok targets name s t h =
      ok-listing targets name s.world (files s.dir) t (rw acquire-listing at h)
