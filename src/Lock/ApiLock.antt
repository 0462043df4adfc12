-- ===== src/Lock/ApiLock.antt =====
-- `api_lock` (lock.py): the lock around a call.
use cortx_prvsnr.Prelude.{String, ◌≡◌}
use cortx_prvsnr.Prelude.{Option, none, some, ◌==◌, arith, if◌then◌else◌}
use cortx_prvsnr.Prelude.Dict.{Dict, lookup, lookup-delete}
use cortx_prvsnr.Errors.{lock_file_acquire_error}
use cortx_prvsnr.Exec.{ok, err, Exec}
use cortx_prvsnr.Lock.Defs.{Env, Content, Store, files, get_lock_files}
use cortx_prvsnr.Lock.Defs.{lock_filename, acquire, release, api_lock}
use cortx_prvsnr.Lock.Stale.{HasUniqueNames, AllChecked, IsTaken}
use cortx_prvsnr.Lock.Acquire.{acquire-ok, acquire-taken}

lookup-unlink :
    (E : Env) (name k : String) (s : Store E)
    → lookup k (files (release E (some name) s).dir)
      ≡ (if name == k then none else lookup k (files s.dir))
unfolding release
lookup-unlink E name k s = split s.dir
  where
    split :
        (d : Option (Dict Content))
        → lookup k (files (release E (some name) (record { world = s.world; dir = d })).dir)
          ≡ (if name == k then none else lookup k (files d))
    split none = unfold lookup in ground arith
    split (some d) = lookup-delete name k d

-- The locked call runs on the state with the lock, its result or exception is the result, and the
-- lock file is gone when it ends, whatever it did.
api_lock-free {ℓ} :
    (E : Env) {A : Type ℓ} (fun : Exec (Store E) A) (name : String) (s t : Store E)
    → acquire E "all" s ≡ (ok name, t)
    → ((api_lock E fun s).0 ≡ (fun t).0)
      × ((api_lock E fun s).1.world ≡ (fun t).1.world)
      × ((k : String)
          → lookup k (files (api_lock E fun s).1.dir)
            ≡ (if "provisioner.all.lock" == k then none else lookup k (files (fun t).1.dir)))
unfolding api_lock lock_filename
api_lock-free E fun name s t granted =
    let (m, known, e, same, found, free) = acquire-ok E "all" name s t granted in
    (
      ground (arith, granted),
      ground (arith, granted),
      λ k. ground (arith, granted, e, lookup-unlink E "provisioner.all.lock" k (fun t).1),
    )

-- A call that is refused the lock does not run: the result does not depend on it.
api_lock-taken {ℓ} :
    (E : Env) {A : Type ℓ} (fun other : Exec (Store E) A) (s : Store E)
    → HasUniqueNames (files s.dir)
    → AllChecked E s.world (get_lock_files (files s.dir))
    → IsTaken E s.world (files s.dir)
    → (api_lock E fun s ≡ api_lock E other s)
      × ((name : String) × ((api_lock E fun s).0 ≡ err (lock_file_acquire_error name)))
      × ((api_lock E fun s).1.world ≡ s.world)
unfolding api_lock
api_lock-taken E fun other s u checked taken =
    let ((name, refused), kept, at) = acquire-taken E "all" s u checked taken in
    (ground arith, (name, ground arith), ground arith)
