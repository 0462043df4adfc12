-- ===== src/Lock/Exclusion.antt =====
-- Two calls of `Lock.acquire` (lock.py) by different processes.
use cortx_prvsnr.Prelude.{ℕ, String, ◌≡◌, ◌≢◌, ◌∙◌, true}
use cortx_prvsnr.Prelude.{arith}
use cortx_prvsnr.Prelude.Dict.{lookup}
use cortx_prvsnr.Exec.{Result, ok}
use cortx_prvsnr.Lock.Defs.{Env, Content, Store, is_lock_name, files}
use cortx_prvsnr.Lock.Defs.{is_held, own_metadata, lock_filename, acquire}
use cortx_prvsnr.Lock.Stale.{held}
use cortx_prvsnr.Lock.Acquire.{acquire-ok}

-- Another process on the same system: its own pid and minion.
abbrev pub process : (E : Env) → ℕ → (E.World → Result String) → Env
process E pid minion = record E { getpid = pid; local_minion_id = minion }

held-process :
    (E : Env) (pid : ℕ) (minion : E.World → Result String) (c : Content) (w : E.World)
    → is_held E c w ≡ ok true
    → held (process E pid minion) w c ≡ true
unfolding held is_held
held-process E pid minion c w h = ground arith

-- Mutual exclusion: as long as the lock file of a granted `acquire` is still what that call left,
-- and its check says that the process runs, no `acquire` of another process is granted, from
-- whatever later store and world and for whatever targets. Each `acquire` is one step here; two
-- that interleave can both be granted.
pub acquire-excludes :
    (E : Env) (targets minion name : String) (s t : Store E)
    → E.local_minion_id s.world ≡ ok minion
    → is_lock_name (lock_filename targets) ≡ true
    → acquire E targets s ≡ (ok name, t)
    → (later : Store E) → lookup name (files later.dir) ≡ lookup name (files t.dir)
    → is_held E (own_metadata E minion) later.world ≡ ok true
    → (pid : ℕ) (minion' : E.World → Result String) (targets' name' : String) (v : Store E)
    → acquire (process E pid minion') targets' later ≢ (ok name', v)
acquire-excludes E targets minion name s t known lock granted later kept alive pid minion' targets'
      name' v again =
    let (m, known_m, e, same, found, free) = acquire-ok E targets name s t granted in
    let (n, known_n, e_n, same_n, found_n, free_n) =
      acquire-ok (process E pid minion') targets' name' later v again in
    let owner : m ≡ minion = cc in
    free_n (
      name,
      own_metadata E m,
      kept ∙ found,
      rw e lock,
      rw owner (held-process E pid minion' _ later.world alive),
    )
