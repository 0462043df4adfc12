-- ===== src/Tests/Lock.antt =====
-- Two processes, 7 and 8, on one minion, a lock of a process that runs and one of a process that
-- is gone.
use cortx_prvsnr.Prelude.{ℕ, String, ◌≡◌, ◌≢◌, refl, Bool, true, false, none, some, [], ◌∷◌, arith}
use cortx_prvsnr.Prelude.{if◌then◌else◌, ◌==◌, eqb}
use cortx_prvsnr.Prelude.Dict.{Dict, lookup}
use cortx_prvsnr.Exec.{ok, Exec, Result}
use cortx_prvsnr.Json.{Json, number, text, object, field, end}
use cortx_prvsnr.Lock.Defs.{Env, Content, malformed, metadata, is_lock_name, files, is_held}
use cortx_prvsnr.Lock.Defs.{own_metadata, lock_filename, acquire, get_lock_files}
use cortx_prvsnr.Lock.Defs.{handle_old_lock_files, Store, create}
use cortx_prvsnr.Lock.Stale.{held}
use cortx_prvsnr.Lock.Acquire.{acquire-free}
use cortx_prvsnr.Lock.Race.{idle, locked, Steps, both_locked}
use cortx_prvsnr.Lock.Exclusion.{process, acquire-excludes}

abbrev runs : Json → Bool
runs (number n) = eqb n 7
runs _ = false

abbrev one_minion : Env
one_minion = record {
  World = Unit;
  list_minions = λ w. ok ("srvnode-1" ∷ []);
  kill_pid = λ pid target w. ok (("srvnode-1", runs pid) ∷ []);
  getpid = 7;
  local_minion_id = λ w. ok "srvnode-1";
}

abbrev lock_of : ℕ → Content
lock_of pid =
    metadata (object (field "pid" (number pid) (field "source_target" (text "srvnode-1") end)))

abbrev free_dir : Dict Content
free_dir = ("provisioner.all.lock", lock_of 9) ∷ ("notes", malformed) ∷ []

abbrev taken_dir : Dict Content
taken_dir = ("provisioner.srvnode-2.lock", lock_of 7) ∷ ("provisioner.all.lock", lock_of 9) ∷ []

abbrev free_state : Store one_minion
free_state = record { world = tt; dir = some free_dir }

abbrev taken_state : Store one_minion
taken_state = record { world = tt; dir = some taken_dir }

-- Later the lock file of the process 7 is there with another one, and the notes are gone.
abbrev later_state : Store one_minion
later_state = record {
  world = tt;
  dir = some (("provisioner.srvnode-3.lock", lock_of 9) ∷ ("provisioner.all.lock", lock_of 7) ∷ []);
}

abbrev granted_state : Store one_minion
granted_state = (acquire one_minion "all" free_state).1

granted : acquire one_minion "all" free_state ≡ (ok "provisioner.all.lock", granted_state)
unfolding acquire lock_filename handle_old_lock_files is_lock_name is_held create
granted = refl

acquire-excludes_example :
    acquire (process one_minion 8 (λ w. ok "srvnode-1")) "all" later_state
    ≢ (ok "provisioner.all.lock", granted_state)
unfolding is_held is_lock_name lock_filename lookup acquire handle_old_lock_files create
acquire-excludes_example =
    acquire-excludes one_minion "all" "srvnode-1" "provisioner.all.lock" free_state granted_state
      refl refl granted later_state refl refl 8 (λ w. ok "srvnode-1") "all" "provisioner.all.lock"
      granted_state

free_is_free :
    (name : String) (c : Content)
    → lookup name free_dir ≡ some c
    → is_lock_name name ≡ true
    → held one_minion tt c ≡ false
unfolding lookup held is_held
free_is_free name c at lock = ground (arith, at)

acquire-free_example :
    ((acquire one_minion "all" free_state).0 ≡ ok (lock_filename "all"))
    × ((acquire one_minion "all" free_state).1.world ≡ tt)
    × ((k : String)
        → lookup k (files (acquire one_minion "all" free_state).1.dir) ≡ (
            if lock_filename "all" == k
            then some (own_metadata one_minion "srvnode-1")
            else if is_lock_name k
            then none
            else lookup k free_dir))
unfolding lookup held is_held get_lock_files is_lock_name
acquire-free_example =
    acquire-free one_minion "all" "srvnode-1" free_state (refl, (refl, tt)) (refl, tt) free_is_free
      refl

-- A call that leaves a file behind.
abbrev work : Exec (Store one_minion) ℕ
work s = (ok 1, record s { dir = some (("left", malformed) ∷ files s.dir) })

-- Both processes find that the lock file is of a process that is gone.
abbrev swept : Store one_minion
swept = record { world = tt; dir = some (("notes", malformed) ∷ []) }

abbrev other : Unit {0} → Result String
other w = ok "srvnode-1"

first_check : handle_old_lock_files one_minion free_state ≡ (ok tt, swept)
unfolding handle_old_lock_files is_lock_name is_held
first_check = refl

second_check : handle_old_lock_files (process one_minion 8 other) swept ≡ (ok tt, swept)
unfolding handle_old_lock_files is_lock_name is_held
second_check = refl

both_locked_example :
    (v w : Store one_minion) × Steps one_minion 8 other "all"
      (free_state, idle, idle)
      (v, locked, locked)
    × (lookup (lock_filename "all") (files v.dir)
        ≡ some (own_metadata (process one_minion 8 other) "srvnode-1"))
    × Steps one_minion 8 other "all" (v, locked, locked) (w, locked, idle)
    × (lookup (lock_filename "all") (files w.dir) ≡ none)
both_locked_example =
    both_locked one_minion 8 other "all" free_state swept swept "srvnode-1" "srvnode-1" first_check
      second_check refl refl
