-- ===== src/Lock/Defs.antt =====
-- The lock files, the removal of old ones, and the lock around a call.
use package.text.Mathlib.Text.{starts_with}
use cortx_prvsnr.Prelude.{ℕ, String, ◌<>◌, Bool, true, false, ◌&&◌, Option, none, some}
use cortx_prvsnr.Prelude.{List, [], ◌∷◌, ◌==◌, if◌then◌else◌}
use cortx_prvsnr.Prelude.Text.{ends_with, drop}
use cortx_prvsnr.Prelude.Dict.{Dict, lookup, insert, delete}
use cortx_prvsnr.Errors.{key_error, type_error, lock_file_acquire_error}
use cortx_prvsnr.Exec.{Result, ok, err, Exec, pure, raise, ◌>>=◌, ◌>>◌}
use cortx_prvsnr.Fallible.{◌>>=◌ as ◌>=◌}
use cortx_prvsnr.Json.{Json, null, number, text, array, object, Fields, end, field, get, truthy}
use cortx_prvsnr.Json.{as_dict}

-- SaltStack and the operating system. Neither query changes anything: `ps.kill_pid` is sent with
-- signal 0, and its answer is a dict over minions.
pub record Env : Type 1 where
  pub World : Type 0
  pub list_minions : World → Result (List String)
  pub kill_pid : Json → Json → World → Result (Dict Bool)
  pub getpid : ℕ
  pub local_minion_id : World → Result String

-- What a file under the lock directory holds: no JSON, or a JSON value. That it cannot be read, or
-- is gone when it is read, is not modelled.
pub data Content : Type 0 where
  malformed : Content
  metadata : Json → Content

-- The world and the lock directory, if that is there.
pub record State (W : Type 0) : Type 0 where
  pub world : W
  pub dir : Option (Dict Content)

-- The glob pattern `provisioner.*.lock`.
unfoldable pub is_lock_name : String → Bool
unfolding drop ends_with
is_lock_name name = starts_with name "provisioner." && ends_with (drop 12 name) ".lock"

unfoldable pub lock_filename : String → String
lock_filename targets = "provisioner." <> targets <> ".lock"

abbrev pub files : Option (Dict Content) → Dict Content
files none = []
files (some d) = d

-- `_get_lock_files`
unfoldable pub get_lock_files : Dict Content → Dict Content
get_lock_files [] = []
get_lock_files ((name, c) ∷ d) =
    let rest = get_lock_files d in if is_lock_name name then (name, c) ∷ rest else rest

unfoldable pub contains : String → List String → Bool
contains x [] = false
contains x (y ∷ ys) = if y == x then true else contains x ys

-- `check_salt_minions_are_ready([target])`: `set([target])` wants a hashable value.
is_ready : List String → Json → Result Bool
unfolding contains
is_ready ready (text t) = ok (contains t ready)
is_ready ready (array vs) = err (type_error "unhashable type: 'list'")
is_ready ready (object fs) = err (type_error "unhashable type: 'dict'")
is_ready ready _ = ok false

-- `bool(res[target])`
answer_of : Json → Dict Bool → Result Bool
unfolding lookup
answer_of (text t) res = elim (lookup t res) [ none ↦ err (key_error t) | some b ↦ ok b ]
answer_of _ res = err (key_error "target")

module _ (E : Env) where
  open E use {World, list_minions, kill_pid, getpid, local_minion_id}

  unfoldable pub check_salt_minions_are_ready : Json → World → Result Bool
  unfolding is_ready
  check_salt_minions_are_ready target w = list_minions w >= λ ready. is_ready ready target

  unfoldable pub check_pid : Json → Json → World → Result Bool
  unfolding answer_of
  check_pid pid target w = kill_pid pid target w >= answer_of target

  -- The chain of `and` tests on the metadata, after the truth of `target` and `pid`.
  probe : Json → Json → World → Result Bool
  unfolding check_salt_minions_are_ready check_pid
  probe target pid w = check_salt_minions_are_ready target w >= λ ready.
      if ready then check_pid pid target w else ok false

  is_running : Fields → World → Result Bool
  unfolding get truthy probe
  is_running fs w =
      let target = get "source_target" null fs in
      let pid = get "pid" null fs in
      if truthy target && truthy pid then probe target pid w else ok false

  -- Whether the file is the lock of a running process. Empty metadata are those of no process.
  unfoldable pub is_held : Content → World → Result Bool
  unfolding is_running as_dict truthy
  is_held malformed w = ok false
  is_held (metadata v) w = if truthy v then (as_dict v >= λ fs. is_running fs w) else ok false

  abbrev pub Store : Type 0
  Store = State World

  unlink : String → Store → Store
  unfolding delete
  unlink name s = elim s.dir [ none ↦ s | some d ↦ record s { dir = some (delete name d) } ]

  -- The loop over the lock files. It keeps the last file that is held, and the exception waits
  -- until all other files are removed.
  unfoldable pub sweep : Dict Content → Option String → Exec Store (Option String)
  unfolding unlink
  sweep [] ctx s = (ok ctx, s)
  sweep ((name, c) ∷ rest) ctx s = elim (is_held c s.world) [
    | ok held ↦ sweep rest (if held then some name else ctx) (if held then s else unlink name s)
    | err e ↦ (err e, s)
  ]

  refuse : Option String → Exec Store (Unit {0})
  refuse none = pure tt
  refuse (some name) = raise (lock_file_acquire_error name)

  unfoldable pub handle_old_lock_files : Exec Store (Unit {0})
  unfolding sweep refuse get_lock_files
  handle_old_lock_files s = (sweep (get_lock_files (files s.dir)) none >>= refuse) s

  make_dir : Store → Store
  make_dir s = elim s.dir [ none ↦ record s { dir = some [] } | some d ↦ s ]

  abbrev pub own_metadata : String → Content
  own_metadata minion =
      metadata (object (field "pid" (number getpid) (field "source_target" (text minion) end)))

  -- The directory is there: `acquire` has made it.
  write : String → Content → Store → Store
  unfolding insert
  write name c s = record s { dir = some (insert name c (files s.dir)) }

  unfoldable pub create : String → Exec Store String
  unfolding write
  create targets s = elim (local_minion_id s.world) [
    | ok minion ↦
        (ok (lock_filename targets), write (lock_filename targets) (own_metadata minion) s)
    | err e ↦ (err e, s)
  ]

  -- Returns the attribute `_lockfile` of the lock, the name of its file.
  unfoldable pub acquire : String → Exec Store String
  unfolding make_dir
  acquire targets s = (handle_old_lock_files >> create targets) (make_dir s)

  -- For a lock with this `_lockfile`. A file that does not exist is not removed, and `unlink` then
  -- changes nothing.
  unfoldable pub release : Option String → Store → Store
  unfolding unlink
  release none s = s
  release (some name) s = unlink name s

  -- `__exit__` runs however the body ends.
  exit {ℓ} : {A : Type ℓ} → String → Result A × Store → Result A × Store
  unfolding release
  exit lockfile (r, s) = (r, release (some lockfile) s)

  unfoldable pub api_lock {ℓ} : {A : Type ℓ} → Exec Store A → Exec Store A
  unfolding acquire exit
  api_lock fun = acquire "all" >>= λ lockfile s. exit lockfile (fun s)
