-- ===== src/Pillar/Updater.antt =====
-- `PillarUpdater`: pillar files loaded on demand, updated, rolled back and written.
pub mod Undoable
pub mod Rollback
pub mod Apply
use package.text.Mathlib.Text.{starts_with}
use cortx_prvsnr.Prelude.{String, ◌<>◌, Bool, true, false, Option, none, some, List, [], ◌∷◌, ◌==◌}
use Prim.Native.Char.{code}
use cortx_prvsnr.Prelude.{if◌then◌else◌, ◌++◌, eqb, ◌||◌}
use cortx_prvsnr.Utils.Version.{has}
use mathlib.Core.List.{reverse}
use cortx_prvsnr.Prelude.Dict.{Dict, lookup, insert}
use cortx_prvsnr.Errors.{Exception, runtime_error, value_error, not_implemented_error}
use cortx_prvsnr.Exec.{Result, ok, err, Exec, pure, raise, handle, ◌>>=◌, ◌>>◌}
use cortx_prvsnr.Pillar.Value.{Value, null, dict, end, Input, unchanged, default, undefined, missed}
use cortx_prvsnr.Pillar.Value.{plain}
use cortx_prvsnr.Pillar.Entry.{KeyPath, Old, not_set, entry_set, entry_rollback}

-- `PillarPath` of paths.py.
pub record PillarPath : Type 0 where
  pub root : String
  pub prefix : String

unfoldable pub all_hosts_dir : PillarPath → String
all_hosts_dir p = p.root <> "/groups/all"

unfoldable pub host_dir : PillarPath → String → String
host_dir p minion_id = p.root <> "/minions/" <> minion_id

-- `path.name`, what is after the last slash.
name_of : String → String
unfolding has
name_of String.[] = ""
name_of (String.◌∷◌ c s) =
    let name = name_of s in
    if has b'/' s then name else if eqb b'/' (code c) then s else String.◌∷◌ c s

-- `path.with_name(name)`
with_name : String → String → String
unfolding has
with_name name String.[] = name
with_name name (String.◌∷◌ c s) =
    let rest = with_name name s in
    if has b'/' s || eqb b'/' (code c) then String.◌∷◌ c rest else name

-- The path with the prefix of the merged pillar before its last component.
unfoldable pub add_merge_prefix : String → String → String
unfolding name_of with_name
add_merge_prefix prefix path =
    let name = name_of path in
    if starts_with name prefix then path else with_name (prefix <> name) path

-- The file of a pillar for the targets of an update.
unfoldable pub pillar_file : PillarPath → String → String → String
unfolding all_hosts_dir host_dir add_merge_prefix
pillar_file p targets fpath =
    add_merge_prefix p.prefix
      ((if targets == "*" then all_hosts_dir p else host_dir p targets) <> "/" <> fpath)

-- Reading and writing YAML files, and the refresh of the minions' pillars. A file that does not
-- exist has no content.
pub record Env : Type 1 where
  pub World : Type 0
  pub load_yaml : String → World → Result (Option Value)
  pub dump_yaml : String → Value → Exec World (Unit {0})
  pub pillar_refresh : String → Exec World (Unit {0})

-- A `PillarEntry` in the list `_p_entries`, with the file that its pillar belongs to.
pub record PillarEntry : Type 0 where
  pub file : String
  pub keypath : KeyPath
  pub old : Old

-- An item of a group: key path, file and value.
pub record Item : Type 0 where
  pub keypath : KeyPath
  pub fpath : String
  pub value : Input

pub record State (W : Type 0) : Type 0 where
  pub world : W
  pub pillars : Dict Value
  pub p_entries : List PillarEntry

pub record Settings : Type 0 where
  pub targets : String
  pub local_only : Bool
  pub path : PillarPath

unfoldable pub or_empty : Option Value → Value
or_empty none = dict end
or_empty (some v) = v

module _ (E : Env) (o : Settings) where
  open E use {World, load_yaml, dump_yaml, pillar_refresh}

  abbrev pub Updater : Type 0
  Updater = State World

  loaded : String → Result (Option Value) → Exec Updater Value
  unfolding or_empty insert
  loaded file (ok c) s =
      (ok (or_empty c), record s { pillars = insert file (or_empty c) s.pillars })
  loaded file (err e) s = (err e, s)

  -- `pillar(path)`, by the file that the path stands for.
  unfoldable pub pillar : String → Exec Updater Value
  unfolding loaded lookup
  pillar file s = elim (lookup file s.pillars) [
    | some v ↦ (ok v, s)
    | none ↦ loaded file (load_yaml file s.world) s
  ]

  -- The value to set, or the exception. `none` is `UNCHANGED`.
  unfoldable pub to_set : Input → Result (Option Value)
  to_set unchanged = ok none
  to_set missed = err (value_error "Total removal of a pillar entry is not allowed")
  to_set undefined = ok (some null)
  to_set default = err (not_implemented_error "Reset to factory default is not yet supported")
  to_set (plain v) = ok (some v)

  pub appended : String → KeyPath → Old → Updater → Updater
  appended file kp old s = record s {
    p_entries = s.p_entries ++ record { file = file; keypath = kp; old = old } ∷ [];
  }

  set_done : String → KeyPath → Result Old × Value → Exec Updater (Unit {0})
  unfolding insert appended
  set_done file kp (ok old, v) s =
      (ok tt, appended file kp old (record s { pillars = insert file v s.pillars }))
  set_done file kp (err e, v) s = (err e, record s { pillars = insert file v s.pillars })

  set_entry : String → KeyPath → Value → Result (Option Value) → Exec Updater (Unit {0})
  unfolding set_done entry_set appended
  set_entry file kp p (err e) s = (err e, s)
  set_entry file kp p (ok none) s = (ok tt, appended file kp not_set s)
  set_entry file kp p (ok (some v)) s = set_done file kp (entry_set kp v not_set p) s

  unfoldable pub update_item : Item → Exec Updater (Unit {0})
  unfolding pillar set_entry to_set pillar_file
  update_item i =
      let file = pillar_file o.path o.targets i.fpath in
      pillar file >>= λ p. set_entry file i.keypath p (to_set i.value)

  unfoldable pub update_items : List Item → Exec Updater (Unit {0})
  unfolding update_item
  update_items [] = pure tt
  update_items (i ∷ is) = update_item i >> update_items is

  -- `update(*pi_groups)`, with the items of the groups in a row.
  unfoldable pub update : List Item → Exec Updater (Unit {0})
  unfolding update_items
  update items s = elim s.p_entries [
    | [] ↦ update_items items s
    | _ ∷ _ ↦ (err (runtime_error "Update already started"), s)
  ]

  undone : PillarEntry → Result (Unit {0}) × Value → Exec Updater (Unit {0})
  unfolding insert
  undone e (r, v) s = (r, record s { pillars = insert e.file v s.pillars })

  unfoldable pub rollback_entry : PillarEntry → Exec Updater (Unit {0})
  unfolding undone entry_rollback or_empty lookup
  rollback_entry e s =
      undone e (entry_rollback e.keypath e.old (or_empty (lookup e.file s.pillars))) s

  pop : List PillarEntry → Exec Updater (Unit {0})
  pop rest s = (ok tt, record s { p_entries = rest })

  -- The loop over the entries, the last one first; each is popped once it is undone.
  unfoldable pub rollback_loop : List PillarEntry → Exec Updater (Unit {0})
  unfolding rollback_entry pop
  rollback_loop [] = pure tt
  rollback_loop (e ∷ es) = rollback_entry e >> pop (reverse es) >> rollback_loop es

  unfoldable pub rollback : Exec Updater (Unit {0})
  unfolding rollback_loop
  rollback s = rollback_loop (reverse s.p_entries) s

  abbrev on_world : Exec World (Unit {0}) → Exec Updater (Unit {0})
  on_world m s = let (r, w) = m s.world in (r, record s { world = w })

  pub dump_files : Dict Value → Exec Updater (Unit {0})
  dump_files [] = pure tt
  dump_files ((file, v) ∷ d) = on_world (dump_yaml file v) >> dump_files d

  unfoldable pub dump : Exec Updater (Unit {0})
  unfolding dump_files
  dump s = dump_files s.pillars s

  pub refresh : Exec Updater (Unit {0})
  refresh = if o.local_only then pure tt else on_world (pillar_refresh o.targets)

  -- The body of `apply`.
  unfoldable pub write_out : Exec Updater (Unit {0})
  unfolding dump refresh
  write_out = dump >> refresh

  unfoldable pub apply : Bool → Exec Updater (Unit {0})
  unfolding write_out rollback
  apply false s = write_out s
  apply true s = handle (λ e. rollback >> write_out >> raise e) (write_out s)
