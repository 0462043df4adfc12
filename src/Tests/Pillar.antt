-- ===== src/Tests/Pillar.antt =====
-- An update of one pillar file that is broken off at its second item.
use cortx_prvsnr.Prelude.{Option, ◌≡◌, refl, true, some, List, [], ◌∷◌}
use cortx_prvsnr.Errors.{type_error, os_error}
use cortx_prvsnr.Exec.{ok, err}
use cortx_prvsnr.Pillar.Value.{Value, null, scalar, dict, entry, end, plain}
use cortx_prvsnr.Pillar.Entry.{KeyPath, not_set, absent, entry_set, entry_get}
use cortx_prvsnr.Pillar.Updater.{Env, Settings, Item, Updater, update, rollback, apply}
use cortx_prvsnr.Pillar.Updater.{write_out, pillar_file}
use cortx_prvsnr.Pillar.Updater.Rollback.{rollback-update, AllLoaded}
use cortx_prvsnr.Pillar.Updater.Undoable.{AllRestored}
use cortx_prvsnr.Pillar.Updater.Apply.{apply-restores, last_error}
use cortx_prvsnr.Prelude.Dict.{Dict}
use cortx_prvsnr.Pillar.Resolver.{resolve}

abbrev before : Value
before = dict (entry "release" (scalar "1.0") end)

abbrev with_new : Value
with_new = dict (
    entry "release" (scalar "1.0")
      (entry "cluster" (dict (entry "type" (scalar "single") end)) end))

abbrev type_path : KeyPath
type_path = "cluster" ∷ "type" ∷ []

set_type : entry_set type_path (scalar "single") not_set before ≡ (ok absent, with_new)
unfolding entry_set
set_type = refl

below_release :
    entry_set ("release" ∷ "x" ∷ []) null not_set before ≡ (err (type_error "not a dict"), before)
unfolding entry_set
below_release = refl

-- The files can be read but not written.
abbrev read_only : Env
read_only = record {
  World = Unit;
  load_yaml = λ file w. ok (some before);
  dump_yaml = λ file v w. (err (os_error "read-only file system"), w);
  pillar_refresh = λ targets w. (ok tt, w);
}

abbrev settings : Settings
settings = record {
  targets = "*";
  local_only = true;
  path = record { root = "/var/lib/pillar"; prefix = "uuid_" };
}

abbrev items : List Item
items =
    record { keypath = type_path; fpath = "cluster.sls"; value = plain (scalar "single") }
    ∷ record { keypath = "release" ∷ "x" ∷ []; fpath = "cluster.sls"; value = plain null }
    ∷ []

abbrev start : Updater read_only settings
start = record { world = tt; pillars = []; p_entries = [] }

rollback-update_example :
    (t : Updater read_only settings) × (rollback read_only settings
        (update read_only settings items start).1
      ≡ (ok tt, t))
    × AllLoaded (update read_only settings items start).1.pillars t.pillars
    × AllRestored read_only settings start t.pillars
rollback-update_example = rollback-update read_only settings start items refl

not_written :
    write_out read_only settings (update read_only settings items start).1
    ≡ (err (os_error "read-only file system"), (update read_only settings items start).1)
unfolding write_out update pillar_file entry_set
not_written = refl

apply-restores_example :
    (t : Updater read_only settings) × (rollback read_only settings
        (update read_only settings items start).1
      ≡ (ok tt, t))
    × AllLoaded (update read_only settings items start).1.pillars t.pillars
    × AllRestored read_only settings start t.pillars
    × (apply read_only settings true (update read_only settings items start).1 ≡ (
      err (
          last_error read_only settings
            (os_error "read-only file system")
            (write_out read_only settings t).0),
      (write_out read_only settings t).1,
    ))
apply-restores_example =
    apply-restores read_only settings start items (os_error "read-only file system")
      (update read_only settings items start).1 refl not_written

abbrev two_minions : Dict Value
two_minions = ("srvnode-1", before) ∷ ("srvnode-2", with_new) ∷ []

abbrev releases : Dict (List (Option Value))
releases = ("srvnode-1", some (scalar "1.0") ∷ []) ∷ ("srvnode-2", some (scalar "1.0") ∷ []) ∷ []

resolved : resolve (("release" ∷ []) ∷ []) true two_minions ≡ ok releases
unfolding resolve entry_get
resolved = refl
