-- ===== src/Tests/Setter.antt =====
-- Pillar updates on files that cannot be written.
use cortx_prvsnr.Prelude.{String, true, some, List, [], ◌∷◌, ◌++◌}
use cortx_prvsnr.Errors.{Exception, os_error}
use cortx_prvsnr.Exec.{Result, ok, err, Exec}
use cortx_prvsnr.Pillar.Value.{scalar, dict, entry, end, plain}
use cortx_prvsnr.Pillar.Updater.{Env, Settings, Item, Updater}
use cortx_prvsnr.Pillar.Setter.{fresh, set_apply}

-- The world is the list of states that were applied.
abbrev read_only : Env
read_only = record {
  World = List String;
  load_yaml = λ file w. ok (some (dict (entry "release" (scalar "1.0") end)));
  dump_yaml = λ file v w. (err (os_error "read-only file system"), w);
  pillar_refresh = λ targets w. (ok tt, w);
}

abbrev settings : Settings
settings = record {
  targets = "*";
  local_only = true;
  path = record { root = "/var/lib/pillar"; prefix = "uuid_" };
}

abbrev items : List Item
items = record { keypath = "cluster" ∷ []; fpath = "cluster.sls"; value = plain (scalar "a") } ∷ []

abbrev unwritable : Exception
unwritable = os_error "read-only file system"

abbrev apply_states : List String → Exec (List String) (Unit {0})
apply_states states w = (ok tt, states ++ w)

abbrev unset : Result (Unit {0}) × Updater read_only settings
unset =
    set_apply read_only settings apply_states ("stop" ∷ []) ("start" ∷ []) items
      (fresh read_only settings [])
