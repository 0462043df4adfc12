-- ===== src/Pillar/Entry.antt =====
-- `KeyPath` and `PillarEntry`: a value under a path of keys, set once and rolled back.
pub mod View
pub mod Undo
pub mod Access
use cortx_prvsnr.Prelude.{String, ◌<>◌, Bool, true, false, Option, none, some, List, [], ◌∷◌}
use cortx_prvsnr.Prelude.{if◌then◌else◌}
use cortx_prvsnr.Errors.{Exception, key_error, type_error, value_error}
use cortx_prvsnr.Exec.{Result, ok, err, Exec, pure}
use cortx_prvsnr.Pillar.Value.{Value, null, scalar, dict, Entries, end, get, put, remove}

-- The parts of a key path. The last one is the leaf, the others lead to its parent.
abbrev pub KeyPath : Type 0
KeyPath = List String

unfoldable pub parents : KeyPath → KeyPath
parents [] = []
parents (k ∷ []) = []
parents (k ∷ (j ∷ ks)) = k ∷ parents (j ∷ ks)

unfoldable pub leaf : KeyPath → String
leaf [] = ""
leaf (k ∷ []) = k
leaf (k ∷ (j ∷ ks)) = leaf (j ∷ ks)

-- `fpath` of a `PillarKey` for which none is given: the first part names the file.
unfoldable pub default_fpath : KeyPath → Result String
default_fpath [] = err (value_error "keypath is incorrect")
default_fpath (k ∷ ks) = ok (k <> ".sls")

-- The dict that a key leads to, if missing ones are added.
unfoldable pub child : Bool → Option Value → Result Value
child fix_missing (some v) = ok v
child true none = ok (dict end)
child false none = err (key_error "parent_dict")

module _ {ℓ} {A : Type ℓ} (fix_missing : Bool) (body : Exec Entries A) where
  back : String → Entries → Result A × Value → Result A × Value
  back k es (r, v) = (r, dict (put k v es))

  at_dict : Result A × Entries → Result A × Value
  at_dict (r, es) = (r, dict es)

  -- `parent_dict(key_dict, fix_missing)`, and then `body` on the dict that it returns, which is
  -- part of `key_dict`. Where a key leads to no dict the next step raises a `TypeError`.
  unfoldable pub with_parent_dict : KeyPath → Exec Value A
  unfolding child back at_dict
  with_parent_dict ks null = (err (type_error "not a dict"), null)
  with_parent_dict ks (scalar s) = (err (type_error "not a dict"), scalar s)
  with_parent_dict [] (dict es) = at_dict (body es)
  with_parent_dict (k ∷ ks) (dict es) = elim (child fix_missing (get k es)) [
    | ok v ↦ back k es (with_parent_dict ks v)
    | err e ↦ (err e, dict es)
  ]

unfoldable pub read_leaf : String → Exec Entries Value
unfolding get
read_leaf k es = elim (get k es) [ none ↦ (err (key_error k), es) | some v ↦ (ok v, es) ]

-- `KeyPath.value(key_dict)`
unfoldable pub value : KeyPath → Value → Result Value
unfolding with_parent_dict read_leaf parents leaf
value kp pillar = (with_parent_dict false (read_leaf (leaf kp)) (parents kp) pillar).0

-- `PillarEntry.get()`: `none` is `MISSED`.
found : Result Value → Result (Option Value)
found (ok v) = ok (some v)
found (err (key_error e)) = ok none
found (err e) = err e

unfoldable pub entry_get : KeyPath → Value → Result (Option Value)
unfolding value found
entry_get kp pillar = found (value kp pillar)

-- `_old_value_exists` and `_old_value`: not yet set, or what was there before.
pub data Old : Type 0 where
  not_set : Old
  absent : Old
  present : Value → Old

unfoldable pub remembered : Option Value → Old
remembered none = absent
remembered (some v) = present v

unfoldable pub write_leaf : String → Value → Exec Entries Old
unfolding get put remembered
write_leaf k v es = (ok (remembered (get k es)), put k v es)

-- `PillarEntry.set(value)` on the entry's memory and the pillar. It is made once.
unfoldable pub entry_set : KeyPath → Value → Old → Exec Value Old
unfolding with_parent_dict write_leaf parents leaf
entry_set kp v not_set pillar = with_parent_dict true (write_leaf (leaf kp) v) (parents kp) pillar
entry_set kp v old pillar = (ok old, pillar)

delete_leaf : String → Exec Entries (Unit {0})
unfolding get remove
delete_leaf k es = elim (get k es) [
  | none ↦ (err (key_error k), es)
  | some v ↦ (ok tt, remove k es)
]

restore_leaf : String → Value → Exec Entries (Unit {0})
unfolding put
restore_leaf k v es = (ok tt, put k v es)

-- `PillarEntry.rollback()`
unfoldable pub entry_rollback : KeyPath → Old → Exec Value (Unit {0})
unfolding with_parent_dict delete_leaf restore_leaf parents leaf
entry_rollback kp not_set pillar = (ok tt, pillar)
entry_rollback kp absent pillar = with_parent_dict false (delete_leaf (leaf kp)) (parents kp) pillar
entry_rollback kp (present v) pillar =
    with_parent_dict false (restore_leaf (leaf kp) v) (parents kp) pillar
