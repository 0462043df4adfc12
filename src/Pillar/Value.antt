-- ===== src/Pillar/Value.antt =====
-- Pillar data and the special values of values.py.
use cortx_prvsnr.Prelude.{String, ◌≡◌, refl, Option, none, some, arith, ◌==◌, eq_iff}
use cortx_prvsnr.Prelude.{if◌then◌else◌}

-- A scalar stands for any value that is no dict; `None` is apart.
mutual
  pub data Value : Type 0 where
    null : Value
    scalar : String → Value
    dict : Entries → Value

  pub data Entries : Type 0 where
    end : Entries
    entry : String → Value → Entries → Entries

-- What an update is asked to do: a value, or one of `UNCHANGED`, `DEFAULT`, `UNDEFINED`, `MISSED`.
pub data Input : Type 0 where
  unchanged default undefined missed : Input
  plain : Value → Input

-- `d.get(key)`, `d[key] = v` and `del d[key]`.
unfoldable pub get : String → Entries → Option Value
get key end = none
get key (entry k v es) = if k == key then some v else get key es

unfoldable pub put : String → Value → Entries → Entries
put key v end = entry key v end
put key v (entry k w es) = if k == key then entry k v es else entry k w (put key v es)

unfoldable pub remove : String → Entries → Entries
remove key end = end
remove key (entry k w es) = let rest = remove key es in if k == key then rest else entry k w rest

pub get-put :
    (j k : String) (v : Value) (es : Entries)
    → get k (put j v es) ≡ (if j == k then some v else get k es)
unfolding get put
get-put j k v end = refl
get-put j k v (entry i w es) = ground (arith, eq_iff j k, eq_iff i j, eq_iff i k, get-put j k v es)

pub get-remove :
    (j k : String) (es : Entries) → get k (remove j es) ≡ (if j == k then none else get k es)
unfolding get remove
get-remove j k end = ground arith
get-remove j k (entry i w es) =
    ground (arith, eq_iff j k, eq_iff i j, eq_iff i k, get-remove j k es)
