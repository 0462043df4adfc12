-- ===== src/Pillar/Resolver.antt =====
-- `PillarResolver.get`: the values of some keys in the pillar of each minion.
pub mod Laws
use cortx_prvsnr.Prelude.{◌<>◌, Bool, true, false, Option, none, some, List, [], ◌∷◌}
use cortx_prvsnr.Prelude.{if◌then◌else◌}
use cortx_prvsnr.Prelude.Text.{is_empty}
use cortx_prvsnr.Prelude.Dict.{Dict}
use cortx_prvsnr.Errors.{bad_pillar_data_error}
use cortx_prvsnr.Exec.{Result, ok, err}
use cortx_prvsnr.Fallible.{◌>>=◌}
use cortx_prvsnr.Pillar.Value.{Value, null, scalar, dict, end, entry}
use cortx_prvsnr.Pillar.Entry.{KeyPath, entry_get}

-- The values of one minion, in the order of the keys; `none` is `MISSED`.
unfoldable pub get_keys : List KeyPath → Value → Result (List (Option Value))
get_keys [] pillar = ok []
get_keys (pk ∷ pks) pillar = do v ← entry_get pk pillar; vs ← get_keys pks pillar; ok (v ∷ vs)

-- `not pillar[pk] or pillar[pk] is values.MISSED`. A scalar stands for its text here, so the empty
-- text is the only scalar that counts as false.
unfoldable pub is_unspecified : Option Value → Bool
unfolding is_empty
is_unspecified none = true
is_unspecified (some null) = true
is_unspecified (some (scalar s)) = is_empty s
is_unspecified (some (dict end)) = true
is_unspecified (some (dict (entry k v es))) = false

unfoldable pub all_specified : List (Option Value) → Bool
unfolding is_unspecified
all_specified [] = true
all_specified (v ∷ vs) = if is_unspecified v then false else all_specified vs

collect : List KeyPath → Dict Value → Result (Dict (List (Option Value)))
unfolding get_keys
collect pks [] = ok []
collect pks ((minion, pillar) ∷ d) = do
  vs ← get_keys pks pillar
  rest ← collect pks d
  ok ((minion, vs) ∷ rest)

check_defined : Dict (List (Option Value)) → Result (Unit {0})
unfolding all_specified
check_defined [] = ok tt
check_defined ((minion, vs) ∷ d) =
    if all_specified vs
    then check_defined d
    else err (bad_pillar_data_error ("value is not specified for node " <> minion))

-- `get(pi_keys, fail_on_undefined)` on the pillars by minion.
unfoldable pub resolve : List KeyPath → Bool → Dict Value → Result (Dict (List (Option Value)))
unfolding collect check_defined
resolve pks fail_on_undefined pillar = do
  res ← collect pks pillar
  (if fail_on_undefined then check_defined res else ok tt) >>= λ _. ok res
