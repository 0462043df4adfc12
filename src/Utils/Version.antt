-- ===== src/Utils/Version.antt =====
-- `normalize_rpm_version`, and the text operations that it uses.
use Prim.Native.Char.{code}
use cortx_prvsnr.Prelude.{ℕ, String, ◌<>◌, Bool, true, false, ◌||◌, ◌&&◌}
use cortx_prvsnr.Prelude.{if◌then◌else◌}
use cortx_prvsnr.Prelude.{eqb}
use cortx_prvsnr.Prelude.Text.{is_empty}
use cortx_prvsnr.Errors.{value_error}
use cortx_prvsnr.Exec.{Result, ok, err}

-- The white space of ASCII.
unfoldable pub is_space : ℕ → Bool
is_space c = eqb c 32 || eqb c 9 || eqb c 10 || eqb c 11 || eqb c 12 || eqb c 13

-- `c in s` for a character.
unfoldable pub has : ℕ → String → Bool
has c String.[] = false
has c (String.◌∷◌ d s) = if eqb (code d) c then true else has c s

-- The text up to the first character that passes the test, and the text behind that character.
unfoldable pub before : (ℕ → Bool) → String → String
before stop String.[] = ""
before stop (String.◌∷◌ d s) =
    let rest = before stop s in if stop (code d) then "" else String.◌∷◌ d rest

unfoldable pub after : (ℕ → Bool) → String → String
after stop String.[] = ""
after stop (String.◌∷◌ d s) = if stop (code d) then s else after stop s

-- `first, second = s.split(c)`: there has to be exactly one `c`.
unfoldable pub split_two : ℕ → String → Result (String × String)
unfolding before after has
split_two c s =
    if has c s
    then (if has c (after (eqb c) s)
        then err (value_error "too many values to unpack")
        else ok (before (eqb c) s, after (eqb c) s))
    else err (value_error "not enough values to unpack")

lstrip : String → String
unfolding is_space
lstrip String.[] = ""
lstrip (String.◌∷◌ d s) = if is_space (code d) then lstrip s else String.◌∷◌ d s

rstrip : String → String
unfolding is_space is_empty
rstrip String.[] = ""
rstrip (String.◌∷◌ d s) =
    let rest = rstrip s in if is_space (code d) && is_empty rest then "" else String.◌∷◌ d rest

-- `s.strip()`
unfoldable pub strip : String → String
unfolding lstrip rstrip
strip s = rstrip (lstrip s)

-- `RELEASE_DELIMITERS`
unfoldable pub is_delimiter : ℕ → Bool
is_delimiter c = eqb c b'.' || eqb c b'_'

joined : Result (String × String) → Result String
unfolding before strip is_delimiter
joined (ok (version, release)) = ok (strip version <> "-" <> strip (before is_delimiter release))
joined (err e) = err e

unfoldable pub normalize_rpm_version : String → Result String
unfolding joined split_two has
normalize_rpm_version rpm_version =
    if has b'-' rpm_version
    then joined (split_two b'-' rpm_version)
    else ok (strip rpm_version <> "-" <> strip "0")
