-- ===== src/Prelude/Text.antt =====
-- The operations of Python's `str` that the program uses, over the native texts.
use Prim.Native.Nat.{ℕ, zero, suc, ◌-◌}
use Prim.Native.Char.{Char, code}
use Prim.Native.String.{String, char_at}
use mathlib.Core.Bool.{Bool, true, false}
use mathlib.Core.Option.{none, some}
use text.Mathlib.Text.{find?, ◌==◌}
use cortx_prvsnr.Prelude.Tests.{ltb, eqb, if◌then◌else◌}

-- `t in s`
abbrev pub contains : String → String → Bool
contains s t = elim (find? s t) [ none ↦ false | some n ↦ true ]

abbrev upper_case : String
upper_case = "ABCDEFGHIJKLMNOPQRSTUVWXYZ"

abbrev lower_case : String
lower_case = "abcdefghijklmnopqrstuvwxyz"

lower_char : Char → Char
lower_char c =
    if ltb (code c) 65 then c else if ltb 90 (code c) then c else char_at lower_case (code c - 65)

-- `s.lower()`, for the letters of ASCII; other characters are left alone.
unfoldable pub lower : String → String
unfolding lower_char
lower String.[] = ""
lower (String.◌∷◌ c s) = String.◌∷◌ (lower_char c) (lower s)

-- `s.replace('-', '_')`
unfoldable pub underscored : String → String
underscored String.[] = ""
underscored (String.◌∷◌ c s) =
    String.◌∷◌ (if eqb (code c) 45 then char_at "_" 0 else c) (underscored s)

-- `s.replace('_', '-')`
unfoldable pub dashed : String → String
dashed String.[] = ""
dashed (String.◌∷◌ c s) = String.◌∷◌ (if eqb (code c) 95 then char_at "-" 0 else c) (dashed s)

-- `s.lstrip('_')`
unfoldable pub stripped : String → String
stripped String.[] = ""
stripped (String.◌∷◌ c s) =
    let rest = stripped s in if eqb (code c) 95 then rest else String.◌∷◌ c s

unfoldable pub is_empty : String → Bool
is_empty String.[] = true
is_empty (String.◌∷◌ c s) = false

-- `s.endswith(t)`
unfoldable pub ends_with : String → String → Bool
unfolding is_empty
ends_with String.[] t = is_empty t
ends_with (String.◌∷◌ c s) t = if String.◌∷◌ c s == t then true else ends_with s t

-- `s[n:]` for a text of at least that many characters.
unfoldable pub drop : ℕ → String → String
drop zero s = s
drop (suc n) String.[] = ""
drop (suc n) (String.◌∷◌ c s) = drop n s
