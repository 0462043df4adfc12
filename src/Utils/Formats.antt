-- ===== src/Utils/Formats.antt =====
-- The formats of `load_checksum_from_str` (utils.py) read back.
use Prim.Native.Char.{Char, code}
use text.Mathlib.TextLemmas.{nil-append, cons-append}
use cortx_prvsnr.Prelude.{ℕ, String, ◌<>◌, ◌≡◌, refl, true, false, some, arith, eqb}
use cortx_prvsnr.Exec.{ok}
use cortx_prvsnr.Utils.Version.{has, before, after, split_two}
use cortx_prvsnr.Utils.Checksum.{HashType, md5, sha256, sha384, sha512, load_checksum_from_str}
use cortx_prvsnr.Utils.Checksum.{to_hash_type, take_type, take_filename, with_file}

has-joined : (c : Char) (s t : String) → has (code c) (s <> String.◌∷◌ c t) ≡ true
unfolding has
has-joined c String.[] t = rw nil-append (ground arith)
has-joined c (String.◌∷◌ d s) t = rw cons-append (ground (arith, has-joined c s t))

after-joined :
    (c : Char) (s t : String)
    → has (code c) s ≡ false
    → after (eqb (code c)) (s <> String.◌∷◌ c t) ≡ t
unfolding has after
after-joined c String.[] t h = rw nil-append (ground arith)
after-joined c (String.◌∷◌ d s) t h = rw cons-append (ground (arith, after-joined c s t))

before-joined :
    (c : Char) (s t : String)
    → has (code c) s ≡ false
    → before (eqb (code c)) (s <> String.◌∷◌ c t) ≡ s
unfolding has before
before-joined c String.[] t h = rw nil-append (ground arith)
before-joined c (String.◌∷◌ d s) t h = rw cons-append (ground (arith, before-joined c s t))

-- A text that has the separator once is split there.
split_two-joined :
    (c : Char) (s t : String)
    → has (code c) s ≡ false
    → has (code c) t ≡ false
    → split_two (code c) (s <> String.◌∷◌ c t) ≡ ok (s, t)
unfolding split_two
split_two-joined c s t hs ht =
    ground (arith, has-joined c s t, after-joined c s t hs, before-joined c s t hs)

has-append : (c : ℕ) (s t : String) → has c s ≡ false → has c (s <> t) ≡ has c t
unfolding has
has-append c String.[] t h = rw nil-append refl
has-append c (String.◌∷◌ d s) t h = rw cons-append (ground (arith, has-append c s t))

abbrev colon : Char
colon = ":"

abbrev space : Char
space = " "

-- The value of a `HashType`.
abbrev pub hash_name : HashType → String
hash_name md5 = "md5"
hash_name sha256 = "sha256"
hash_name sha384 = "sha384"
hash_name sha512 = "sha512"

-- The line `<type>:<sum> <file>`.
abbrev pub checksum_line : HashType → String → String → String
checksum_line h hash_sum filename =
    hash_name h <> String.◌∷◌ colon (hash_sum <> String.◌∷◌ space filename)

-- Neither a colon nor a space.
abbrev pub IsPlain : String → Type 0
IsPlain s = (has b':' s ≡ false) × (has b' ' s ≡ false)

name-IsPlain : (h : HashType) → has b':' (hash_name h) ≡ false
unfolding has
name-IsPlain md5 = refl
name-IsPlain sha256 = refl
name-IsPlain sha384 = refl
name-IsPlain sha512 = refl

to_hash_type-hash_name : (h : HashType) → to_hash_type (hash_name h) ≡ ok (some h)
unfolding to_hash_type
to_hash_type-hash_name md5 = refl
to_hash_type-hash_name sha256 = refl
to_hash_type-hash_name sha384 = refl
to_hash_type-hash_name sha512 = refl

take_type-checksum_line :
    (h : HashType) (hash_sum filename : String)
    → IsPlain hash_sum
    → IsPlain filename
    → take_type (checksum_line h hash_sum filename)
      ≡ ok (hash_name h, hash_sum <> String.◌∷◌ space filename)
unfolding take_type
take_type-checksum_line h hash_sum filename s f =
    let rest : has b':' (hash_sum <> String.◌∷◌ space filename) ≡ false =
      rw (has-append b':' hash_sum (String.◌∷◌ space filename) s.0) (unfold has in f.0) in
    let found : has b':' (checksum_line h hash_sum filename) ≡ true =
      has-joined colon (hash_name h) (hash_sum <> String.◌∷◌ space filename) in
    let split =
      split_two-joined colon (hash_name h) (hash_sum <> String.◌∷◌ space filename) (name-IsPlain h)
        rest in
    unfold split_two in ground (arith, found, split)

take_filename-joined :
    (hash_sum filename : String)
    → IsPlain hash_sum
    → IsPlain filename
    → take_filename (hash_sum <> String.◌∷◌ space filename) ≡ ok (hash_sum, some filename)
unfolding take_filename with_file
take_filename-joined hash_sum filename s f =
    let found : has b' ' (hash_sum <> String.◌∷◌ space filename) ≡ true =
      has-joined space hash_sum filename in
    let split = split_two-joined space hash_sum filename s.1 f.1 in
    unfold split_two in ground (arith, found, split)

-- A line `<type>:<sum> <file>`, for each type and for a sum and a file name without colons and
-- spaces, is read as that type, sum and file name.
load_checksum_from_str-checksum_line :
    (h : HashType) (hash_sum filename : String)
    → IsPlain hash_sum
    → IsPlain filename
    → load_checksum_from_str (checksum_line h hash_sum filename)
      ≡ ok (record { hash_type = some h; hash_sum = hash_sum; filename = some filename })
unfolding load_checksum_from_str
load_checksum_from_str-checksum_line h hash_sum filename s f =
    rw
      (
        take_type-checksum_line h hash_sum filename s f,
        take_filename-joined hash_sum filename s f,
        to_hash_type-hash_name,
      )
      refl
