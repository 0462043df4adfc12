-- ===== src/Utils/Checksum.antt =====
-- `load_checksum_from_str` and `load_checksum_from_file`.
use cortx_prvsnr.Prelude.{String, Option, none, some, ◌==◌}
use cortx_prvsnr.Prelude.{if◌then◌else◌}
use cortx_prvsnr.Prelude.{eqb}
use cortx_prvsnr.Prelude.Text.{is_empty}
use cortx_prvsnr.Errors.{value_error}
use cortx_prvsnr.Exec.{Result, ok, err}
use cortx_prvsnr.Fallible.{◌>>=◌}
use cortx_prvsnr.Utils.Version.{has, split_two, strip, before}

-- `config.HashType`
pub data HashType : Type 0 where
  md5 sha256 sha384 sha512 : HashType

-- The type is `none` also for an empty text before the colon.
pub record HashInfo : Type 0 where
  pub hash_type : Option HashType
  pub hash_sum : String
  pub filename : Option String

unfoldable pub to_hash_type : String → Result (Option HashType)
unfolding is_empty
to_hash_type s =
    if is_empty s
    then ok none
    else if s == "md5"
    then ok (some md5)
    else if s == "sha256"
    then ok (some sha256)
    else if s == "sha384"
    then ok (some sha384)
    else if s == "sha512"
    then ok (some sha512)
    else err (value_error "not a valid HashType")

-- `hash_type` and `hash_sum` after the first test; without a colon only the ends are stripped.
unfoldable pub take_type : String → Result (String × String)
unfolding has split_two strip
take_type s = if has b':' s then split_two b':' s else ok ("", strip s)

-- `hash_sum` and `filename` after the second test.
unfoldable pub with_file : Result (String × String) → Result (String × Option String)
with_file (ok (hash_sum, filename)) = ok (hash_sum, some filename)
with_file (err e) = err e

unfoldable pub take_filename : String → Result (String × Option String)
unfolding has split_two with_file
take_filename s = if has b' ' s then with_file (split_two b' ' s) else ok (s, none)

unfoldable pub load_checksum_from_str : String → Result HashInfo
unfolding take_type take_filename to_hash_type
load_checksum_from_str hash_str = take_type hash_str >>= λ typed. take_filename typed.1 >>= λ named.
    to_hash_type typed.0 >>= λ hash_type.
    ok (record { hash_type = hash_type; hash_sum = named.0; filename = named.1 })

first_line : String → String
unfolding before strip
first_line content = strip (before (eqb 10) content)

-- For the content of the file, if it exists.
unfoldable pub load_checksum_from_file : Option String → Result HashInfo
unfolding load_checksum_from_str first_line is_empty
load_checksum_from_file none = err (value_error "File by provided path doesn't exist.")
load_checksum_from_file (some content) =
    if is_empty (first_line content)
    then err (value_error "File by provided path is empty.")
    else load_checksum_from_str (first_line content)
