-- ===== src/Validator/Paths.antt =====
-- The file system that the validators read, and `calc_hash` of utils.py on it.
use cortx_prvsnr.Prelude.{String, ◌<>◌, Bool}
use cortx_prvsnr.Prelude.{if◌then◌else◌}
use cortx_prvsnr.Errors.{value_error}
use cortx_prvsnr.Exec.{Result, ok, err}
use cortx_prvsnr.Fallible.{◌>>=◌}
use cortx_prvsnr.Json.{Json}
use cortx_prvsnr.Utils.Checksum.{HashType}

-- `config.ContentType`
pub data ContentType : Type 0 where
  json yaml : ContentType

-- What the code asks of `pathlib`, of the loaders of YAML and JSON, of `hashlib`, and of `str` for
-- values that are not texts. `is_occupied` is `any(path.iterdir())`. The first four are answered for
-- every path: that `stat` or the listing of a directory raises an `OSError` is not modelled.
pub record Files : Type 0 where
  pub exists : String → Bool
  pub is_file : String → Bool
  pub is_dir : String → Bool
  pub is_occupied : String → Bool
  pub read_bytes : String → Result String
  pub load : ContentType → String → Result Json
  pub is_available : HashType → Bool
  pub digest : HashType → String → String
  pub str : Json → String

-- `path / sub_path`
unfoldable pub join : String → String → String
join path sub_path = path <> "/" <> sub_path

module _ (F : Files) where
  open F use {read_bytes, is_available, digest}

  -- `calc_hash(path, hash_type).digest()`
  unfoldable pub calc_hash : HashType → String → Result String
  calc_hash hash_type path =
      if is_available hash_type
      then (read_bytes path >>= λ content. ok (digest hash_type content))
      else err (value_error "Hash type is not supported by Python's `hashlib` module.")
