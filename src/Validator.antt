-- ===== src/Validator.antt =====
-- The path validators of commands/validator/validator.py.
pub mod Paths
pub mod Content
pub mod Conforms
pub mod Refusals
pub mod Bundle
use cortx_prvsnr.Prelude.{String, ◌<>◌, Bool, true, false, ◌==◌, not, ◌&&◌}
use cortx_prvsnr.Prelude.{if◌then◌else◌}
use cortx_prvsnr.Errors.{validation_error}
use cortx_prvsnr.Exec.{Result, ok, err}
use cortx_prvsnr.Fallible.{◌>>=◌}
use cortx_prvsnr.Utils.Checksum.{HashType}
use cortx_prvsnr.Validator.Paths.{Files, ContentType, join, calc_hash}
use cortx_prvsnr.Validator.Content.{ContentScheme, validate_content}

-- The `content_validator` of a file.
pub data ContentCheck : Type 0 where
  unchecked : ContentCheck
  content_file_validator : ContentScheme → ContentType → ContentCheck

-- An instance of `PathValidator` with its attributes: `required` first; of a directory its scheme,
-- which may be absent, and `empty`. A scheme is a dict of validators by sub-path.
mutual
  pub data Validator : Type 0 where
    file_validator : Bool → ContentCheck → Validator
    hash_sum_validator : Bool → HashType → String → Validator
    dir_validator : Bool → Scheme → Bool → Validator

  -- `nil` is also the scheme that is absent: Python reads both as false.
  pub data Scheme : Type 0 where
    nil : Scheme
    entry : String → Validator → Scheme → Scheme

-- `ReleaseInfoValidator(required, content_type)` and its sibling for third party files.
unfoldable pub release_info_validator : ContentScheme → Bool → ContentType → Validator
release_info_validator scheme required content_type =
    file_validator required (content_file_validator scheme content_type)

-- `YumRepoDataValidator()`
abbrev pub yum_repo_data_validator : Validator
yum_repo_data_validator =
    dir_validator true (entry "repomd.xml" (file_validator true unchecked) nil) false

-- A path that is not there is an error for a validator that requires it.
unfoldable pub missing : Bool → Result (Unit {0})
missing true = err (validation_error "File should exist.")
missing false = ok tt

module _ (F : Files) where
  open F use {exists, is_file, is_dir, is_occupied}

  unfoldable pub check_content : ContentCheck → String → Result (Unit {0})
  unfolding validate_content
  check_content unchecked path = ok tt
  check_content (content_file_validator scheme content_type) path =
      validate_content F scheme content_type path

  -- `FileValidator.validate`
  unfoldable pub validate_file : Bool → ContentCheck → String → Result (Unit {0})
  unfolding missing check_content
  validate_file required check path =
      if exists path
      then (if is_file path
          then check_content check path
          else err (validation_error "not a regular file."))
      else missing required

  -- `compare_digest`, and the error otherwise.
  unfoldable pub compare_digest : String → String → Result (Unit {0})
  compare_digest hash_sum digest =
      if digest == hash_sum then ok tt else err (validation_error "Hash sum of file mismatches")

  -- `HashSumValidator.validate`: the hash is computed also where no file is.
  unfoldable pub validate_hash_sum : Bool → HashType → String → String → Result (Unit {0})
  unfolding validate_file calc_hash compare_digest
  validate_hash_sum required hash_type hash_sum path =
      validate_file required unchecked path >>= λ _.
      calc_hash F hash_type path >>= λ digest. compare_digest hash_sum digest

  -- `DirValidator.validate`, told what the loop over the scheme gives.
  unfoldable pub validate_dir : Bool → Result (Unit {0}) → String → Result (Unit {0})
  unfolding missing
  validate_dir required inside path =
      if exists path
      then (if is_dir path then inside else err (validation_error "not a directory"))
      else missing required

  unfoldable pub unless_empty : Bool → String → Result (Unit {0}) → Result (Unit {0})
  unless_empty empty path inside = if empty && not (is_occupied path) then ok tt else inside

  -- `validate(path)` of each class, and the loop over the entries of a scheme.
  unfoldable mutual
    unfolding validate_file validate_hash_sum validate_dir unless_empty join

    pub validate : Validator → String → Result (Unit {0})
    validate (file_validator required check) path = validate_file required check path
    validate (hash_sum_validator required hash_type hash_sum) path =
        validate_hash_sum required hash_type hash_sum path
    validate (dir_validator required nil empty) path = validate_dir required (ok tt) path
    validate (dir_validator required (entry sub_path v scheme) empty) path =
        let inside = validate_scheme (entry sub_path v scheme) path in
        validate_dir required (unless_empty empty path inside) path

    pub validate_scheme : Scheme → String → Result (Unit {0})
    validate_scheme nil path = ok tt
    validate_scheme (entry sub_path v scheme) path =
        let rest = validate_scheme scheme path in validate v (join path sub_path) >>= λ _. rest
