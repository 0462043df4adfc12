-- ===== src/Validator/Conforms.antt =====
-- The trees of files that a validator asks for, and what `validate` says of a tree.
pub mod Parts
pub mod Laws
use cortx_prvsnr.Prelude.{
  String, ◌≡◌, refl, Bool, true, false, ◌↔◌, ◌⊎◌, ◌==◌, eq_iff, eq_refl, arith,
}
use cortx_prvsnr.Prelude.{Bool-cases, inl, inr, ◌∙◌}
use cortx_prvsnr.Exec.{Result, ok}
use cortx_prvsnr.Fallible.{>>=-ok}
use cortx_prvsnr.Utils.Checksum.{HashType}
use cortx_prvsnr.Validator.{ContentCheck, unchecked, content_file_validator, Validator, Scheme}
use cortx_prvsnr.Validator.{file_validator, hash_sum_validator, dir_validator, nil, entry}
use cortx_prvsnr.Validator.{missing, check_content, validate_file, compare_digest}
use cortx_prvsnr.Validator.{validate_dir, unless_empty}
use cortx_prvsnr.Validator.{validate_hash_sum, validate, validate_scheme}
use cortx_prvsnr.Validator.Paths.{Files, join, calc_hash}
use cortx_prvsnr.Validator.Content.Laws.{HasContent, validate_content-ok}
use cortx_prvsnr.Validator.Content.Laws.{validate_content-HasContent}

module _ (F : Files) where
  open F use {exists, is_file, is_dir, is_occupied, read_bytes, is_available, digest}

  unfoldable pub Passes : ContentCheck → String → Type 0
  Passes unchecked path = Unit
  Passes (content_file_validator scheme content_type) path = HasContent F scheme content_type path

  -- A file, or nothing where none is required; the file has the content that is asked for.
  pub data ConformsFile : Bool → ContentCheck → String → Type 0 where
    absent_file :
        {check : ContentCheck} {path : String} → exists path ≡ false → ConformsFile false check path
    present_file :
        {required : Bool} {check : ContentCheck} {path : String}
        → exists path ≡ true
        → is_file path ≡ true
        → Passes check path
        → ConformsFile required check path

  -- What a validator asks for: of a directory that may be empty its scheme only if it is not.
  mutual
    pub data Conforms : Validator → String → Type 0 where
      a_file :
          {required : Bool} {check : ContentCheck} {path : String}
          → ConformsFile required check path
          → Conforms (file_validator required check) path
      hashed :
          {required : Bool} {hash_type : HashType} {hash_sum path content : String}
          → ConformsFile required unchecked path
          → is_available hash_type ≡ true
          → read_bytes path ≡ ok content
          → digest hash_type content ≡ hash_sum
          → Conforms (hash_sum_validator required hash_type hash_sum) path
      absent_dir :
          {scheme : Scheme} {empty : Bool} {path : String}
          → exists path ≡ false
          → Conforms (dir_validator false scheme empty) path
      empty_dir :
          {required : Bool} {scheme : Scheme} {path : String}
          → exists path ≡ true
          → is_dir path ≡ true
          → is_occupied path ≡ false
          → Conforms (dir_validator required scheme true) path
      filled_dir :
          {required empty : Bool} {scheme : Scheme} {path : String}
          → exists path ≡ true
          → is_dir path ≡ true
          → AllConform scheme path
          → Conforms (dir_validator required scheme empty) path

    pub data AllConform : Scheme → String → Type 0 where
      no_more : {path : String} → AllConform nil path
      and_more :
          {sub_path path : String} {v : Validator} {scheme : Scheme}
          → Conforms v (join path sub_path)
          → AllConform scheme path
          → AllConform (entry sub_path v scheme) path
