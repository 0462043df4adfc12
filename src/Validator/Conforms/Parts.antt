-- ===== src/Validator/Conforms/Parts.antt =====
-- Single files, files with a hash sum, and directories apart from what their scheme asks for.
use cortx_prvsnr.Prelude.{String, ◌≡◌, refl, Bool, true, false, ◌⊎◌, ◌==◌, eq_iff, eq_refl, arith}
use cortx_prvsnr.Prelude.{Bool-cases, inl, inr, ◌∙◌}
use cortx_prvsnr.Exec.{Result, ok}
use cortx_prvsnr.Fallible.{>>=-ok}
use cortx_prvsnr.Utils.Checksum.{HashType}
use cortx_prvsnr.Validator.{ContentCheck, unchecked, content_file_validator}
use cortx_prvsnr.Validator.{hash_sum_validator}
use cortx_prvsnr.Validator.{missing, check_content, validate_file, compare_digest}
use cortx_prvsnr.Validator.{validate_dir, unless_empty}
use cortx_prvsnr.Validator.{validate_hash_sum}
use cortx_prvsnr.Validator.Paths.{Files, calc_hash}
use cortx_prvsnr.Validator.Content.Laws.{validate_content-ok}
use cortx_prvsnr.Validator.Content.Laws.{validate_content-HasContent}
use cortx_prvsnr.Validator.Conforms.{
  Passes, ConformsFile, Conforms, absent_file, present_file, hashed,
}

module _ (F : Files) where
  open F use {exists, is_file, is_dir, is_occupied, read_bytes, is_available, digest}

  missing-ok : (required : Bool) → missing required ≡ ok tt → required ≡ false
  unfolding missing
  missing-ok true h = ground arith
  missing-ok false h = refl

  check_content-ok :
      (check : ContentCheck) (path : String)
      → check_content F check path ≡ ok tt
      → Passes F check path
  unfolding check_content Passes
  check_content-ok unchecked path h = tt
  check_content-ok (content_file_validator scheme content_type) path h =
      validate_content-ok F scheme content_type path h

  content_accepted :
      (check : ContentCheck) (path : String)
      → Passes F check path
      → check_content F check path ≡ ok tt
  unfolding check_content Passes
  content_accepted unchecked path h = refl
  content_accepted (content_file_validator scheme content_type) path h =
      validate_content-HasContent F scheme content_type path h

  pub validate_file-ok :
      (required : Bool) (check : ContentCheck) (path : String)
      → validate_file F required check path ≡ ok tt
      → ConformsFile F required check path
  unfolding validate_file
  validate_file-ok required check path h = elim (Bool-cases (exists path)) [
    | inr gone ↦ rw (missing-ok required (rw gone at h)) (absent_file gone)
    | inl there ↦ elim (Bool-cases (is_file path)) [
      | inr gone ↦ ground arith
      | inl file ↦ present_file there file (check_content-ok check path (rw (there, file) at h))
    ]
  ]

  pub file_accepted :
      (required : Bool) (check : ContentCheck) (path : String)
      → ConformsFile F required check path
      → validate_file F required check path ≡ ok tt
  unfolding validate_file missing
  file_accepted false check path (absent_file gone) = rw (validate_file, gone)
  file_accepted required check path (present_file there file passes) =
      rw (validate_file, there, file) (content_accepted check path passes)

  compare_digest-ok :
      (hash_sum found : String) → compare_digest F hash_sum found ≡ ok tt → found ≡ hash_sum
  unfolding compare_digest
  compare_digest-ok hash_sum found h = elim (Bool-cases (found == hash_sum)) [
    | inl same ↦ (eq_iff found hash_sum).0 same
    | inr other ↦ ground arith
  ]

  pub hash_sum-ok :
      (required : Bool) (hash_type : HashType) (hash_sum path : String)
      → validate_hash_sum F required hash_type hash_sum path ≡ ok tt
      → Conforms F (hash_sum_validator required hash_type hash_sum) path
  unfolding validate_hash_sum calc_hash
  hash_sum-ok required hash_type hash_sum path h =
      let (_, file, h₁) = >>=-ok (validate_file F required unchecked path) _ tt h in
      let (found, hashed_to, h₂) = >>=-ok (calc_hash F hash_type path) _ tt h₁ in
      elim (Bool-cases (is_available hash_type)) [
        | inr gone ↦ ground arith
        | inl there ↦
            let (content, is_content, h₃) =
              >>=-ok (read_bytes path) _ found (rw there at hashed_to) in
            hashed (validate_file-ok required unchecked path file) there is_content (
              let e : digest hash_type content ≡ found = ground arith in
              e ∙ compare_digest-ok hash_sum found h₂)
      ]

  pub hash_sum_accepted :
      (required : Bool) (hash_type : HashType) (hash_sum path content : String)
      → ConformsFile F required unchecked path
      → is_available hash_type ≡ true
      → read_bytes path ≡ ok content
      → digest hash_type content ≡ hash_sum
      → validate_hash_sum F required hash_type hash_sum path ≡ ok tt
  unfolding validate_hash_sum calc_hash compare_digest
  hash_sum_accepted required hash_type hash_sum path content file there is_content same = rw (
    validate_hash_sum,
    file_accepted required unchecked path file,
    there,
    is_content,
    same,
    eq_refl hash_sum,
  )

  pub validate_dir-ok :
      (required : Bool) (inside : Result (Unit {0})) (path : String)
      → validate_dir F required inside path ≡ ok tt
      → ((exists path ≡ false) × (required ≡ false))
        ⊎ ((exists path ≡ true) × (is_dir path ≡ true) × (inside ≡ ok tt))
  unfolding validate_dir
  validate_dir-ok required inside path h = elim (Bool-cases (exists path)) [
    | inr gone ↦ inl (gone, missing-ok required (rw gone at h))
    | inl there ↦ elim (Bool-cases (is_dir path)) [
      | inr other ↦ ground arith
      | inl dir ↦ inr (there, dir, rw (there, dir) at h)
    ]
  ]

  pub unless_empty-ok :
      (empty : Bool) (path : String) (inside : Result (Unit {0}))
      → unless_empty F empty path inside ≡ ok tt
      → ((empty ≡ true) × (is_occupied path ≡ false)) ⊎ (inside ≡ ok tt)
  unfolding unless_empty
  unless_empty-ok false path inside h = inr h
  unless_empty-ok true path inside h = elim (Bool-cases (is_occupied path)) [
    | inr none_there ↦ inl (refl, none_there)
    | inl occupied ↦ inr (rw occupied at h)
  ]

  pub unless_empty-inside :
      (empty : Bool) (path : String) (inside : Result (Unit {0}))
      → inside ≡ ok tt
      → unless_empty F empty path inside ≡ ok tt
  unfolding unless_empty
  unless_empty-inside empty path inside h = ground arith
