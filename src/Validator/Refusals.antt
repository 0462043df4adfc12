-- ===== src/Validator/Refusals.antt =====
-- The exceptions that leave the validators of schemes.
use cortx_prvsnr.Prelude.{String, ◌≡◌, Bool, true, false, ◌&&◌, not, arith, inl, inr}
use cortx_prvsnr.Prelude.{Bool-cases, if◌then◌else◌}
use cortx_prvsnr.Errors.{Exception}
use cortx_prvsnr.Exec.{Result, ok, err}
use cortx_prvsnr.Validator.{ContentCheck, unchecked, content_file_validator, Validator, Scheme}
use cortx_prvsnr.Validator.{file_validator, hash_sum_validator, dir_validator, nil, entry}
use cortx_prvsnr.Validator.{missing, check_content, validate_file, validate_dir, unless_empty}
use cortx_prvsnr.Validator.{validate, validate_scheme}
use cortx_prvsnr.Validator.Paths.{Files, join}
use cortx_prvsnr.Validator.Content.Refusals.{Raises, IsRefusal, refused, chain}
use cortx_prvsnr.Validator.Content.Refusals.{validate_content-IsRefusal}

-- No validator of hash sums among the parts.
unfoldable mutual
  pub is_hash_free : Validator → Bool
  is_hash_free (file_validator required check) = true
  is_hash_free (hash_sum_validator required hash_type hash_sum) = false
  is_hash_free (dir_validator required scheme empty) = all_hash_free scheme

  pub all_hash_free : Scheme → Bool
  all_hash_free nil = true
  all_hash_free (entry sub_path v scheme) = if is_hash_free v then all_hash_free scheme else false

module _ (F : Files) where
  content-IsRefusal :
      (check : ContentCheck) (path : String) → Raises IsRefusal (check_content F check path)
  unfolding check_content
  content-IsRefusal unchecked path = tt
  content-IsRefusal (content_file_validator scheme content_type) path =
      validate_content-IsRefusal F scheme content_type path

  missing-IsRefusal : (required : Bool) → Raises IsRefusal (missing required)
  unfolding missing
  missing-IsRefusal true = refused _
  missing-IsRefusal false = tt

  either :
      (b : Bool) (r s : Result (Unit {0}))
      → Raises IsRefusal r
      → Raises IsRefusal s
      → Raises IsRefusal (if b then r else s)
  either true r s h k = h
  either false r s h k = k

  file-IsRefusal :
      (required : Bool) (check : ContentCheck) (path : String)
      → Raises IsRefusal (validate_file F required check path)
  unfolding validate_file
  file-IsRefusal required check path =
      either (F.exists path) _ _
        (either (F.is_file path) _ _ (content-IsRefusal check path) (refused _))
        (missing-IsRefusal required)

  dir-IsRefusal :
      (required : Bool) (inside : Result (Unit {0})) (path : String)
      → Raises IsRefusal inside
      → Raises IsRefusal (validate_dir F required inside path)
  unfolding validate_dir
  dir-IsRefusal required inside path h =
      either (F.exists path) _ _ (either (F.is_dir path) _ _ h (refused _))
        (missing-IsRefusal required)

  inside-IsRefusal :
      (empty : Bool) (path : String) (inside : Result (Unit {0}))
      → Raises IsRefusal inside
      → Raises IsRefusal (unless_empty F empty path inside)
  unfolding unless_empty
  inside-IsRefusal empty path inside h =
      either (empty && not (F.is_occupied path)) (ok tt) inside tt h

  mutual
    unfolding validate is_hash_free

    validate-IsRefusal :
        (v : Validator) (path : String)
        → is_hash_free v ≡ true
        → Raises IsRefusal (validate F v path)
    validate-IsRefusal (file_validator required check) path h = file-IsRefusal required check path
    validate-IsRefusal (hash_sum_validator required hash_type hash_sum) path h = ground arith
    validate-IsRefusal (dir_validator required nil empty) path h =
        dir-IsRefusal required (ok tt) path tt
    validate-IsRefusal (dir_validator required (entry sub_path v scheme) empty) path h =
        let s = entry sub_path v scheme in
        dir-IsRefusal required _ path (
          inside-IsRefusal empty path _
            (validate_scheme-IsRefusal (entry sub_path v scheme) path h))

    validate_scheme-IsRefusal :
        (scheme : Scheme) (path : String)
        → all_hash_free scheme ≡ true
        → Raises IsRefusal (validate_scheme F scheme path)
    validate_scheme-IsRefusal nil path h = tt
    validate_scheme-IsRefusal (entry sub_path v scheme) path h =
        elim (Bool-cases (is_hash_free v)) [
          | inr other ↦ ground arith
          | inl free ↦
              chain IsRefusal _ _ (validate-IsRefusal v (join path sub_path) free)
                (λ _. validate_scheme-IsRefusal scheme path (rw free at h))
        ]

  raised : (r : Result (Unit {0})) (e : Exception) → Raises IsRefusal r → r ≡ err e → IsRefusal e
  raised (ok u) e h p = ground arith
  raised (err x) e h p = let same : x ≡ e = ground arith in rw same at h

  -- Where no hash sums are asked for, and the queries of paths (existence, kind, listing) raise
  -- nothing, validation that fails raises a `ValidationError` or the `ValueError` of a field that
  -- does not match its expression.
  pub validate_scheme-err :
      (scheme : Scheme) (path : String) (e : Exception)
      → all_hash_free scheme ≡ true
      → validate_scheme F scheme path ≡ err e
      → IsRefusal e
  validate_scheme-err scheme path e free h =
      raised (validate_scheme F scheme path) e (validate_scheme-IsRefusal scheme path free) h
