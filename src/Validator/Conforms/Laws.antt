-- ===== src/Validator/Conforms/Laws.antt =====
-- What `validate` says of a tree of files.
use cortx_prvsnr.Prelude.{String, ◌≡◌, refl, true, false, ◌↔◌}
use cortx_prvsnr.Prelude.{inl, inr}
use cortx_prvsnr.Exec.{ok}
use cortx_prvsnr.Fallible.{>>=-ok}
use cortx_prvsnr.Validator.{Validator, Scheme}
use cortx_prvsnr.Validator.{file_validator, hash_sum_validator, dir_validator, nil, entry}
use cortx_prvsnr.Validator.{missing}
use cortx_prvsnr.Validator.{validate_dir, unless_empty}
use cortx_prvsnr.Validator.{validate, validate_scheme}
use cortx_prvsnr.Validator.Paths.{Files, join}
use cortx_prvsnr.Validator.Conforms.{
  Conforms, AllConform, a_file, hashed, absent_dir, empty_dir, filled_dir, no_more, and_more,
}
use cortx_prvsnr.Validator.Conforms.Parts.{
  validate_file-ok, file_accepted, hash_sum-ok, hash_sum_accepted, validate_dir-ok, unless_empty-ok,
  unless_empty-inside,
}

module _ (F : Files) where
  open F use {exists, is_file, is_dir, is_occupied, read_bytes, is_available, digest}

  mutual
    unfolding validate

    validate-ok : (v : Validator) (path : String) → validate F v path ≡ ok tt → Conforms F v path
    validate-ok (file_validator required check) path h =
        a_file (validate_file-ok F required check path h)
    validate-ok (hash_sum_validator required hash_type hash_sum) path h =
        hash_sum-ok F required hash_type hash_sum path h
    validate-ok (dir_validator required nil empty) path h =
        elim (validate_dir-ok F required (ok tt) path h) [
          | inl (gone, free) ↦ rw free (absent_dir gone)
          | inr (there, dir, _) ↦ filled_dir there dir no_more
        ]
    validate-ok (dir_validator required (entry sub_path v scheme) empty) path h =
        let inside = validate_scheme F (entry sub_path v scheme) path in
        elim (validate_dir-ok F required (unless_empty F empty path inside) path h) [
          | inl (gone, free) ↦ rw free (absent_dir gone)
          | inr (there, dir, i) ↦ elim (unless_empty-ok F empty path inside i) [
            | inl (may, none_there) ↦ rw may (empty_dir there dir none_there)
            | inr all ↦ filled_dir there dir (validate_scheme-ok (entry sub_path v scheme) path all)
          ]
        ]

    validate_scheme-ok :
        (scheme : Scheme) (path : String)
        → validate_scheme F scheme path ≡ ok tt
        → AllConform F scheme path
    validate_scheme-ok nil path h = no_more
    validate_scheme-ok (entry sub_path v scheme) path h =
        let (_, first, rest) = >>=-ok (validate F v (join path sub_path)) _ tt h in
        and_more (validate-ok v (join path sub_path) first) (validate_scheme-ok scheme path rest)

  mutual
    unfolding validate validate_dir unless_empty missing

    accepted : (v : Validator) (path : String) → Conforms F v path → validate F v path ≡ ok tt
    accepted (file_validator required check) path (a_file c) = file_accepted F required check path c
    accepted (hash_sum_validator required hash_type hash_sum) path
          (hashed {content = content} file there is_content same) =
        hash_sum_accepted F required hash_type hash_sum path content file there is_content same
    accepted (dir_validator false nil empty) path (absent_dir gone) =
        rw (validate, validate_dir, gone)
    accepted (dir_validator false (entry sub_path v scheme) empty) path (absent_dir gone) =
        rw (validate, validate_dir, gone)
    accepted (dir_validator required nil true) path (empty_dir there dir none_there) =
        rw (validate, validate_dir, there, dir)
    accepted (dir_validator required (entry sub_path v scheme) true) path
          (empty_dir there dir none_there) =
        rw (validate, validate_dir, unless_empty, there, dir, none_there)
    accepted (dir_validator required nil empty) path (filled_dir there dir all) =
        rw (validate, validate_dir, there, dir)
    accepted (dir_validator required (entry sub_path v scheme) empty) path
          (filled_dir there dir all) =
        rw (validate, validate_dir, there, dir)
          (unless_empty-inside F empty path (validate_scheme F (entry sub_path v scheme) path)
            (all_accepted (entry sub_path v scheme) path all))

    all_accepted :
        (scheme : Scheme) (path : String)
        → AllConform F scheme path
        → validate_scheme F scheme path ≡ ok tt
    all_accepted nil path no_more = refl
    all_accepted (entry sub_path v scheme) path (and_more c all) =
        rw (accepted v (join path sub_path) c) (all_accepted scheme path all)

  -- A validator accepts a path exactly where the tree below the path is as it asks for: files and
  -- directories that are required are there, what is there has the right kind, directories
  -- without leave to be empty have what their scheme asks for, release files hold the fields of
  -- their kind, and files with a hash sum have that sum. This is what the code accepts, which is not
  -- what its comments say in two cases: a directory without a scheme is accepted also when it is
  -- empty and `empty` is false, and a file with a hash sum has to be there also when it is not
  -- required.
  pub validate-Conforms :
      (v : Validator) (path : String) → (validate F v path ≡ ok tt) ↔ Conforms F v path
  validate-Conforms v path = (validate-ok v path, accepted v path)

  pub validate_scheme-AllConform :
      (scheme : Scheme) (path : String)
      → (validate_scheme F scheme path ≡ ok tt) ↔ AllConform F scheme path
  validate_scheme-AllConform scheme path =
      (validate_scheme-ok scheme path, all_accepted scheme path)
