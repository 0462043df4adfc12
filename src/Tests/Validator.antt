-- ===== src/Tests/Validator.antt =====
-- A small bundle of version 2, and a release file with a version that does not match.
use cortx_prvsnr.Prelude.{String, ◌≡◌, ◌↔◌, refl, Bool, true, false, List, [], ◌∷◌, ◌==◌}
use cortx_prvsnr.Prelude.{if◌then◌else◌}
use cortx_prvsnr.Errors.{value_error, os_error}
use cortx_prvsnr.Exec.{ok, err}
use cortx_prvsnr.Json.{Json, text, array, object, end, field, nil}
use cortx_prvsnr.Utils.Checksum.{md5}
use cortx_prvsnr.Validator.{Scheme, entry, validate, validate_scheme}
use cortx_prvsnr.Validator.{dir_validator, hash_sum_validator}
use cortx_prvsnr.Validator.{release_info_validator}
use cortx_prvsnr.Validator.Paths.{Files, yaml}
use cortx_prvsnr.Validator.Content.{release_info, validate_content, from_args}
use cortx_prvsnr.Validator.Content.Refusals.{IsRefusal}
use cortx_prvsnr.Validator.Conforms.{Conforms}
use cortx_prvsnr.Validator.Conforms.Laws.{validate-Conforms}
use cortx_prvsnr.Validator.Refusals.{validate_scheme-err, all_hash_free}
use cortx_prvsnr.Validator.Bundle.{bundle_scheme_ver2, repo_scheme}

abbrev release_of : String → Json
release_of version = object (
    field "NAME" (text "CORTX") (
      field "VERSION" (text version) (
        field "BUILD" (text "277")
          (field "OS" (text "centos") (field "COMPONENTS" (array nil) end)))))

abbrev among : List String → String → Bool
among [] p = false
among (q ∷ qs) p = let rest = among qs p in if q == p then true else rest

abbrev dirs : List String
dirs = "m/candidate/sw" ∷ "m/candidate/sw/cortx" ∷ "m/candidate/sw/cortx/repodata" ∷ []

abbrev regular : List String
regular =
    "m/candidate/RELEASE.INFO" ∷ "m/candidate/sw/cortx/CORTX_RELEASE.INFO"
    ∷ "m/candidate/sw/cortx/repodata/repomd.xml" ∷ []

-- The release files all have the same version.
abbrev pub mounted : String → Files
mounted version = record {
  exists = λ p. if among dirs p then true else among regular p;
  is_file = among regular;
  is_dir = among dirs;
  is_occupied = λ p. true;
  read_bytes = λ p. if among regular p then ok "data" else err (os_error p);
  load = λ content_type p. ok (release_of version);
  is_available = λ hash_type. true;
  digest = λ hash_type content. content;
  str = λ v. "";
}

accepted : validate_scheme (mounted "2.0.0") bundle_scheme_ver2 "m/candidate" ≡ ok tt
unfolding validate bundle_scheme_ver2 release_info_validator validate_content from_args
accepted = refl

validate-Conforms_example :
    (validate (mounted "2.0.0") (dir_validator true repo_scheme false) "m/candidate/sw/cortx"
      ≡ ok tt)
    ↔ Conforms (mounted "2.0.0") (dir_validator true repo_scheme false) "m/candidate/sw/cortx"
validate-Conforms_example =
    validate-Conforms (mounted "2.0.0") (dir_validator true repo_scheme false)
      "m/candidate/sw/cortx"

abbrev release_scheme : Scheme
release_scheme = entry "RELEASE.INFO" (release_info_validator release_info true yaml) Scheme.nil

refused :
    validate_scheme (mounted "2.0") release_scheme "m/candidate"
    ≡ err (value_error "must match regex")
unfolding validate release_info_validator validate_content from_args
refused = refl

free : all_hash_free release_scheme ≡ true
unfolding all_hash_free release_info_validator
free = refl

validate_scheme-err_example : IsRefusal (value_error "must match regex")
validate_scheme-err_example =
    validate_scheme-err (mounted "2.0") release_scheme "m/candidate"
      (value_error "must match regex") free refused

-- A file that is not required is not refused where it is missing, unless its hash sum is asked for.
missing_hash :
    validate (mounted "2.0.0") (hash_sum_validator false md5 "data") "m/candidate/none"
    ≡ err (os_error "m/candidate/none")
unfolding validate
missing_hash = refl
