-- ===== src/Validator/Content/Refusals.antt =====
-- The exceptions that leave `ContentFileValidator`.
use cortx_prvsnr.Prelude.{String, Bool, true, false, Option, none, some}
use cortx_prvsnr.Errors.{Exception, validation_error, value_error, type_error}
use cortx_prvsnr.Exec.{Result, ok, err}
use cortx_prvsnr.Fallible.{◌>>=◌}
use cortx_prvsnr.Json.{Json, text, array, object, Fields, null, boolean, number}
use cortx_prvsnr.Validator.Paths.{Files, ContentType}
use cortx_prvsnr.Validator.Content.{ContentScheme, release_info, third_party_release_info}
use cortx_prvsnr.Validator.Content.{validate_content, loaded, reraised, from_type_error, from_args}
use cortx_prvsnr.Validator.Content.{given, an_str, a_list, a_dict, matching, optional_build, find}
use cortx_prvsnr.Validator.Content.{init_release_info, init_third_party, to_str}
use cortx_prvsnr.Validator.Content.{is_version, is_build}

-- What is raised, if anything, is one of these.
data OneOf : Exception → Type 0 where
  invalid : (m : String) → OneOf (validation_error m)
  mismatch : OneOf (value_error "must match regex")
  mistyped : (m : String) → OneOf (type_error m)

abbrev pub Raises : {A : Type 0} → (Exception → Type 0) → Result A → Type 0
Raises P (ok a) = Unit
Raises P (err e) = P e

-- A `ValidationError`, or the `ValueError` that attrs raises for a field that does not match its
-- expression, and no other `ValueError`.
pub data IsRefusal : Exception → Type 0 where
  refused : (m : String) → IsRefusal (validation_error m)
  unmatched : IsRefusal (value_error "must match regex")

pub chain :
    {A B : Type 0} (P : Exception → Type 0) (r : Result A) (next : A → Result B)
    → Raises P r
    → ((a : A) → Raises P (next a))
    → Raises P (r >>= next)
chain P (ok a) next first rest = rest a
chain P (err e) next first rest = first

given-OneOf : (key : String) (fs : Fields) → Raises OneOf (given key fs)
unfolding given
given-OneOf key fs = split (find key fs)
  where
    split :
        (found : Option Json)
        → Raises OneOf (elim found [
          | some w ↦ ok w
          | none ↦ err (type_error "__init__() missing a required argument")
        ])
    split none = mistyped _
    split (some w) = tt

an_str-OneOf : (v : Json) → Raises OneOf (an_str v)
unfolding an_str
an_str-OneOf (text s) = tt
an_str-OneOf null = mistyped _
an_str-OneOf (boolean b) = mistyped _
an_str-OneOf (number n) = mistyped _
an_str-OneOf (array vs) = mistyped _
an_str-OneOf (object fs) = mistyped _

a_list-OneOf : (v : Json) → Raises OneOf (a_list v)
unfolding a_list
a_list-OneOf (array vs) = tt
a_list-OneOf null = mistyped _
a_list-OneOf (boolean b) = mistyped _
a_list-OneOf (number n) = mistyped _
a_list-OneOf (text s) = mistyped _
a_list-OneOf (object fs) = mistyped _

a_dict-OneOf : (v : Json) → Raises OneOf (a_dict v)
unfolding a_dict
a_dict-OneOf (object fs) = tt
a_dict-OneOf null = mistyped _
a_dict-OneOf (boolean b) = mistyped _
a_dict-OneOf (number n) = mistyped _
a_dict-OneOf (text s) = mistyped _
a_dict-OneOf (array vs) = mistyped _

matching-OneOf : (b : Bool) → Raises OneOf (matching b)
unfolding matching
matching-OneOf true = tt
matching-OneOf false = mismatch

module _ (F : Files) where
  build-OneOf : (found : Option Json) → Raises OneOf (optional_build F found)
  unfolding optional_build
  build-OneOf none = tt
  build-OneOf (some null) = tt
  build-OneOf (some (boolean b)) = matching-OneOf _
  build-OneOf (some (number n)) = matching-OneOf _
  build-OneOf (some (text s)) = matching-OneOf _
  build-OneOf (some (array vs)) = matching-OneOf _
  build-OneOf (some (object fs)) = matching-OneOf _

  release_info-OneOf : (fs : Fields) → Raises OneOf (init_release_info F fs)
  unfolding init_release_info
  release_info-OneOf fs = chain OneOf _ _ (given-OneOf "NAME" fs) λ name.
      chain OneOf _ _ (given-OneOf "VERSION" fs) λ version.
        chain OneOf _ _ (given-OneOf "BUILD" fs) λ build.
          chain OneOf _ _ (given-OneOf "OS" fs) λ os.
            chain OneOf _ _ (given-OneOf "COMPONENTS" fs) λ parts.
              chain OneOf _ _ (an_str-OneOf name) λ _.
                chain OneOf _ _ (matching-OneOf (is_version (to_str F version))) λ _.
                  chain OneOf _ _ (matching-OneOf (is_build (to_str F build)))
                    λ _. chain OneOf _ _ (an_str-OneOf os) λ _. a_list-OneOf parts

  third_party-OneOf : (fs : Fields) → Raises OneOf (init_third_party F fs)
  unfolding init_third_party
  third_party-OneOf fs = chain OneOf _ _ (given-OneOf "NAME" fs) λ name.
      chain OneOf _ _ (given-OneOf "VERSION" fs) λ version.
        chain OneOf _ _ (given-OneOf "OS" fs) λ os.
          chain OneOf _ _ (given-OneOf "THIRD_PARTY_VERSION" fs) λ _.
            chain OneOf _ _ (given-OneOf "THIRD_PARTY_COMPONENTS" fs) λ parts.
              chain OneOf _ _ (an_str-OneOf name) λ _.
                chain OneOf _ _ (matching-OneOf (is_version (to_str F version))) λ _.
                  chain OneOf _ _ (an_str-OneOf os)
                    λ _. chain OneOf _ _ (a_dict-OneOf parts) λ _. build-OneOf (find "BUILD" fs)

  from_args-OneOf :
      (scheme : ContentScheme) (content : Json) → Raises OneOf (from_args F scheme content)
  unfolding from_args
  from_args-OneOf release_info (object fs) = release_info-OneOf fs
  from_args-OneOf third_party_release_info (object fs) = third_party-OneOf fs
  from_args-OneOf release_info (array vs) = mistyped _
  from_args-OneOf third_party_release_info (array vs) = mistyped _
  from_args-OneOf release_info null = invalid _
  from_args-OneOf release_info (boolean b) = invalid _
  from_args-OneOf release_info (number n) = invalid _
  from_args-OneOf release_info (text s) = invalid _
  from_args-OneOf third_party_release_info null = invalid _
  from_args-OneOf third_party_release_info (boolean b) = invalid _
  from_args-OneOf third_party_release_info (number n) = invalid _
  from_args-OneOf third_party_release_info (text s) = invalid _

  reraised-IsRefusal : (r : Result (Unit {0})) → Raises OneOf r → Raises IsRefusal (reraised F r)
  unfolding reraised from_type_error
  reraised-IsRefusal (ok u) h = tt
  reraised-IsRefusal (err e) (invalid m) = refused m
  reraised-IsRefusal (err e) mismatch = unmatched
  reraised-IsRefusal (err e) (mistyped m) = refused _

  loaded-IsRefusal :
      (scheme : ContentScheme) (r : Result Json) → Raises IsRefusal (loaded F scheme r)
  unfolding loaded
  loaded-IsRefusal scheme (err e) = refused _
  loaded-IsRefusal scheme (ok content) = reraised-IsRefusal _ (from_args-OneOf scheme content)

  pub validate_content-IsRefusal :
      (scheme : ContentScheme) (content_type : ContentType) (path : String)
      → Raises IsRefusal (validate_content F scheme content_type path)
  unfolding validate_content
  validate_content-IsRefusal scheme content_type path = loaded-IsRefusal scheme _
