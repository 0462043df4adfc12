-- ===== src/Validator/Content.antt =====
-- The content schemes of `RELEASE.INFO` files and `ContentFileValidator`
-- (commands/validator/validator.py).
pub mod Release
pub mod ThirdParty
pub mod Laws
pub mod Refusals
use Prim.Native.Char.{code}
use cortx_prvsnr.Prelude.{ℕ, String, Bool, true, false, ◌&&◌, not, Option, none, some, ◌==◌}
use cortx_prvsnr.Prelude.{if◌then◌else◌, ltb, eqb}
use cortx_prvsnr.Prelude.Text.{is_empty}
use cortx_prvsnr.Errors.{Exception, type_error, value_error, validation_error}
use cortx_prvsnr.Exec.{Result, ok, err}
use cortx_prvsnr.Fallible.{◌>>=◌}
use cortx_prvsnr.Json.{Json, text, array, object, Fields, end, field}
use cortx_prvsnr.Json.{null}
use cortx_prvsnr.Utils.Version.{has, before, after}
use cortx_prvsnr.Validator.Paths.{Files, ContentType}

-- The subclasses of `FileContentScheme`.
pub data ContentScheme : Type 0 where
  release_info third_party_release_info : ContentScheme

-- `data[key]` where the key is there; a repeated key has its last value.
unfoldable pub find : String → Fields → Option Json
find key end = none
find key (field k v fs) =
    let rest = find key fs in
    elim rest [ some w ↦ some w | none ↦ if k == key then some v else none ]

is_digit : ℕ → Bool
is_digit c = ltb 47 c && ltb c 58

all_digits : String → Bool
unfolding is_digit
all_digits String.[] = true
all_digits (String.◌∷◌ c s) = if is_digit (code c) then all_digits s else false

-- `^[0-9]+$`, as `fullmatch` reads it.
unfoldable pub is_build : String → Bool
unfolding is_empty all_digits
is_build s = not (is_empty s) && all_digits s

-- `^[0-9]+\.[0-9]+\.[0-9]+$`
unfoldable pub is_version : String → Bool
unfolding is_build has before after
is_version s =
    let first = before (eqb b'.') s in
    let rest = after (eqb b'.') s in
    has b'.' s
    && has b'.' rest
    && is_build first
    && is_build (before (eqb b'.') rest)
    && is_build (after (eqb b'.') rest)

-- The checks of an attribute: an instance of `str`, of `list`, of `dict`, or a match.
pub an_str : Json → Result (Unit {0})
an_str (text s) = ok tt
an_str _ = err (type_error "must be <class 'str'>")

pub a_list : Json → Result (Unit {0})
a_list (array vs) = ok tt
a_list _ = err (type_error "must be <class 'list'>")

pub a_dict : Json → Result (Unit {0})
a_dict (object fs) = ok tt
a_dict _ = err (type_error "must be <class 'dict'>")

pub matching : Bool → Result (Unit {0})
matching true = ok tt
matching false = err (value_error "must match regex")

-- A call without a required argument.
pub given : String → Fields → Result Json
unfolding find
given key fs = elim (find key fs) [
  | some v ↦ ok v
  | none ↦ err (type_error "__init__() missing a required argument")
]

module _ (F : Files) where
  open F use {str, load}

  -- `str(value)`
  unfoldable pub to_str : Json → String
  to_str (text s) = s
  to_str v = str v

  -- The `BUILD` of a third party file may be absent or `None`.
  optional_build : Option Json → Result (Unit {0})
  unfolding to_str is_build matching
  optional_build none = ok tt
  optional_build (some null) = ok tt
  optional_build (some v) = matching (is_build (to_str v))

  -- `ReleaseInfoContentScheme(**data)`: the arguments, then the validators in order.
  unfoldable pub init_release_info : Fields → Result (Unit {0})
  unfolding given an_str a_list matching is_version is_build to_str
  init_release_info fs = given "NAME" fs >>= λ name. given "VERSION" fs >>= λ version.
      given "BUILD" fs >>= λ build. given "OS" fs >>= λ os. given "COMPONENTS" fs >>= λ parts.
      an_str name >>= λ _. matching (is_version (to_str version)) >>= λ _.
      matching (is_build (to_str build)) >>= λ _. an_str os >>= λ _. a_list parts

  -- `ThirdPartyReleaseInfoContentScheme(**data)`
  unfoldable pub init_third_party : Fields → Result (Unit {0})
  unfolding given an_str a_dict matching is_version optional_build to_str find
  init_third_party fs = given "NAME" fs >>= λ name. given "VERSION" fs >>= λ version.
      given "OS" fs >>= λ os. given "THIRD_PARTY_VERSION" fs >>= λ _.
      given "THIRD_PARTY_COMPONENTS" fs >>= λ parts. an_str name >>= λ _.
      matching (is_version (to_str version)) >>= λ _.
      an_str os >>= λ _. a_dict parts >>= λ _. optional_build (find "BUILD" fs)

  -- `from_args(data)`: attributes that the class does not have are left aside. The keyword
  -- arguments that both classes require make `cls(*data)` fail for every list.
  unfoldable pub from_args : ContentScheme → Json → Result (Unit {0})
  unfolding init_release_info init_third_party
  from_args release_info (object fs) = init_release_info fs
  from_args third_party_release_info (object fs) = init_third_party fs
  from_args scheme (array vs) = err (type_error "missing required keyword-only arguments")
  from_args scheme v = err (validation_error "Unexpected content type")

  -- `except TypeError`
  from_type_error : Exception → Exception
  from_type_error (type_error m) = validation_error "File content validation is failed"
  from_type_error e = e

  reraised : Result (Unit {0}) → Result (Unit {0})
  unfolding from_type_error
  reraised (ok u) = ok u
  reraised (err e) = err (from_type_error e)

  loaded : ContentScheme → Result Json → Result (Unit {0})
  unfolding from_args reraised
  loaded scheme (err e) = err (validation_error "Failed to load the content")
  loaded scheme (ok content) = reraised (from_args scheme content)

  -- `ContentFileValidator.validate(path)`
  unfoldable pub validate_content : ContentScheme → ContentType → String → Result (Unit {0})
  unfolding loaded
  validate_content scheme content_type path = loaded scheme (load content_type path)
