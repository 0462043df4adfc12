-- ===== src/Validator/Content/Release.antt =====
-- `RELEASE.INFO` files that `ReleaseInfoContentScheme` accepts.
use cortx_prvsnr.Prelude.{String, ◌≡◌, refl, Bool, true, false, Option, none, some, arith}
use cortx_prvsnr.Errors.{type_error}
use cortx_prvsnr.Exec.{ok, err}
use cortx_prvsnr.Fallible.{>>=-ok}
use cortx_prvsnr.Json.{Json, text, array, object, Fields, Items, null, boolean, number}
use cortx_prvsnr.Validator.Paths.{Files}
use cortx_prvsnr.Validator.Content.{
  find, given, an_str, a_list, a_dict, matching, to_str, init_release_info, is_version, is_build,
}

pub given-ok : (key : String) (fs : Fields) (v : Json) → given key fs ≡ ok v → find key fs ≡ some v
unfolding given
given-ok key fs v h = split (find key fs) h
  where
    split :
        (found : Option Json)
        → elim found [
          | some w ↦ ok w
          | none ↦ err (type_error "__init__() missing a required argument")
        ]
          ≡ ok v
        → found ≡ some v
    split none p = ground arith
    split (some w) p = ground arith

pub an_str-ok : (v : Json) → an_str v ≡ ok tt → (s : String) × (v ≡ text s)
unfolding an_str
an_str-ok (text s) h = (s, refl)
an_str-ok null h = ground arith
an_str-ok (boolean b) h = ground arith
an_str-ok (number n) h = ground arith
an_str-ok (array vs) h = ground arith
an_str-ok (object fs) h = ground arith

pub a_list-ok : (v : Json) → a_list v ≡ ok tt → (vs : Items) × (v ≡ array vs)
unfolding a_list
a_list-ok (array vs) h = (vs, refl)
a_list-ok null h = ground arith
a_list-ok (boolean b) h = ground arith
a_list-ok (number n) h = ground arith
a_list-ok (text s) h = ground arith
a_list-ok (object fs) h = ground arith

pub a_dict-ok : (v : Json) → a_dict v ≡ ok tt → (fs : Fields) × (v ≡ object fs)
unfolding a_dict
a_dict-ok (object fs) h = (fs, refl)
a_dict-ok null h = ground arith
a_dict-ok (boolean b) h = ground arith
a_dict-ok (number n) h = ground arith
a_dict-ok (text s) h = ground arith
a_dict-ok (array vs) h = ground arith

pub matching-ok : (b : Bool) → matching b ≡ ok tt → b ≡ true
unfolding matching
matching-ok true h = refl
matching-ok false h = ground arith

module _ (F : Files) where
  -- What a `RELEASE.INFO` file has to hold.
  pub record ReleaseInfo (fs : Fields) : Type 0 where
    pub name : (s : String) × (find "NAME" fs ≡ some (text s))
    pub version : (v : Json) × (find "VERSION" fs ≡ some v) × (is_version (to_str F v) ≡ true)
    pub build : (v : Json) × (find "BUILD" fs ≡ some v) × (is_build (to_str F v) ≡ true)
    pub os : (s : String) × (find "OS" fs ≡ some (text s))
    pub parts : (vs : Items) × (find "COMPONENTS" fs ≡ some (array vs))

  pub init_release_info-ok : (fs : Fields) → init_release_info F fs ≡ ok tt → ReleaseInfo fs
  unfolding init_release_info
  init_release_info-ok fs h =
      let (name, g₁, h₁) = >>=-ok (given "NAME" fs) _ tt h in
      let (version, g₂, h₂) = >>=-ok (given "VERSION" fs) _ tt h₁ in
      let (build, g₃, h₃) = >>=-ok (given "BUILD" fs) _ tt h₂ in
      let (os, g₄, h₄) = >>=-ok (given "OS" fs) _ tt h₃ in
      let (parts, g₅, h₅) = >>=-ok (given "COMPONENTS" fs) _ tt h₄ in
      let (_, c₁, h₆) = >>=-ok (an_str name) _ tt h₅ in
      let (_, c₂, h₇) = >>=-ok (matching (is_version (to_str F version))) _ tt h₆ in
      let (_, c₃, h₈) = >>=-ok (matching (is_build (to_str F build))) _ tt h₇ in
      let (_, c₄, h₉) = >>=-ok (an_str os) _ tt h₈ in
      let (s, is_s) = an_str-ok name c₁ in
      let (t, is_t) = an_str-ok os c₄ in
      let (vs, is_vs) = a_list-ok parts h₉ in
      record {
        name = (s, rw is_s at (given-ok "NAME" fs name g₁));
        version = (version, given-ok "VERSION" fs version g₂, matching-ok _ c₂);
        build = (build, given-ok "BUILD" fs build g₃, matching-ok _ c₃);
        os = (t, rw is_t at (given-ok "OS" fs os g₄));
        parts = (vs, rw is_vs at (given-ok "COMPONENTS" fs parts g₅));
      }

  pub init_release_info-ReleaseInfo :
      (fs : Fields) → ReleaseInfo fs → init_release_info F fs ≡ ok tt
  unfolding init_release_info given an_str a_list matching
  init_release_info-ReleaseInfo fs r =
      let (s, at_name) = r.name in
      let (v, at_version, is_v) = r.version in
      let (b, at_build, is_b) = r.build in
      let (o, at_os) = r.os in
      let (vs, at_parts) = r.parts in
      rw (init_release_info, given, at_name, at_version, at_build, at_os, at_parts, is_v, is_b)
