-- ===== src/Validator/Content/ThirdParty.antt =====
-- `THIRD_PARTY_RELEASE.INFO` files that `ThirdPartyReleaseInfoContentScheme` accepts.
use cortx_prvsnr.Prelude.{String, ◌≡◌, refl, true, Option, none, some}
use cortx_prvsnr.Prelude.{◌⊎◌, inl, inr}
use cortx_prvsnr.Exec.{ok}
use cortx_prvsnr.Fallible.{>>=-ok}
use cortx_prvsnr.Json.{Json, text, array, object, Fields, null, boolean, number}
use cortx_prvsnr.Validator.Paths.{Files}
use cortx_prvsnr.Validator.Content.{
  find, given, an_str, a_dict, matching, to_str, init_third_party, optional_build, is_version,
  is_build,
}
use cortx_prvsnr.Validator.Content.Release.{given-ok, an_str-ok, a_dict-ok, matching-ok}

module _ (F : Files) where
  -- What a `THIRD_PARTY_RELEASE.INFO` file has to hold. Its `BUILD` may be absent.
  pub record ThirdPartyInfo (fs : Fields) : Type 0 where
    pub name : (s : String) × (find "NAME" fs ≡ some (text s))
    pub version : (v : Json) × (find "VERSION" fs ≡ some v) × (is_version (to_str F v) ≡ true)
    pub os : (s : String) × (find "OS" fs ≡ some (text s))
    pub third_version : (v : Json) × (find "THIRD_PARTY_VERSION" fs ≡ some v)
    pub third_parts : (d : Fields) × (find "THIRD_PARTY_COMPONENTS" fs ≡ some (object d))
    pub build :
        (find "BUILD" fs ≡ none)
        ⊎ (find "BUILD" fs ≡ some null)
        ⊎ ((v : Json) × (find "BUILD" fs ≡ some v) × (is_build (to_str F v) ≡ true))

  optional_build-ok :
      (found : Option Json)
      → optional_build F found ≡ ok tt
      → (found ≡ none)
        ⊎ (found ≡ some null)
        ⊎ ((v : Json) × (found ≡ some v) × (is_build (to_str F v) ≡ true))
  unfolding optional_build
  optional_build-ok none h = inl refl
  optional_build-ok (some null) h = inr (inl refl)
  optional_build-ok (some (boolean b)) h = inr (inr (boolean b, refl, matching-ok _ h))
  optional_build-ok (some (number n)) h = inr (inr (number n, refl, matching-ok _ h))
  optional_build-ok (some (text s)) h = inr (inr (text s, refl, matching-ok _ h))
  optional_build-ok (some (array vs)) h = inr (inr (array vs, refl, matching-ok _ h))
  optional_build-ok (some (object fs)) h = inr (inr (object fs, refl, matching-ok _ h))

  matched_build : (v : Json) → is_build (to_str F v) ≡ true → optional_build F (some v) ≡ ok tt
  unfolding optional_build matching
  matched_build null h = refl
  matched_build (boolean b) h = rw h
  matched_build (number n) h = rw h
  matched_build (text s) h = rw h
  matched_build (array vs) h = rw h
  matched_build (object fs) h = rw h

  built :
      (found : Option Json)
      → ((found ≡ none)
          ⊎ (found ≡ some null)
          ⊎ ((v : Json) × (found ≡ some v) × (is_build (to_str F v) ≡ true)))
      → optional_build F found ≡ ok tt
  unfolding optional_build
  built found (inl e) = rw (optional_build, e)
  built found (inr (inl e)) = rw (optional_build, e)
  built found (inr (inr (v, e, m))) = rw e (matched_build v m)

  pub init_third_party-ok : (fs : Fields) → init_third_party F fs ≡ ok tt → ThirdPartyInfo fs
  unfolding init_third_party
  init_third_party-ok fs h =
      let (name, g₁, h₁) = >>=-ok (given "NAME" fs) _ tt h in
      let (version, g₂, h₂) = >>=-ok (given "VERSION" fs) _ tt h₁ in
      let (os, g₃, h₃) = >>=-ok (given "OS" fs) _ tt h₂ in
      let (third, g₄, h₄) = >>=-ok (given "THIRD_PARTY_VERSION" fs) _ tt h₃ in
      let (parts, g₅, h₅) = >>=-ok (given "THIRD_PARTY_COMPONENTS" fs) _ tt h₄ in
      let (_, c₁, h₆) = >>=-ok (an_str name) _ tt h₅ in
      let (_, c₂, h₇) = >>=-ok (matching (is_version (to_str F version))) _ tt h₆ in
      let (_, c₃, h₈) = >>=-ok (an_str os) _ tt h₇ in
      let (_, c₄, h₉) = >>=-ok (a_dict parts) _ tt h₈ in
      let (s, is_s) = an_str-ok name c₁ in
      let (t, is_t) = an_str-ok os c₃ in
      let (d, is_d) = a_dict-ok parts c₄ in
      record {
        name = (s, rw is_s at (given-ok "NAME" fs name g₁));
        version = (version, given-ok "VERSION" fs version g₂, matching-ok _ c₂);
        os = (t, rw is_t at (given-ok "OS" fs os g₃));
        third_version = (third, given-ok "THIRD_PARTY_VERSION" fs third g₄);
        third_parts = (d, rw is_d at (given-ok "THIRD_PARTY_COMPONENTS" fs parts g₅));
        build = optional_build-ok (find "BUILD" fs) h₉;
      }

  pub init_third_party-ThirdPartyInfo :
      (fs : Fields) → ThirdPartyInfo fs → init_third_party F fs ≡ ok tt
  unfolding init_third_party given an_str a_dict matching
  init_third_party-ThirdPartyInfo fs r =
      let (s, at_name) = r.name in
      let (v, at_version, is_v) = r.version in
      let (o, at_os) = r.os in
      let (t, at_third) = r.third_version in
      let (d, at_parts) = r.third_parts in
      rw (init_third_party, given, at_name, at_version, at_os, at_third, at_parts, is_v)
        (built (find "BUILD" fs) r.build)
