-- ===== src/Validator/Content/Laws.antt =====
-- The files that `ContentFileValidator` accepts.
use cortx_prvsnr.Prelude.{String, ◌≡◌, refl, ap, arith}
use cortx_prvsnr.Exec.{Result, ok, err}
use cortx_prvsnr.Json.{Json, text, array, object, Fields, null, boolean, number}
use cortx_prvsnr.Validator.Paths.{Files, ContentType}
use cortx_prvsnr.Validator.Content.{
  ContentScheme, release_info, third_party_release_info, from_args, reraised, loaded,
  validate_content,
}
use cortx_prvsnr.Validator.Content.Release.{
  ReleaseInfo, init_release_info-ok, init_release_info-ReleaseInfo,
}
use cortx_prvsnr.Validator.Content.ThirdParty.{
  ThirdPartyInfo, init_third_party-ok, init_third_party-ThirdPartyInfo,
}

module _ (F : Files) where
  open F use {load}

  -- What a release file of each kind has to hold.
  unfoldable pub HoldsRelease : ContentScheme → Fields → Type 0
  HoldsRelease release_info fs = ReleaseInfo F fs
  HoldsRelease third_party_release_info fs = ThirdPartyInfo F fs

  from_args-ok :
      (scheme : ContentScheme) (content : Json)
      → from_args F scheme content ≡ ok tt
      → (fs : Fields) × (content ≡ object fs) × HoldsRelease scheme fs
  unfolding from_args HoldsRelease
  from_args-ok release_info (object fs) h = (fs, refl, init_release_info-ok F fs h)
  from_args-ok third_party_release_info (object fs) h = (fs, refl, init_third_party-ok F fs h)
  from_args-ok release_info null h = ground arith
  from_args-ok release_info (boolean b) h = ground arith
  from_args-ok release_info (number n) h = ground arith
  from_args-ok release_info (text s) h = ground arith
  from_args-ok release_info (array vs) h = ground arith
  from_args-ok third_party_release_info null h = ground arith
  from_args-ok third_party_release_info (boolean b) h = ground arith
  from_args-ok third_party_release_info (number n) h = ground arith
  from_args-ok third_party_release_info (text s) h = ground arith
  from_args-ok third_party_release_info (array vs) h = ground arith

  from_args-HoldsRelease :
      (scheme : ContentScheme) (fs : Fields)
      → HoldsRelease scheme fs
      → from_args F scheme (object fs) ≡ ok tt
  unfolding from_args HoldsRelease
  from_args-HoldsRelease release_info fs r = init_release_info-ReleaseInfo F fs r
  from_args-HoldsRelease third_party_release_info fs r = init_third_party-ThirdPartyInfo F fs r

  reraised-ok : (r : Result (Unit {0})) → reraised F r ≡ ok tt → r ≡ ok tt
  unfolding reraised
  reraised-ok (ok u) h = h
  reraised-ok (err e) h = ground arith

  -- The file is loaded, and holds what a release file of the kind has to hold.
  unfoldable pub HasContent : ContentScheme → ContentType → String → Type 0
  HasContent scheme content_type path =
      (fs : Fields) × (load content_type path ≡ ok (object fs)) × HoldsRelease scheme fs

  pub validate_content-ok :
      (scheme : ContentScheme) (content_type : ContentType) (path : String)
      → validate_content F scheme content_type path ≡ ok tt
      → HasContent scheme content_type path
  unfolding validate_content loaded HasContent
  validate_content-ok scheme content_type path h = split (load content_type path) h
    where
      split :
          (r : Result Json)
          → loaded F scheme r ≡ ok tt
          → (fs : Fields) × (r ≡ ok (object fs)) × HoldsRelease scheme fs
      split (err e) p = ground arith
      split (ok content) p =
          let (fs, is_fs, holds) = from_args-ok scheme content (reraised-ok _ p) in
          (fs, ap ok is_fs, holds)

  pub validate_content-HasContent :
      (scheme : ContentScheme) (content_type : ContentType) (path : String)
      → HasContent scheme content_type path
      → validate_content F scheme content_type path ≡ ok tt
  unfolding validate_content loaded reraised HasContent
  validate_content-HasContent scheme content_type path (fs, is_fs, holds) =
      rw (validate_content, is_fs, from_args-HoldsRelease scheme fs holds)
