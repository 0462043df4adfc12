-- ===== src/UpgradeRepo/Compatible.antt =====
-- What `CompatibilityValidator.validate` says of the installed packages.
use cortx_prvsnr.Prelude.{String, ◌≡◌, refl, Bool, true, false, some, arith}
use cortx_prvsnr.Prelude.{List, [], ◌∷◌, ◌++◌, ◌⊎◌, inl, inr, if◌then◌else◌}
use cortx_prvsnr.Prelude.Text.{is_empty}
use cortx_prvsnr.Prelude.Dict.{Dict, lookup}
use cortx_prvsnr.Errors.{validation_error}
use cortx_prvsnr.Exec.{Exec, Result, ok, err, pure, continue, handle, raise, lift, >>=-eq-ok}
use cortx_prvsnr.Fallible.{>>=-ok}
use cortx_prvsnr.UpgradeRepo.{Ops}
use cortx_prvsnr.UpgradeRepo.Packages.{
  Package, parse_packages, names_of, judged, message, violation_of, violation, violations,
}
use cortx_prvsnr.UpgradeRepo.Compatibility.{concluded, compared, validate_compatibility}
use cortx_prvsnr.UpgradeRepo.Compatibility.{release_violation}

module _ (O : Ops) where
  open O use {World, satisfies, yum_installed}

  -- The installed version of a package satisfies the constraint on it, if there are both.
  pub Fits : Dict String → String → Package → Type 0
  Fits installed name p =
      (c v : String)
      → p.compatibility ≡ some c
      → lookup name installed ≡ some v
      → satisfies v c ≡ ok true

  unfoldable pub AllFit : Dict String → Dict Package → Type 0
  AllFit installed [] = Unit
  AllFit installed ((name, p) ∷ d) = Fits installed name p × AllFit installed d

  judged-empty : (name v : String) (r : Result Bool) → judged O name v r ≡ ok [] → r ≡ ok true
  unfolding judged message
  judged-empty name v (ok true) h = refl
  judged-empty name v (ok false) h = ground arith
  judged-empty name v (err e) h = ground arith

  violation-Fits :
      (installed : Dict String) (name : String) (p : Package)
      → violation O installed name p ≡ ok []
      → Fits installed name p
  unfolding violation violation_of Fits
  violation-Fits installed name p h c v constrained there =
      judged-empty name v (satisfies v c) (rw (violation, constrained, there) at h)

  append-empty : (xs ys : List String) → xs ++ ys ≡ [] → (xs ≡ []) × (ys ≡ [])
  append-empty [] ys h = (refl, h)
  append-empty (x ∷ xs) ys h = ground arith

  violations-AllFit :
      (installed : Dict String) (ps : Dict Package)
      → violations O installed ps ≡ ok []
      → AllFit installed ps
  unfolding violations AllFit
  violations-AllFit installed [] h = tt
  violations-AllFit installed ((name, p) ∷ d) h =
      let (ms, here, h₁) = >>=-ok (violation O installed name p) _ [] h in
      let (rest, there, h₂) = >>=-ok (violations O installed d) _ [] h₁ in
      let (no_ms, no_rest) = append-empty ms rest (ground arith) in
      (
        violation-Fits installed name p (rw no_ms at here),
        violations-AllFit installed d (rw no_rest at there),
      )

  concluded-ok : (ms : List String) → concluded O ms ≡ ok tt → ms ≡ []
  unfolding concluded
  concluded-ok [] h = refl
  concluded-ok (m ∷ ms) h = ground arith

  compared-AllFit :
      (ps : Dict Package) (installed : Dict String) (w t : World)
      → compared O ps installed w ≡ (ok tt, t)
      → AllFit installed ps
  unfolding compared
  compared-AllFit ps installed w t h =
      let (first, u, _, h₁) = >>=-eq-ok (release_violation O ps) _ w h in
      let (others, v, found, h₂) = >>=-eq-ok (lift (violations O installed ps)) _ u h₁ in
      let ended : concluded O (first ++ others) ≡ ok tt = ground arith in
      let none_left : first ++ others ≡ [] = concluded-ok (first ++ others) ended in
      let (_, no_others) = append-empty first others none_left in
      let all : violations O installed ps ≡ ok others = ground arith in
      violations-AllFit installed ps (rw no_others at all)

  -- The packages of a bundle fit what is installed: nothing of them is, or those that are satisfy
  -- the constraints on them.
  pub data FitsInstalled (ps : Dict Package) (w : World) : Type 0 where
    no_packages : ps ≡ [] → FitsInstalled ps w
    none_installed :
        (res : String) (u : World)
        → yum_installed (names_of ps) w ≡ (ok res, u)
        → is_empty res ≡ true
        → FitsInstalled ps w
    all_fit :
        (res : String) (u : World) (installed : Dict String)
        → yum_installed (names_of ps) w ≡ (ok res, u)
        → parse_packages res ≡ ok installed
        → AllFit installed ps
        → FitsInstalled ps w

  asked :
      (r : Result String × World) (res : String) (u : World)
      → handle (λ e. raise (validation_error "Package compatibility check is failed")) r
        ≡ (ok res, u)
      → r ≡ (ok res, u)
  asked (ok x, v) res u h = h
  asked (err e, v) res u h = ground arith

  chosen :
      (b : Bool) (m : Exec World (Unit {0})) (u t : World)
      → (if b then pure tt else m) u ≡ (ok tt, t)
      → (b ≡ true) ⊎ (m u ≡ (ok tt, t))
  chosen true m u t h = inl refl
  chosen false m u t h = inr h

  lifted : {A : Type 0} (r : Result A) (u v : World) (a : A) → lift r u ≡ (ok a, v) → r ≡ ok a
  lifted r u v a h = ground arith

  -- A check of the compatibility that returns has asked for the installed packages, and each
  -- package of the bundle that is installed satisfies the constraint on it.
  pub validate_compatibility-FitsInstalled :
      (ps : Dict Package) (w t : World)
      → validate_compatibility O ps w ≡ (ok tt, t)
      → FitsInstalled ps w
  unfolding validate_compatibility
  validate_compatibility-FitsInstalled [] w t h = no_packages refl
  validate_compatibility-FitsInstalled (p ∷ ps) w t h =
      let (res, u, said, h₁) =
        >>=-eq-ok
          (λ v.
            handle (λ e. raise (validation_error "Package compatibility check is failed"))
              (yum_installed (names_of (p ∷ ps)) v))
          _ w h in
      let known = asked (yum_installed (names_of (p ∷ ps)) w) res u said in
      elim (chosen (is_empty res)
        (λ v. continue (λ d. compared O (p ∷ ps) d) (lift (parse_packages res) v)) u t h₁) [
          | inl nothing_there ↦ none_installed res u known nothing_there
          | inr some_there ↦
              let (installed, v, parsed, h₂) =
                >>=-eq-ok (lift (parse_packages res)) (λ d. compared O (p ∷ ps) d) u some_there in
              let is_parsed : parse_packages res ≡ ok installed =
                lifted (parse_packages res) u v installed parsed in
              all_fit res u installed known is_parsed (compared-AllFit (p ∷ ps) installed v t h₂)
        ]
