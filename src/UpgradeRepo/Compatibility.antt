-- ===== src/UpgradeRepo/Compatibility.antt =====
-- `CompatibilityValidator.validate` of commands/validator/validator.py.
use cortx_prvsnr.Prelude.{String, none, some, List, [], ◌∷◌, ◌++◌, if◌then◌else◌}
use cortx_prvsnr.Prelude.Text.{is_empty}
use cortx_prvsnr.Prelude.Dict.{Dict, lookup}
use cortx_prvsnr.Errors.{validation_error}
use cortx_prvsnr.Exec.{Result, ok, err, Exec, pure, raise, lift, handle, ◌>>=◌}
use cortx_prvsnr.UpgradeRepo.{Ops}
use cortx_prvsnr.UpgradeRepo.Packages.{Package, parse_packages, names_of, judged, violations}

module _ (O : Ops) where
  open O use {World, satisfies, cortx_version, yum_installed}

  -- The constraint on the release as a whole.
  unfoldable pub release_violation : Dict Package → Exec World (List String)
  unfolding judged lookup is_empty
  release_violation packages w = elim (lookup "CORTX" packages) [
    | none ↦ (ok [], w)
    | some p ↦ elim p.compatibility [
      | none ↦ (ok [], w)
      | some c ↦
          if is_empty c
          then (ok [], w)
          else (cortx_version >>= λ v. lift (judged O "CORTX" v (satisfies v c))) w
    ]
  ]

  unfoldable pub concluded : List String → Result (Unit {0})
  concluded [] = ok tt
  concluded (m ∷ ms) = err (validation_error "some compatibility errors were found")

  unfoldable pub compared : Dict Package → Dict String → Exec World (Unit {0})
  unfolding release_violation violations concluded
  compared packages installed = do
    first ← release_violation packages
    others ← lift (violations O installed packages)
    lift (concluded (first ++ others))

  -- `CompatibilityValidator.validate(iso_info)`
  unfoldable pub validate_compatibility : Dict Package → Exec World (Unit {0})
  unfolding compared parse_packages is_empty names_of
  validate_compatibility [] = pure tt
  validate_compatibility (p ∷ ps) = do
    res ← λ w.
        handle (λ e. raise (validation_error "Package compatibility check is failed"))
          (yum_installed (names_of (p ∷ ps)) w)
    (if is_empty res
        then pure tt
        else (do installed ← lift (parse_packages res); compared (p ∷ ps) installed))
