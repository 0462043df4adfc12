-- ===== src/UpgradeRepo/Steps.antt =====
-- What the single steps of `dynamic_validation` have found when they return and it is no dry run.
use cortx_prvsnr.Prelude.{String, ◌<>◌, ◌≡◌, refl, Bool, true, false, Option, some, arith}
use cortx_prvsnr.Prelude.{Bool-cases, inl, inr, ◌⊎◌}
use cortx_prvsnr.Errors.{Exception}
use cortx_prvsnr.Exec.{Exec, Result, ok, err, lift, pure, ◌>>=◌, >>=-eq-ok, lift-eq-ok}
use cortx_prvsnr.Validator.{validate_scheme}
use cortx_prvsnr.Prelude.Dict.{Dict}
use cortx_prvsnr.UpgradeRepo.{IsoVersion}
use cortx_prvsnr.UpgradeRepo.{Repo, Ops, State, on_world, collect, catching}
use cortx_prvsnr.UpgradeRepo.{is_validation_error, is_key_error}
use cortx_prvsnr.UpgradeRepo.Checks.{is_remote, bundle_scheme, base_repo_validation}
use cortx_prvsnr.UpgradeRepo.Validation.{prepare_iso}
use cortx_prvsnr.UpgradeRepo.Packages.{Package, parse_packages, as_packages, repo_name}
use cortx_prvsnr.UpgradeRepo.Compatible.{FitsInstalled, validate_compatibility-FitsInstalled}
use cortx_prvsnr.UpgradeRepo.Compatibility.{validate_compatibility}
use cortx_prvsnr.UpgradeRepo.Validation.{base_dir_of}
use cortx_prvsnr.UpgradeRepo.Validation.{release_of, check_version, get_packages_version}
use cortx_prvsnr.UpgradeRepo.Validation.{check_packages, known_release}

module _ (O : Ops) where
  open O use {World, files, apply_repo, cortx_version, is_older, mount_dir, yum_repo_packages}

  pub on_world-ok :
      {A : Type 0} (m : Exec World A) (s t : State World) (a : A)
      → on_world m s ≡ (ok a, t)
      → m s.world ≡ (ok a, t.world)
  unfolding on_world
  on_world-ok m s t a h = ground arith

  catching-ok :
      (test : Exception → Bool) (x : Exception) (r : Result (Unit {0})) (s t : State World)
      → catching test false x (r, s) ≡ (ok tt, t)
      → r ≡ ok tt
  unfolding catching collect
  catching-ok test x (ok u) s t h = refl
  catching-ok test x (err e) s t h = elim (Bool-cases (test e)) [
    | inl caught ↦ ground arith
    | inr other ↦ ground arith
  ]

  pub base_dir-ok :
      (candidate : Repo) (s t : State World) (base_dir : String)
      → base_dir_of O candidate s ≡ (ok base_dir, t)
      → (is_remote candidate.kind ≡ true)
        ⊎ ((u : World) × (prepare_iso O candidate "candidate" s.world ≡ (ok tt, u))
            × (mount_dir u ≡ (ok base_dir, t.world)))
  unfolding base_dir_of
  base_dir-ok candidate s t base_dir h = elim (Bool-cases (is_remote candidate.kind)) [
    | inl far ↦ inl far
    | inr local ↦
        let (_, u, prepared, h₁) =
          >>=-eq-ok (on_world (prepare_iso O candidate "candidate")) (λ _. on_world mount_dir) s
            (rw local at h) in
        inr (
          u.world,
          on_world-ok (prepare_iso O candidate "candidate") s u tt prepared,
          on_world-ok mount_dir u t base_dir h₁,
        )
  ]

  pub release_of-ok :
      (source : String) (s t : State World) (release : Option String)
      → release_of O false source s ≡ (ok release, t)
      → (v : String) × (release ≡ some v) × (O.release_version s.world ≡ (ok v, t.world))
  unfolding release_of known_release collect
  release_of-ok source s t release h = split (on_world O.release_version s) refl h
    where
      split :
          (r : Result String × State World)
          → on_world O.release_version s ≡ r
          → known_release O false source r ≡ (ok release, t)
          → (v : String) × (release ≡ some v) × (O.release_version s.world ≡ (ok v, t.world))
      split (ok v, u) asked p =
          let is_t : u ≡ t = ground arith in
          (v, ground arith, on_world-ok O.release_version s t v (rw is_t at asked))
      split (err e, u) asked p = elim (Bool-cases (is_key_error e)) [
        | inl caught ↦ ground arith
        | inr other ↦ ground arith
      ]

  pub check_version-ok :
      (source release : String) (s t : State World)
      → check_version O false source (some release) s ≡ (ok tt, t)
      → (current : String) × (cortx_version s.world ≡ (ok current, t.world))
        × (is_older release current ≡ false)
  unfolding check_version collect
  check_version-ok source release s t h =
      let (current, u, asked, h₁) = >>=-eq-ok (on_world cortx_version) _ s h in
      elim (Bool-cases (is_older release current)) [
        | inl older ↦ ground arith
        | inr newer ↦
            let is_t : u ≡ t = ground arith in
            (current, on_world-ok cortx_version s t current (rw is_t at asked), newer)
      ]

  abbrev ask : IsoVersion → Exec World String
  ask v = yum_repo_packages ("sw_upgrade_" <> repo_name v <> "_" <> "candidate")

  pub listed-ok :
      (s t : State World) (listed : Dict Package)
      → get_packages_version O "candidate" s ≡ (ok listed, t)
      → (text : String) × (found : Dict String) × (yum_repo_packages
            ("sw_upgrade_" <> repo_name s.source_version <> "_" <> "candidate")
            s.world
          ≡ (ok text, t.world))
        × (parse_packages text ≡ ok found)
        × (listed ≡ as_packages found)
  unfolding get_packages_version
  listed-ok s t listed h =
      let (text, u, asked, h₁) =
        >>=-eq-ok (on_world (ask s.source_version))
          (λ out. lift (parse_packages out) >>= λ found. pure (as_packages found)) s h in
      let (found, parsed, h₂) =
        lift-eq-ok (parse_packages text) (λ found. pure (as_packages found)) u h₁ in
      let is_t : u ≡ t = ground arith in
      (
        text,
        found,
        on_world-ok (ask s.source_version) s t text (rw is_t at asked),
        parsed,
        ground arith,
      )

  pub structure-ok :
      (candidate : Repo) (base_dir : String) (s t : State World)
      → base_repo_validation O candidate base_dir false s ≡ (ok tt, t)
      → (is_remote candidate.kind ≡ true)
        ⊎ (validate_scheme
              (files s.world)
              (bundle_scheme s.source_version)
              (base_dir <> "/candidate")
            ≡ ok tt)
  unfolding base_repo_validation
  structure-ok candidate base_dir s t h = elim (Bool-cases (is_remote candidate.kind)) [
    | inl far ↦ inl far
    | inr local ↦ inr (catching-ok is_validation_error _ _ s t (rw local at h))
  ]

  pub compatible-ok :
      (source : String) (info : Dict Package) (s t : State World)
      → check_packages O false source info s ≡ (ok tt, t)
      → FitsInstalled O info s.world
  unfolding check_packages on_world
  compatible-ok source info s t h =
      validate_compatibility-FitsInstalled O info s.world (validate_compatibility O info s.world).1
        (ground (
          arith,
          catching-ok is_validation_error _ (validate_compatibility O info s.world).0 _ t h,
        ))
