-- ===== src/UpgradeRepo/Collected.antt =====
-- The list of exceptions after `dynamic_validation`.
use cortx_prvsnr.Prelude.{String, ◌<>◌, ◌≡◌, refl, Bool, false, Option, none, some, List, [], ◌++◌}
use cortx_prvsnr.Prelude.{ap, ◌∙◌, sym, Bool-cases, inl, inr}
use mathlib.Core.List.{append_assoc, append-nil}
use cortx_prvsnr.Prelude.Dict.{Dict}
use cortx_prvsnr.Errors.{Exception, sw_update_repo_source_error, sw_upgrade_error, reason}
use cortx_prvsnr.Exec.{Result, ok, err, continue, pure, lift, ◌>>=◌, ◌>>◌}
use cortx_prvsnr.Check.{CheckEntry, any_failed}
use cortx_prvsnr.UpgradeRepo.{Repo, Ops, State, on_world, collect}
use cortx_prvsnr.UpgradeRepo.{is_key_error}
use cortx_prvsnr.UpgradeRepo.Grown.{Grown, after, on_world-Grown, chain, either, either_run}
use cortx_prvsnr.UpgradeRepo.Grown.{nothing, collect-Grown, catching-Grown}
use cortx_prvsnr.UpgradeRepo.DryRun.{pre-Grown, base-Grown, post-Grown}
use cortx_prvsnr.UpgradeRepo.Checks.{is_special, is_remote, pre_repo_validation}
use cortx_prvsnr.UpgradeRepo.Packages.{
  Package, parse_packages, as_packages, repo_name, with_requires,
}
use cortx_prvsnr.UpgradeRepo.Compatibility.{validate_compatibility}
use cortx_prvsnr.UpgradeRepo.Validation.{IsoInfo, candidate_of, active, check_active, prepare_iso}
use cortx_prvsnr.UpgradeRepo.Validation.{base_dir_of, known_release, release_of, check_version}
use cortx_prvsnr.UpgradeRepo.Validation.{get_packages_version, check_packages, validate_candidate}
use cortx_prvsnr.UpgradeRepo.Validation.{cleaned, before_try, within_try, dynamic_validation}
use cortx_prvsnr.UpgradeRepo.Validation.{set_version}

module _ (O : Ops) (dry_run : Bool) where
  open O use {World, apply_repo}

  active-Grown :
      (s : State World) (r : Result (List CheckEntry) × State World)
      → Grown dry_run s r
      → Grown dry_run s (active O dry_run r)
  unfolding active
  active-Grown s (ok entries, t) g =
      let exc = sw_upgrade_error (reason "An active SW upgrade ISO is detected") in
      after dry_run s (ok entries, t) _ g
        (either dry_run (any_failed entries) t _ _ (collect-Grown dry_run exc t)
          (nothing dry_run (ok tt) t))
  active-Grown s (err e, t) g = after dry_run s (err e, t) (ok tt, t) g (nothing dry_run (ok tt) t)

  pub base_dir-Grown :
      (candidate : Repo) (s : State World) → Grown dry_run s (base_dir_of O candidate s)
  unfolding base_dir_of
  base_dir-Grown candidate s =
      either_run dry_run (is_remote candidate.kind) s _ _ (nothing dry_run (ok "") s) (
        chain dry_run s _ _ (on_world-Grown dry_run (prepare_iso O candidate "candidate") s)
          λ _ t. on_world-Grown dry_run O.mount_dir t)

  known-Grown :
      (source : String) (s : State World) (r : Result String × State World)
      → Grown dry_run s r
      → Grown dry_run s (known_release O dry_run source r)
  unfolding known_release
  known-Grown source s (ok v, t) g =
      after dry_run s (ok v, t) (ok (some v), t) g (nothing dry_run (ok (some v)) t)
  known-Grown source s (err e, t) g =
      let exc = sw_update_repo_source_error source "No release data found" in
      after dry_run s (err e, t) _ g
        (either dry_run (is_key_error e) t _ _
          (chain dry_run t (collect dry_run exc t) (λ _. pure none) (collect-Grown dry_run exc t)
            (λ _ u. nothing dry_run (ok none) u))
          (nothing dry_run (err e) t))

  pub release-Grown :
      (source : String) (s : State World) → Grown dry_run s (release_of O dry_run source s)
  unfolding release_of
  release-Grown source s = known-Grown source s _ (on_world-Grown dry_run O.release_version s)

  pub version-Grown :
      (source : String) (release : Option String) (s : State World)
      → Grown dry_run s (check_version O dry_run source release s)
  unfolding check_version
  version-Grown source none s = nothing dry_run (err _) s
  version-Grown source (some release) s =
      chain dry_run s _ _ (on_world-Grown dry_run O.cortx_version s) λ current t.
        either_run dry_run (O.is_older release current) t _ _ (collect-Grown dry_run _ t)
          (nothing dry_run (ok tt) t)

  listed-Grown :
      (release : String) (s : State World) → Grown dry_run s (get_packages_version O release s)
  unfolding get_packages_version
  listed-Grown release s =
      chain dry_run s _
        (λ listed. lift (parse_packages listed) >>= λ found. pure (as_packages found))
        (on_world-Grown dry_run
          (O.yum_repo_packages ("sw_upgrade_" <> repo_name s.source_version <> "_" <> release)) s)
        λ listed t.
          chain dry_run t (lift (parse_packages listed) t) (λ found. pure (as_packages found))
            (nothing dry_run (parse_packages listed) t)
            (λ found u. nothing dry_run (ok (as_packages found)) u)

  packages-Grown :
      (source : String) (packages : Dict Package) (s : State World)
      → Grown dry_run s (check_packages O dry_run source packages s)
  unfolding check_packages
  packages-Grown source packages s =
      catching-Grown dry_run _ _ s _ (on_world-Grown dry_run (validate_compatibility O packages) s)

  candidate-Grown :
      (repo candidate : Repo) (s : State World)
      → Grown dry_run s (validate_candidate O repo candidate dry_run s)
  unfolding validate_candidate
  candidate-Grown repo candidate s = chain dry_run s _ _ (base_dir-Grown candidate s) λ base_dir s₁.
      chain dry_run s₁ _ _
        (on_world-Grown dry_run (apply_repo "candidate" (some candidate.source)) s₁)
        λ _ s₂. chain dry_run s₂ _ _ (base-Grown O dry_run candidate base_dir s₂) λ _ s₃.
          chain dry_run s₃ _ _ (on_world-Grown dry_run O.requires s₃) λ required s₄.
            chain dry_run s₄ _ _ (release-Grown repo.source s₄) λ release s₅.
              chain dry_run s₅ _ _ (post-Grown O dry_run candidate base_dir s₅) λ _ s₆.
                chain dry_run s₆ _ _ (version-Grown repo.source release s₆) λ _ s₇.
                  chain dry_run s₇ _ _ (listed-Grown "candidate" s₇) λ listed s₈.
                    chain dry_run s₈ (lift (with_requires required listed) s₈)
                      (λ packages.
                        check_packages O dry_run candidate.source packages
                        >> pure (record {
                          packages = packages;
                          requires = required;
                          release = release;
                        }))
                      (nothing dry_run (with_requires required listed) s₈)
                      λ packages s₉.
                        chain dry_run s₉ _ _ (packages-Grown candidate.source packages s₉)
                          λ _ s₁₀. nothing dry_run (ok _) s₁₀

  cleaned-Grown :
      (s : State World) (q : Result IsoInfo × State World)
      → Grown dry_run s q
      → Grown dry_run s (cleaned O q)
  unfolding cleaned
  cleaned-Grown s (r, t) g =
      after dry_run s (r, t) _ g
        (chain dry_run t (on_world (apply_repo "candidate" none) t) (λ _. lift r)
          (on_world-Grown dry_run (apply_repo "candidate" none) t) (λ _ u. nothing dry_run r u))

  pub try-Grown : (repo : Repo) (s : State World) → Grown dry_run s (within_try O repo dry_run s)
  unfolding within_try
  try-Grown repo s =
      chain dry_run s (cleaned O (validate_candidate O repo (candidate_of O repo) dry_run s))
        (λ info. pure (some info))
        (cleaned-Grown s _ (candidate-Grown repo (candidate_of O repo) s))
        (λ info t. nothing dry_run (ok (some info)) t)

  check_active-Grown : (s : State World) → Grown dry_run s (check_active O dry_run s)
  unfolding check_active
  check_active-Grown s = active-Grown s _ (on_world-Grown dry_run O.check_active_iso s)

  -- More exceptions behind those that were there, in a dry run only.
  abbrev pub Added : State World → State World → Type 0
  Added s t =
      (more : List Exception) × (t.exceptions ≡ s.exceptions ++ more)
      × (dry_run ≡ false → more ≡ [])

  validated-Added :
      (repo : Repo) (s : State World) (r : Result (Unit {0}) × State World)
      → Grown dry_run s r
      → Added s
          (continue
            (λ _. within_try O repo dry_run)
            (continue
              (λ _.
                set_version O repo.source_version
                >> pre_repo_validation O repo
                    (elim repo.release [ none ↦ "None" | some v ↦ v ])
                    dry_run)
              r)).1
  unfolding set_version
  validated-Added repo s (err e, t) g = (g.more, g.added, g.strict)
  validated-Added repo s (ok u, t) g =
      let given = elim repo.release as (λ _. String) [ none ↦ "None" | some v ↦ v ] in
      let t' : State World = record t { source_version = repo.source_version } in
      let h =
        chain dry_run t' (pre_repo_validation O repo given dry_run t')
          (λ _. within_try O repo dry_run) (pre-Grown O dry_run repo given t')
          (λ _ v. try-Grown repo v) in
      (
        g.more ++ h.more,
        h.added
            ∙ ap (λ (x : List Exception). x ++ h.more) g.added
            ∙ append_assoc s.exceptions g.more h.more,
        λ d. rw (g.strict d, h.strict d),
      )

  -- A validation only adds to the exceptions that were collected before, and adds none unless it
  -- is a dry run; those of earlier runs stay.
  pub dynamic_validation-Added :
      (repo : Repo) (s : State World) → Added s (dynamic_validation O repo dry_run s).1
  unfolding dynamic_validation before_try
  dynamic_validation-Added repo s = elim (Bool-cases (is_special repo.kind)) [
    | inl plain ↦ rw (dynamic_validation, plain) ([], sym (append-nil s.exceptions), λ _. refl)
    | inr other ↦ rw (dynamic_validation, other) (validated-Added repo s _ (check_active-Grown s))
  ]
