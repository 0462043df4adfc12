-- ===== src/UpgradeRepo/Strict.antt =====
-- What `dynamic_validation` has found when it returns and is no dry run.
use cortx_prvsnr.Prelude.{String, ◌<>◌, ◌≡◌, refl, true, false, Option, none, some, List, arith}
use cortx_prvsnr.Prelude.{ap, sym, ◌∙◌, Bool-cases, inl, inr, ◌⊎◌}
use cortx_prvsnr.Exec.{Exec, Result, ok, lift, >>=-eq-ok, lift-eq-ok}
use cortx_prvsnr.Validator.{validate_scheme}
use cortx_prvsnr.Prelude.Dict.{Dict}
use cortx_prvsnr.UpgradeRepo.{Repo, Ops, State, on_world}
use cortx_prvsnr.UpgradeRepo.Checks.{is_special, is_remote, bundle_scheme, base_repo_validation}
use cortx_prvsnr.UpgradeRepo.Checks.{post_repo_validation}
use cortx_prvsnr.UpgradeRepo.Checks.{pre_repo_validation}
use cortx_prvsnr.UpgradeRepo.Grown.{Grown, on_world-Grown}
use cortx_prvsnr.UpgradeRepo.DryRun.{pre-Grown, base-Grown, post-Grown}
use cortx_prvsnr.UpgradeRepo.Collected.{base_dir-Grown, release-Grown, version-Grown}
use cortx_prvsnr.UpgradeRepo.Validation.{check_active, set_version, prepare_iso}
use cortx_prvsnr.UpgradeRepo.Packages.{
  Package, with_requires, parse_packages, as_packages, repo_name,
}
use cortx_prvsnr.UpgradeRepo.Compatible.{FitsInstalled}
use cortx_prvsnr.UpgradeRepo.Validation.{IsoInfo, before_try, within_try, cleaned, candidate_of}
use cortx_prvsnr.UpgradeRepo.Validation.{validate_candidate, dynamic_validation, base_dir_of}
use cortx_prvsnr.UpgradeRepo.Validation.{release_of, check_version, get_packages_version}
use cortx_prvsnr.UpgradeRepo.Validation.{check_packages}
use cortx_prvsnr.UpgradeRepo.Steps.{on_world-ok, base_dir-ok, release_of-ok, check_version-ok}
use cortx_prvsnr.UpgradeRepo.Steps.{listed-ok, structure-ok, compatible-ok}

module _ (O : Ops) where
  open O use {World, files, apply_repo, cortx_version, is_older, mount_dir, yum_repo_packages}

  -- What the body of the `try` has done and found when it returns, from the world `w` on.
  pub record Validated (repo : Repo) (info : IsoInfo) (w : World) : Type 0 where
    pub base_dir : String
    pub release : String
    pub current : String
    pub text : String
    pub found : Dict String
    pub based : World
    pub applied : World
    pub structured : World
    pub asked : World
    pub named : World
    pub posted : World
    pub compared : World
    pub packed : World
    pub mounted :
        (is_remote repo.kind ≡ true)
        ⊎ ((u : World) × (prepare_iso O (candidate_of O repo) "candidate" w ≡ (ok tt, u))
            × (mount_dir u ≡ (ok base_dir, based)))
    pub apply_step : apply_repo "candidate" (some repo.source) based ≡ (ok tt, applied)
    pub structure :
        (is_remote repo.kind ≡ true)
        ⊎ (validate_scheme
              (files applied)
              (bundle_scheme repo.source_version)
              (base_dir <> "/candidate")
            ≡ ok tt)
    pub base_step :
        (s t : State World) × (s.world ≡ applied)
        × (t.world ≡ structured)
        × (base_repo_validation O (candidate_of O repo) base_dir false s ≡ (ok tt, t))
    pub requires_step : O.requires structured ≡ (ok info.requires, asked)
    pub release_step : O.release_version asked ≡ (ok release, named)
    pub is_release : info.release ≡ some release
    pub post_step :
        (s t : State World) × (s.world ≡ named)
        × (t.world ≡ posted)
        × (post_repo_validation O (candidate_of O repo) base_dir false s ≡ (ok tt, t))
    pub version_step : cortx_version posted ≡ (ok current, compared)
    pub newer : is_older release current ≡ false
    pub list_step :
        yum_repo_packages
          ("sw_upgrade_" <> repo_name repo.source_version <> "_" <> "candidate")
          compared
        ≡ (ok text, packed)
    pub parsed : parse_packages text ≡ ok found
    pub constrained : with_requires info.requires (as_packages found) ≡ ok info.packages
    pub compatible : FitsInstalled O info.packages packed

  pub same_result :
      {A : Type 0} (a b : A) (s t : State World)
      → (◌≡◌ {A = Result A × State World} (ok a, s) (ok b, t))
      → a ≡ b
  same_result a b s t h = ground arith

  kept :
      {A : Type 0} (m : Exec (State World) A) (s t : State World) (a : A)
      → m s ≡ (ok a, t)
      → Grown false s (m s)
      → t.source_version ≡ s.source_version
  kept {A = A} m s t a h g =
      ap (λ (r : Result A × State World). r.1.source_version) (sym h) ∙ g.version

  validated :
      (repo : Repo) (info : IsoInfo) (base_dir : String) (required : List String)
      (release : Option String) (listed packages : Dict Package)
      (s s₁ s₂ s₃ s₄ s₅ s₆ s₇ s₈ s₁₀ t : State World)
      → base_dir_of O (candidate_of O repo) s ≡ (ok base_dir, s₁)
      → on_world (apply_repo "candidate" (some repo.source)) s₁ ≡ (ok tt, s₂)
      → base_repo_validation O (candidate_of O repo) base_dir false s₂ ≡ (ok tt, s₃)
      → on_world O.requires s₃ ≡ (ok required, s₄)
      → release_of O false repo.source s₄ ≡ (ok release, s₅)
      → post_repo_validation O (candidate_of O repo) base_dir false s₅ ≡ (ok tt, s₆)
      → check_version O false repo.source release s₆ ≡ (ok tt, s₇)
      → get_packages_version O "candidate" s₇ ≡ (ok listed, s₈)
      → with_requires required listed ≡ ok packages
      → check_packages O false repo.source packages s₈ ≡ (ok tt, s₁₀)
      → s₂.source_version ≡ repo.source_version
      → s₇.source_version ≡ repo.source_version
      → record { packages = packages; requires = required; release = release } ≡ info
      → Validated repo info s.world
  validated repo info base_dir required release listed packages s s₁ s₂ s₃ s₄ s₅ s₆ s₇ s₈ s₁₀ t base
        apply structure requires named post newer list constrained fits first later is =
      let (v, is_v, release_step) = release_of-ok O repo.source s₄ s₅ release named in
      let (current, version_step, not_older) =
        check_version-ok O repo.source v s₆ s₇ (rw is_v at newer) in
      let (text, found, list_step, parsed, is_listed) = listed-ok O s₇ s₈ listed list in
      rw (← is) (record {
        base_dir = base_dir;
        release = v;
        current = current;
        text = text;
        found = found;
        based = s₁.world;
        applied = s₂.world;
        structured = s₃.world;
        asked = s₄.world;
        named = s₅.world;
        posted = s₆.world;
        compared = s₇.world;
        packed = s₈.world;
        mounted = base_dir-ok O (candidate_of O repo) s s₁ base_dir base;
        apply_step = on_world-ok O (apply_repo "candidate" (some repo.source)) s₁ s₂ tt apply;
        structure = elim (structure-ok O (candidate_of O repo) base_dir s₂ s₃ structure) [
          | inl far ↦ inl far
          | inr fine ↦ inr (rw first at fine)
        ];
        base_step = (s₂, s₃, refl, refl, structure);
        requires_step = on_world-ok O O.requires s₃ s₄ required requires;
        release_step = release_step;
        is_release = is_v;
        post_step = (s₅, s₆, refl, refl, post);
        version_step = version_step;
        newer = not_older;
        list_step = rw later at list_step;
        parsed = parsed;
        constrained = rw is_listed at constrained;
        compatible = compatible-ok O repo.source packages s₈ s₁₀ fits;
      })

  candidate-Validated :
      (repo : Repo) (s t : State World) (info : IsoInfo)
      → s.source_version ≡ repo.source_version
      → validate_candidate O repo (candidate_of O repo) false s ≡ (ok info, t)
      → Validated repo info s.world
  unfolding validate_candidate
  candidate-Validated repo s t info version h =
      let candidate = candidate_of O repo in
      let (base_dir, s₁, r₁, h₁) = >>=-eq-ok (base_dir_of O candidate) _ s h in
      let (_, s₂, r₂, h₂) =
        >>=-eq-ok (on_world (apply_repo "candidate" (some repo.source))) _ s₁ h₁ in
      let (_, s₃, r₃, h₃) = >>=-eq-ok (base_repo_validation O candidate base_dir false) _ s₂ h₂ in
      let (required, s₄, r₄, h₄) = >>=-eq-ok (on_world O.requires) _ s₃ h₃ in
      let (release, s₅, r₅, h₅) = >>=-eq-ok (release_of O false repo.source) _ s₄ h₄ in
      let (_, s₆, r₆, h₆) = >>=-eq-ok (post_repo_validation O candidate base_dir false) _ s₅ h₅ in
      let (_, s₇, r₇, h₇) = >>=-eq-ok (check_version O false repo.source release) _ s₆ h₆ in
      let (listed, s₈, r₈, h₈) = >>=-eq-ok (get_packages_version O "candidate") _ s₇ h₇ in
      let (packages, r₉, h₉) = lift-eq-ok (with_requires required listed) _ s₈ h₈ in
      let (_, s₁₀, r₁₀, h₁₀) = >>=-eq-ok (check_packages O false repo.source packages) _ s₈ h₉ in
      let found : IsoInfo = record {
        packages = packages;
        requires = required;
        release = release;
      } in
      let first : s₂.source_version ≡ repo.source_version =
        kept (on_world (apply_repo "candidate" (some repo.source))) s₁ s₂ tt r₂
          (on_world-Grown false (apply_repo "candidate" (some repo.source)) s₁)
        ∙ kept (base_dir_of O candidate) s s₁ base_dir r₁ (base_dir-Grown O false candidate s)
        ∙ version in
      let later : s₇.source_version ≡ repo.source_version =
        kept (check_version O false repo.source release) s₆ s₇ tt r₇
          (version-Grown O false repo.source release s₆)
        ∙ kept (post_repo_validation O candidate base_dir false) s₅ s₆ tt r₆
            (post-Grown O false candidate base_dir s₅)
        ∙ kept (release_of O false repo.source) s₄ s₅ release r₅
            (release-Grown O false repo.source s₄)
        ∙ kept (on_world O.requires) s₃ s₄ required r₄ (on_world-Grown false O.requires s₃)
        ∙ kept (base_repo_validation O candidate base_dir false) s₂ s₃ tt r₃
            (base-Grown O false candidate base_dir s₂)
        ∙ first in
      validated repo info base_dir required release listed packages s s₁ s₂ s₃ s₄ s₅ s₆ s₇ s₈ s₁₀ t
        r₁ r₂ r₃ r₄ r₅ r₆ r₇ r₈ r₉ r₁₀ first later (same_result found info s₁₀ t h₁₀)

  cleaned-ok :
      (q : Result IsoInfo × State World) (t : State World) (info : IsoInfo)
      → cleaned O q ≡ (ok info, t)
      → q.0 ≡ ok info
  unfolding cleaned
  cleaned-ok (r, s) t info h =
      let (_, u, _, h₁) = >>=-eq-ok (on_world (apply_repo "candidate" none)) (λ _. lift r) s h in
      ground arith

  within_try-ok :
      (repo : Repo) (s t : State World) (info : IsoInfo)
      → within_try O repo false s ≡ (ok (some info), t)
      → (u : State World) × (validate_candidate O repo (candidate_of O repo) false s ≡ (ok info, u))
  unfolding within_try
  within_try-ok repo s t info h =
      let q = validate_candidate O repo (candidate_of O repo) false s in
      let (found, u, done, h₁) =
        >>=-eq-ok (λ v. cleaned O (validate_candidate O repo (candidate_of O repo) false v)) _ s
          h in
      let same : found ≡ info = ground arith in (q.1, ground (arith, cleaned-ok q u found done))

  before_try-version :
      (repo : Repo) (s t : State World)
      → before_try O repo false s ≡ (ok tt, t)
      → t.source_version ≡ repo.source_version
  unfolding before_try set_version
  before_try-version repo s t h =
      let (_, u, _, h₁) = >>=-eq-ok (check_active O false) _ s h in
      let given = elim repo.release as (λ _. String) [ none ↦ "None" | some v ↦ v ] in
      let u' : State World = record u { source_version = repo.source_version } in
      kept (pre_repo_validation O repo given false) u' t tt h₁ (pre-Grown O false repo given u')

  -- A validation that is no dry run and returns information has done the steps before the `try`.
  -- Then, unless the bundle is remote, it was copied, and has the structure of its version under
  -- the mount directory; the release of the ISO was found, and is not older than the installed
  -- one; and the packages that are returned are those that yum lists for the candidate, with the
  -- constraints that the release information requires, and are compatible with the installed ones.
  pub dynamic_validation-Validated :
      (repo : Repo) (s t : State World) (info : IsoInfo)
      → dynamic_validation O repo false s ≡ (ok (some info), t)
      → (entry : State World) × (before_try O repo false s ≡ (ok tt, entry))
        × Validated repo info entry.world
  unfolding dynamic_validation
  dynamic_validation-Validated repo s t info h = elim (Bool-cases (is_special repo.kind)) [
    | inl plain ↦ ground arith
    | inr other ↦
        let (_, u, begun, h₁) =
          >>=-eq-ok (before_try O repo false) (λ _. within_try O repo false) s (rw other at h) in
        let (v, done) = within_try-ok repo u t info h₁ in
        (u, begun, candidate-Validated repo u v info (before_try-version repo s u begun) done)
  ]
