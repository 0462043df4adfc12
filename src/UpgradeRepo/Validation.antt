-- ===== src/UpgradeRepo/Validation.antt =====
-- `SetSWUpgradeRepo.dynamic_validation`.
use cortx_prvsnr.Prelude.{String, ◌<>◌, Bool, Option, none, some, List}
use cortx_prvsnr.Prelude.{if◌then◌else◌}
use cortx_prvsnr.Prelude.Dict.{Dict}
use cortx_prvsnr.Errors.{sw_update_repo_source_error, type_error}
use cortx_prvsnr.Errors.{sw_upgrade_error, reason}
use cortx_prvsnr.Exec.{Result, ok, err, Exec, pure, raise, lift, ◌>>=◌, ◌>>◌}
use cortx_prvsnr.Check.{CheckEntry, any_failed}
use cortx_prvsnr.UpgradeRepo.{IsoVersion, iso_file, directory}
use cortx_prvsnr.UpgradeRepo.{Repo, Ops, State, on_world, collect}
use cortx_prvsnr.UpgradeRepo.{catching, is_validation_error, is_key_error}
use cortx_prvsnr.UpgradeRepo.Checks.{Command, is_special, is_remote, pre_repo_validation}
use cortx_prvsnr.UpgradeRepo.Checks.{base_repo_validation, post_repo_validation}
use cortx_prvsnr.UpgradeRepo.Packages.{
  Package, parse_packages, as_packages, repo_name, with_requires,
}
use cortx_prvsnr.UpgradeRepo.Compatibility.{validate_compatibility}

-- What a validation returns: the packages of the bundle, the constraints and the release. Its
-- `exceptions` are the command's own list.
pub record IsoInfo : Type 0 where
  pub packages : Dict Package
  pub requires : List String
  pub release : Option String

module _ (O : Ops) where
  open O use {World, mount_dir, copy_to_file_roots, apply_repo, check_active_iso, release_version}
  open O use {cortx_version, yum_repo_packages, is_older, is_repo_enabled}

  -- The candidate repository for a source.
  abbrev pub candidate_of : Repo → Repo
  candidate_of params = record {
    source = params.source;
    kind = params.kind;
    sig_file = none;
    hash = "";
    hash_type = none;
    source_version = params.source_version;
    release = some "candidate";
  }

  -- A check that breaks off is ignored; an active ISO is an error.
  unfoldable pub active :
      Bool → Result (List CheckEntry) × State World → Result (Unit {0}) × State World
  unfolding collect
  active dry_run (ok entries, s) =
      if any_failed entries
      then collect dry_run (sw_upgrade_error (reason "An active SW upgrade ISO is detected")) s
      else (ok tt, s)
  active dry_run (err e, s) = (ok tt, s)

  unfoldable pub check_active : Bool → Command O (Unit {0})
  unfolding active on_world
  check_active dry_run s = active dry_run (on_world check_active_iso s)

  unfoldable pub set_version : IsoVersion → Command O (Unit {0})
  set_version v s = (ok tt, record s { source_version = v })

  -- `_prepare_single_iso_for_apply`: a local source is copied, an ISO under a name of its own.
  unfoldable pub prepare_iso : Repo → String → Exec World (Unit {0})
  prepare_iso repo release = elim repo.kind [
    | iso_file ↦ copy_to_file_roots repo.source (release <> ".iso")
    | directory ↦ copy_to_file_roots repo.source release
    | _ ↦ pure tt
  ]

  -- The copy of the bundle and the directory that it is mounted in.
  unfoldable pub base_dir_of : Repo → Command O String
  unfolding is_remote prepare_iso on_world
  base_dir_of candidate =
      if is_remote candidate.kind
      then pure ""
      else on_world (prepare_iso candidate "candidate") >> on_world mount_dir

  -- `cortx_release.release_info.version`, with its `except KeyError`.
  unfoldable pub known_release :
      Bool → String → Result String × State World → Result (Option String) × State World
  unfolding collect is_key_error
  known_release dry_run source (ok v, s) = (ok (some v), s)
  known_release dry_run source (err e, s) =
      if is_key_error e
      then (collect dry_run (sw_update_repo_source_error source "No release data found")
            >> pure none)
          s
      else (err e, s)

  unfoldable pub release_of : Bool → String → Command O (Option String)
  unfolding known_release on_world
  release_of dry_run source s = known_release dry_run source (on_world release_version s)

  -- `version.parse(None)` is a type error.
  unfoldable pub check_version : Bool → String → Option String → Command O (Unit {0})
  unfolding collect on_world
  check_version dry_run source none = raise (type_error "expected string or bytes-like object")
  check_version dry_run source (some release) = do
    current ← on_world cortx_version
    (if is_older release current
        then collect dry_run (sw_update_repo_source_error source "ISO version should be greater")
        else pure tt)

  -- `get_packages_version(release)`
  unfoldable pub get_packages_version : String → Command O (Dict Package)
  unfolding repo_name parse_packages as_packages on_world
  get_packages_version release s =
      (do
        listed ←
            on_world
              (yum_repo_packages ("sw_upgrade_" <> repo_name s.source_version <> "_" <> release))
        found ← lift (parse_packages listed)
        pure (as_packages found))
        s

  unfoldable pub check_packages : Bool → String → Dict Package → Command O (Unit {0})
  unfolding catching is_validation_error validate_compatibility on_world
  check_packages dry_run source packages s =
      catching is_validation_error dry_run
        (sw_update_repo_source_error source "Packages compatibility check is failed")
        (on_world (validate_compatibility O packages) s)

  -- The body of the `try`.
  unfoldable pub validate_candidate : Repo → Repo → Bool → Command O IsoInfo
  unfolding base_dir_of base_repo_validation post_repo_validation release_of check_version
      get_packages_version with_requires check_packages on_world
  validate_candidate repo candidate dry_run = do
    base_dir ← base_dir_of candidate
    on_world (apply_repo "candidate" (some candidate.source))
    base_repo_validation O candidate base_dir dry_run
    requires ← on_world O.requires
    release ← release_of dry_run repo.source
    post_repo_validation O candidate base_dir dry_run
    check_version dry_run repo.source release
    listed ← get_packages_version "candidate"
    packages ← lift (with_requires requires listed)
    check_packages dry_run candidate.source packages
    pure (record { packages = packages; requires = requires; release = release })

  -- `finally`: an exception of the cleanup takes the place of the result.
  unfoldable pub cleaned : Result IsoInfo × State World → Result IsoInfo × State World
  unfolding on_world
  cleaned (r, s) = (on_world (apply_repo "candidate" none) >> lift r) s

  -- What is done before the `try`.
  unfoldable pub before_try : Repo → Bool → Command O (Unit {0})
  unfolding check_active set_version pre_repo_validation
  before_try repo dry_run = do
    check_active dry_run
    set_version repo.source_version
    pre_repo_validation O repo (elim repo.release [ none ↦ "None" | some r ↦ r ]) dry_run

  unfoldable pub within_try : Repo → Bool → Command O (Option IsoInfo)
  unfolding cleaned validate_candidate
  within_try repo dry_run =
      (λ s. cleaned (validate_candidate repo (candidate_of repo) dry_run s)) >>= λ info.
      pure (some info)

  -- `dynamic_validation(params, targets, dry_run)`; a special value is not validated.
  unfoldable pub dynamic_validation : Repo → Bool → Command O (Option IsoInfo)
  unfolding is_special before_try within_try
  dynamic_validation repo dry_run =
      if is_special repo.kind then pure none else before_try repo dry_run >> within_try repo dry_run
