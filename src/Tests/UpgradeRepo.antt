-- ===== src/Tests/UpgradeRepo.antt =====
-- The validation of a bundle of version 2 with one package.
use cortx_prvsnr.Prelude.{String, ◌≡◌, refl, true, false, List, [], ◌∷◌}
use cortx_prvsnr.Prelude.{Option, none, some}
use cortx_prvsnr.Prelude.Text.{is_empty}
use cortx_prvsnr.Prelude.Dict.{Dict, lookup, insert}
use cortx_prvsnr.Errors.{reason}
use cortx_prvsnr.Exec.{Result, ok}
use cortx_prvsnr.Check.{any_failed}
use cortx_prvsnr.Utils.Version.{normalize_rpm_version}
use cortx_prvsnr.Validator.{validate, release_info_validator}
use cortx_prvsnr.Validator.Content.{validate_content, from_args}
use cortx_prvsnr.Validator.Bundle.{bundle_scheme_ver2}
use cortx_prvsnr.UpgradeRepo.{Ops, Repo, State, version1, version2, iso_file}
use cortx_prvsnr.UpgradeRepo.Checks.{is_special, is_remote, bundle_scheme}
use cortx_prvsnr.UpgradeRepo.Packages.{Package, parse_packages, with_requires, name_part}
use cortx_prvsnr.UpgradeRepo.Compatibility.{validate_compatibility, compared}
use cortx_prvsnr.UpgradeRepo.Validation.{IsoInfo, dynamic_validation, before_try, candidate_of}
use cortx_prvsnr.UpgradeRepo.Validation.{validate_candidate}
use cortx_prvsnr.UpgradeRepo.Cleanup.{remove, dynamic_validation-cleanup}
use cortx_prvsnr.UpgradeRepo.Collected.{Added, dynamic_validation-Added}
use cortx_prvsnr.UpgradeRepo.Strict.{Validated, dynamic_validation-Validated}
use cortx_prvsnr.Tests.Validator.{mounted}

-- The world is the list of candidate repositories that were set up, `none` where it was removed.
abbrev system : Ops
system = record {
  World = List (Option String);
  files = λ w. mounted "2.0.0";
  first_subdir = λ path w. none;
  subdirs = λ path w. [];
  from_hex = λ s. ok s;
  mount_dir = λ w. (ok "m", w);
  copy_to_file_roots = λ source dest w. (ok tt, w);
  apply_repo = λ release source w. (ok tt, source ∷ w);
  repo_infos = λ repo w. [];
  check_active_iso = λ w. (ok [], w);
  check_authenticity = λ repo sig w. (ok (true, ""), w);
  does_repo_exist = λ name w. (ok false, w);
  is_repo_enabled = λ name w. (ok false, w);
  check_repo_is_valid = λ release name w. (ok tt, w);
  pip_download = λ name path w. (ok tt, w);
  requires = λ w. (ok ("cortx-motr > 2.0.0" ∷ []), w);
  release_version = λ w. (ok "2.0.0", w);
  cortx_version = λ w. (ok "2.0.0", w);
  yum_repo_packages = λ repo w. (ok "cortx-motr.noarch 2.0.0-277", w);
  yum_installed = λ names w. (ok "cortx-motr.noarch 2.0.0-200", w);
  is_older = λ v current. false;
  satisfies = λ v c. ok true;
}

abbrev iso : Repo
iso = record {
  source = "cortx.iso";
  kind = iso_file;
  sig_file = some "cortx.iso.sig";
  hash = "";
  hash_type = none;
  source_version = version2;
  release = none;
}

abbrev start : State system.World
start = record { world = []; exceptions = []; source_version = version1 }

abbrev outcome : Result (Option IsoInfo) × State system.World
outcome = dynamic_validation system iso false start

abbrev motr : Dict Package
motr = ("cortx-motr", record { version = some "2.0.0-277"; compatibility = some "> 2.0.0-0" }) ∷ []

abbrev info : IsoInfo
info = record { packages = motr; requires = "cortx-motr > 2.0.0" ∷ []; release = some "2.0.0" }

validated : outcome ≡ (ok (some info), outcome.1)
unfolding dynamic_validation before_try validate_candidate is_special is_remote bundle_scheme
    bundle_scheme_ver2 validate release_info_validator validate_content from_args any_failed
    is_empty parse_packages with_requires name_part normalize_rpm_version validate_compatibility
    compared lookup insert
validated = refl

dynamic_validation-Validated_example :
    (entry : State system.World) × (before_try system iso false start ≡ (ok tt, entry))
    × Validated system iso info entry.world
dynamic_validation-Validated_example =
    dynamic_validation-Validated system iso start outcome.1 info validated

-- A dry run after one that has collected an exception.
abbrev later : State system.World
later = record start { exceptions = reason "earlier" ∷ [] }

dynamic_validation-Added_example :
    Added system true later (dynamic_validation system iso true later).1
dynamic_validation-Added_example = dynamic_validation-Added system true iso later

abbrev begun : State system.World
begun = record start { source_version = version2 }

ready : before_try system iso false start ≡ (ok tt, begun)
unfolding before_try any_failed is_remote is_empty
ready = refl

plain : is_special iso.kind ≡ false
unfolding is_special
plain = refl

dynamic_validation-cleanup_example :
    (dynamic_validation system iso false start).1
    ≡ (remove system iso false
        (validate_candidate system iso (candidate_of system iso) false begun).1).1
dynamic_validation-cleanup_example =
    dynamic_validation-cleanup system iso false start begun plain ready

compatible : validate_compatibility system motr [] ≡ (ok tt, [])
unfolding validate_compatibility compared is_empty parse_packages normalize_rpm_version lookup
    insert
compatible = refl
