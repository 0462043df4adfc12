-- ===== src/Tests/UpdateRepo.antt =====
-- A repository from an ISO file, whose metadata has a version and a build.
use cortx_prvsnr.Prelude.{String, ◌≡◌, refl, false, Option, none, some, List, [], ◌∷◌}
use cortx_prvsnr.Exec.{Result, ok}
use cortx_prvsnr.Prelude.Dict.{lookup}
use cortx_prvsnr.UpdateRepo.{Ops, Repo, Metadata, PillarValue, local_iso, is_special, pillar_value}
use cortx_prvsnr.UpdateRepo.{release_of, repo_id, set_repo, dynamic_validation, run_repo}
use cortx_prvsnr.UpdateRepo.{validate_candidate, cleaned, prepare_repo_for_apply, apply_repo}
use cortx_prvsnr.UpdateRepo.{check_repo_is_valid, get_mount_dir, load_metadata, is_repo_enabled}
use cortx_prvsnr.UpdateRepo.{does_repo_exist, candidate_of}
use cortx_prvsnr.UpdateRepo.Laws.{Installed, set_repo-Installed}

abbrev release_info : Metadata
release_info = ("NAME", some "CORTX") ∷ ("VERSION", some "2.0.0") ∷ ("BUILD", some "277") ∷ []

-- The world is what was set in the pillar, the last first.
abbrev system : Ops
system = record {
  World = List (String × PillarValue);
  copy_to_file_roots = λ source dest w. (ok tt, w);
  base_dir = λ w. (ok (some "/mnt"), w);
  repo_info = λ name w. (ok "", w);
  repo_info_enabled = λ w. (ok " base/7/x86_64\n sw_update_1.0.0-1", w);
  list_available = λ name w. (ok tt, w);
  load_yaml = λ path w. (ok release_info, w);
  apply = λ key v w. (ok tt, (key, v) ∷ w);
}

abbrev iso : Repo
iso = record {
  release = "candidate";
  source = local_iso "cortx.iso";
  enabled = none;
  metadata = [];
}

abbrev outcome : Result (Option Metadata) × List (String × PillarValue)
outcome = set_repo system false iso []

plain : is_special iso.source ≡ false
unfolding is_special
plain = refl

done : outcome ≡ (ok (some release_info), outcome.1)
unfolding set_repo dynamic_validation run_repo validate_candidate cleaned prepare_repo_for_apply
    apply_repo check_repo_is_valid get_mount_dir load_metadata is_repo_enabled does_repo_exist
    release_of lookup repo_id is_special candidate_of pillar_value
done = refl

set_repo-Installed_example :
    (m : Metadata) × (some release_info ≡ some m) × Installed system iso m [] outcome.1
set_repo-Installed_example =
    set_repo-Installed system iso [] outcome.1 (some release_info) plain done
