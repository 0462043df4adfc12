-- ===== src/UpgradeRepo/DryRun.antt =====
-- The list of exceptions that `dynamic_validation` collects.
use cortx_prvsnr.Prelude.{String, ◌<>◌, Bool, true, false, Option, none, some, List, [], ◌∷◌}
use cortx_prvsnr.Prelude.{if◌then◌else◌, ◌==◌}
use cortx_prvsnr.Prelude.Text.{is_empty}
use cortx_prvsnr.Errors.{sw_update_repo_source_error}
use cortx_prvsnr.Exec.{Exec, Result, ok, continue, pure, lift, ◌>>◌}
use cortx_prvsnr.Utils.Checksum.{HashInfo}
use cortx_prvsnr.UpgradeRepo.{version1, version2, Repo, RepoInfo, Ops, State, on_world, collect}
use cortx_prvsnr.UpgradeRepo.{catching, IsoVersion, is_validation_error}
use cortx_prvsnr.Validator.{validate_hash_sum, validate_scheme}
use cortx_prvsnr.UpgradeRepo.Grown.{Grown, on_world-Grown, chain, either, either_run}
use cortx_prvsnr.UpgradeRepo.Grown.{nothing, collect-Grown, catching-Grown}
use cortx_prvsnr.UpgradeRepo.Checks.{default_type, bundle_scheme}
use cortx_prvsnr.UpgradeRepo.Checks.{single_repo_validation, validate_python_index, get_hash_params}
use cortx_prvsnr.UpgradeRepo.Checks.{check_iso_integrity, check_iso_authenticity, find_signature}
use cortx_prvsnr.UpgradeRepo.Checks.{
  check_hash, pre_repo_validation, base_repo_validation, check_dir,
}
use cortx_prvsnr.UpgradeRepo.Checks.{post_validation_ver1, check_info}
use cortx_prvsnr.UpgradeRepo.Checks.{post_validation_ver2, post_repo_validation, is_remote}

module _ (O : Ops) (dry_run : Bool) where
  open O use {World, is_repo_enabled, check_repo_is_valid, does_repo_exist, repo_infos, subdirs}

  single-Grown :
      (release name : String) (s : State World)
      → Grown dry_run s (single_repo_validation O release name dry_run s)
  unfolding single_repo_validation
  single-Grown release name s =
      chain dry_run s _ _
        (catching-Grown dry_run _ _ s _
          (on_world-Grown dry_run (check_repo_is_valid "candidate" ("sw_upgrade_" <> name)) s))
        λ _ t.
          chain dry_run t _ _
            (on_world-Grown dry_run (is_repo_enabled ("sw_upgrade_" <> name <> "_" <> release)) t)
            λ enabled u.
              either_run dry_run enabled u _ _ (collect-Grown dry_run _ u)
                (nothing dry_run (ok tt) u)

  integrity-Grown :
      (params : Repo) (info : HashInfo) (s : State World)
      → Grown dry_run s (check_iso_integrity O params info dry_run s)
  unfolding check_iso_integrity
  integrity-Grown params info s =
      chain dry_run s (lift (O.from_hex info.hash_sum) s)
        (λ hash_sum t.
          catching is_validation_error dry_run
            (sw_update_repo_source_error params.source "Check sum validation error")
            (
              validate_hash_sum (O.files t.world) false (default_type info.hash_type) hash_sum
                  params.source,
              t,
            ))
        (nothing dry_run (O.from_hex info.hash_sum) s)
        (λ hash_sum t.
          let r =
            validate_hash_sum (O.files t.world) false (default_type info.hash_type) hash_sum
              params.source in
          catching-Grown dry_run is_validation_error
            (sw_update_repo_source_error params.source "Check sum validation error") t (r, t)
            (nothing dry_run r t))

  authenticity-Grown :
      (params : Repo) (sig : String) (s : State World)
      → Grown dry_run s (check_iso_authenticity O params sig dry_run s)
  unfolding check_iso_authenticity
  authenticity-Grown params sig s =
      chain dry_run s _ _ (on_world-Grown dry_run (O.check_authenticity params sig) s) λ res t.
        either_run dry_run res.0 t _ _ (nothing dry_run (ok tt) t) (collect-Grown dry_run _ t)

  python-Grown :
      (path : String) (s : State World) → Grown dry_run s (validate_python_index O path dry_run s)
  unfolding validate_python_index
  python-Grown path s = split (O.first_subdir path s.world)
    where
      split :
          (found : Option String)
          → Grown {A = Unit {0}} dry_run s (elim found [
            | none ↦ (ok tt, s)
            | some name ↦
                catching
                  (λ e. true)
                  dry_run
                  (sw_update_repo_source_error path "Python index validation failed")
                  (on_world (O.pip_download name path) s)
          ])
      split none = nothing dry_run (ok tt) s
      split (some name) =
          catching-Grown dry_run (λ e. true)
            (sw_update_repo_source_error path "Python index validation failed") s
            (on_world (O.pip_download name path) s)
            (on_world-Grown dry_run (O.pip_download name path) s)

  signature-Grown :
      (params : Repo) (s : State World) → Grown dry_run s (find_signature O params dry_run s)
  unfolding find_signature
  signature-Grown params s = split params.sig_file
    where
      sig : String
      sig = params.source <> ".sig"

      search : Exec (State World) (Unit {0})
      search =
          if (O.files s.world).exists sig
          then pure tt
          else collect dry_run
              (sw_update_repo_source_error params.source "Signature file is not found")

      split :
          (given : Option String)
          → Grown {A = String} dry_run s
              (elim given [ some f ↦ (ok f, s) | none ↦ (search >> pure sig) s ])
      split (some f) = nothing dry_run (ok f) s
      split none =
          chain dry_run s (search s) (λ _. pure sig)
            (either_run dry_run ((O.files s.world).exists sig) s _ _ (nothing dry_run (ok tt) s)
              (collect-Grown dry_run _ s))
            (λ _ t. nothing dry_run (ok sig) t)

  hash-Grown : (params : Repo) (s : State World) → Grown dry_run s (check_hash O params dry_run s)
  unfolding check_hash
  hash-Grown params s =
      either_run dry_run (is_empty params.hash) s (pure tt)
        (λ t.
          continue (λ info. check_iso_integrity O params info dry_run)
            (get_hash_params O params t.world, t))
        (nothing dry_run (ok tt) s)
        (chain dry_run s _ _ (nothing dry_run (get_hash_params O params s.world) s)
          (integrity-Grown params))

  pub pre-Grown :
      (params : Repo) (release : String) (s : State World)
      → Grown dry_run s (pre_repo_validation O params release dry_run s)
  unfolding pre_repo_validation
  pre-Grown params release s =
      chain dry_run s _ _
        (either_run dry_run (is_remote params.kind) s _ _ (nothing dry_run (ok tt) s) (
          chain dry_run s _ _ (signature-Grown params s) λ sig t.
            chain dry_run t _ _ (authenticity-Grown params sig t) λ _ u. hash-Grown params u))
        λ _ v. either_run dry_run dry_run v _ _ (nothing dry_run (ok tt) v) (
          chain dry_run v _ _
            (on_world-Grown dry_run (does_repo_exist ("sw_upgrade_*_" <> release)) v)
            λ _ x. nothing dry_run (ok tt) x)

  pub base-Grown :
      (candidate : Repo) (base_dir : String) (s : State World)
      → Grown dry_run s (base_repo_validation O candidate base_dir dry_run s)
  unfolding base_repo_validation
  base-Grown candidate base_dir s =
      either dry_run (is_remote candidate.kind) s _ _ (nothing dry_run (ok tt) s) (
        either dry_run dry_run s _ _ (nothing dry_run (ok tt) s) (
          catching-Grown dry_run is_validation_error
            (sw_update_repo_source_error candidate.source "Catalog structure validation error") s
            (r, s) (nothing dry_run r s)))
    where
      r : Result (Unit {0})
      r =
          validate_scheme (O.files s.world) (bundle_scheme s.source_version)
            (base_dir <> "/candidate")

  dir-Grown :
      (base_dir name : String) (info : Option RepoInfo) (s : State World)
      → Grown dry_run s (check_dir O base_dir name info dry_run s)
  unfolding check_dir
  dir-Grown base_dir name none s = nothing dry_run (ok tt) s
  dir-Grown base_dir name (some info) s =
      either_run dry_run info.is_repo s _ _ (single-Grown "candidate" name s) (
        either_run dry_run (name == "python_deps") s _ _ (python-Grown _ s)
          (nothing dry_run (ok tt) s))

  ver1-Grown :
      (repo_map : List RepoInfo) (base_dir : String) (names : List String) (s : State World)
      → Grown dry_run s (post_validation_ver1 O repo_map base_dir names dry_run s)
  unfolding post_validation_ver1
  ver1-Grown repo_map base_dir [] s = nothing dry_run (ok tt) s
  ver1-Grown repo_map base_dir (name ∷ names) s =
      chain dry_run s _ _ (dir-Grown base_dir name _ s) λ _ t. ver1-Grown repo_map base_dir names t

  info-Grown : (info : RepoInfo) (s : State World) → Grown dry_run s (check_info O info dry_run s)
  unfolding check_info
  info-Grown info s =
      let files = O.files s.world in
      either dry_run info.is_repo s _ _
        (either dry_run (files.exists info.path) s _ _
          (either dry_run (files.is_occupied info.path) s _ _ (single-Grown "candidate" info.name s)
            (nothing dry_run (ok tt) s))
          (nothing dry_run (ok tt) s))
        (either dry_run (info.name == "python") s _ _ (python-Grown info.path s)
          (nothing dry_run (ok tt) s))

  ver2-Grown :
      (infos : List RepoInfo) (s : State World)
      → Grown dry_run s (post_validation_ver2 O infos dry_run s)
  unfolding post_validation_ver2
  ver2-Grown [] s = nothing dry_run (ok tt) s
  ver2-Grown (info ∷ infos) s = chain dry_run s _ _ (info-Grown info s) λ _ t. ver2-Grown infos t

  pub post-Grown :
      (candidate : Repo) (base_dir : String) (s : State World)
      → Grown dry_run s (post_repo_validation O candidate base_dir dry_run s)
  unfolding post_repo_validation
  post-Grown candidate base_dir s =
      either dry_run (is_remote candidate.kind) s _ _ (nothing dry_run (ok tt) s)
        (split s.source_version)
    where
      split :
          (v : IsoVersion)
          → Grown {A = Unit {0}} dry_run s (elim v [
            | version1 ↦
                post_validation_ver1 O
                  (repo_infos candidate s.world)
                  base_dir
                  (subdirs (base_dir <> "/candidate") s.world)
                  dry_run
                  s
            | version2 ↦ post_validation_ver2 O (repo_infos candidate s.world) dry_run s
          ])
      split version1 =
          ver1-Grown (repo_infos candidate s.world) base_dir
            (subdirs (base_dir <> "/candidate") s.world) s
      split version2 = ver2-Grown (repo_infos candidate s.world) s
