-- ===== src/UpgradeRepo/Checks.antt =====
-- The checks of an upgrade bundle: `_pre_repo_validation`, `_base_repo_validation` and
-- `_post_repo_validation` for both versions of the structure.
use cortx_prvsnr.Prelude.{String, ◌<>◌, Bool, true, false, Option, none, some, List, [], ◌∷◌, ◌==◌}
use cortx_prvsnr.Prelude.{if◌then◌else◌}
use cortx_prvsnr.Prelude.Text.{is_empty}
use cortx_prvsnr.Errors.{sw_update_repo_source_error}
use cortx_prvsnr.Exec.{Result, ok, err, Exec, pure, lift, ◌>>=◌, ◌>>◌}
use cortx_prvsnr.Utils.Checksum.{HashType, md5, HashInfo, load_checksum_from_str}
use cortx_prvsnr.Utils.Checksum.{load_checksum_from_file, to_hash_type}
use cortx_prvsnr.Validator.{Scheme, validate_hash_sum, validate_scheme}
use cortx_prvsnr.Validator.Bundle.{bundle_scheme_ver1, bundle_scheme_ver2}
use cortx_prvsnr.UpgradeRepo.{IsoVersion, version1, version2, SourceKind, special, remote}
use cortx_prvsnr.UpgradeRepo.{Repo, RepoInfo, Ops, State, on_world, collect}
use cortx_prvsnr.UpgradeRepo.{catching, is_validation_error, is_salt_cmd_result_error}

-- `is_special()` and `is_remote()`
unfoldable pub is_special : SourceKind → Bool
is_special special = true
is_special k = false

unfoldable pub is_remote : SourceKind → Bool
is_remote remote = true
is_remote k = false

-- `SW_UPGRADE_BUNDLE_SCHEME`
unfoldable pub bundle_scheme : IsoVersion → Scheme
bundle_scheme version1 = bundle_scheme_ver1
bundle_scheme version2 = bundle_scheme_ver2

-- The type of a hash where the text of the hash does not name it.
unfoldable pub with_type : HashInfo → Option String → HashInfo
with_type info none = info
with_type info (some given) = elim info.hash_type [
  | some t ↦ info
  | none ↦ elim (to_hash_type given) [ ok t ↦ record info { hash_type = t } | err e ↦ info ]
]

unfoldable pub default_type : Option HashType → HashType
default_type none = md5
default_type (some t) = t

module _ (O : Ops) where
  open O use {World, files, first_subdir, subdirs, from_hex, repo_infos, check_authenticity}
  open O use {does_repo_exist, is_repo_enabled, check_repo_is_valid, pip_download}

  abbrev pub Command {ℓ} : Type ℓ → Type ℓ
  Command A = Exec (State World) A

  unfoldable pub single_repo_validation : String → String → Bool → Command (Unit {0})
  unfolding catching is_salt_cmd_result_error collect on_world
  single_repo_validation release name dry_run = do
    λ s.
        catching is_salt_cmd_result_error dry_run
          (sw_update_repo_source_error name "malformed repo")
          (on_world (check_repo_is_valid "candidate" ("sw_upgrade_" <> name)) s)
    enabled ← on_world (is_repo_enabled ("sw_upgrade_" <> name <> "_" <> release))
    (if enabled
        then collect dry_run (sw_update_repo_source_error name "has been already enabled")
        else pure tt)

  unfoldable pub validate_python_index : String → Bool → Command (Unit {0})
  unfolding catching on_world
  validate_python_index path dry_run s = elim (first_subdir path s.world) [
    | none ↦ (ok tt, s)
    | some name ↦
        catching (λ e. true) dry_run
          (sw_update_repo_source_error path "Python index validation failed")
          (on_world (pip_download name path) s)
  ]

  -- `_get_hash_params(params)`
  unfoldable pub get_hash_params : Repo → World → Result HashInfo
  unfolding with_type load_checksum_from_str load_checksum_from_file
  get_hash_params params w =
      if (files w).exists params.hash
      then elim ((files w).read_bytes params.hash) [
        | ok content ↦ load_checksum_from_file (some content)
        | err e ↦ err e
      ]
      else elim (load_checksum_from_str params.hash) [
        | ok info ↦ ok (with_type info params.hash_type)
        | err e ↦ err e
      ]

  unfoldable pub check_iso_integrity : Repo → HashInfo → Bool → Command (Unit {0})
  unfolding catching is_validation_error default_type
  check_iso_integrity params info dry_run = do
    hash_sum ← lift (from_hex info.hash_sum)
    λ s.
        catching is_validation_error dry_run
          (sw_update_repo_source_error params.source "Check sum validation error")
          (
            validate_hash_sum (files s.world) false (default_type info.hash_type) hash_sum
                params.source,
            s,
          )

  unfoldable pub check_iso_authenticity : Repo → String → Bool → Command (Unit {0})
  unfolding collect on_world
  check_iso_authenticity params sig_file dry_run = do
    res ← on_world (check_authenticity params sig_file)
    (if res.0 then pure tt else collect dry_run (sw_update_repo_source_error params.source res.1))

  -- The signature beside the ISO where none is given; it has to be there.
  unfoldable pub find_signature : Repo → Bool → Command String
  unfolding collect
  find_signature params dry_run s = elim params.sig_file [
    | some sig ↦ (ok sig, s)
    | none ↦
        let sig = params.source <> ".sig" in
        ((if (files s.world).exists sig
              then pure tt
              else collect dry_run
                  (sw_update_repo_source_error params.source "Signature file is not found"))
            >> pure sig)
          s
  ]

  unfoldable pub check_hash : Repo → Bool → Command (Unit {0})
  unfolding is_empty get_hash_params check_iso_integrity
  check_hash params dry_run =
      if is_empty params.hash
      then pure tt
      else (λ s. (get_hash_params params s.world, s)) >>= λ info.
          check_iso_integrity params info dry_run

  unfoldable pub pre_repo_validation : Repo → String → Bool → Command (Unit {0})
  unfolding find_signature check_iso_authenticity check_hash is_remote on_world
  pre_repo_validation params release dry_run = do
    (if is_remote params.kind then pure tt else (do
      sig ← find_signature params dry_run
      check_iso_authenticity params sig dry_run
      check_hash params dry_run))
    (if dry_run
        then pure tt
        else on_world (does_repo_exist ("sw_upgrade_*_" <> release)) >> pure tt)

  -- The structure of the bundle is checked only when it is not a dry run.
  unfoldable pub base_repo_validation : Repo → String → Bool → Command (Unit {0})
  unfolding catching is_validation_error is_remote bundle_scheme
  base_repo_validation candidate base_dir dry_run s =
      if is_remote candidate.kind
      then (ok tt, s)
      else if dry_run
      then (ok tt, s)
      else catching is_validation_error dry_run
          (sw_update_repo_source_error candidate.source "Catalog structure validation error")
          (
            validate_scheme (files s.world) (bundle_scheme s.source_version)
                (base_dir <> "/candidate"),
            s,
          )

  find_info : String → List RepoInfo → Option RepoInfo
  find_info name [] = none
  find_info name (i ∷ is) = if i.name == name then some i else find_info name is

  -- One directory of the mounted bundle, with what the pillar says of it.
  unfoldable pub check_dir : String → String → Option RepoInfo → Bool → Command (Unit {0})
  unfolding single_repo_validation validate_python_index
  check_dir base_dir name none dry_run = pure tt
  check_dir base_dir name (some info) dry_run =
      if info.is_repo
      then single_repo_validation "candidate" name dry_run
      else if name == "python_deps"
      then validate_python_index (base_dir <> "/candidate/" <> name) dry_run
      else pure tt

  -- `SetSWUpgradeRepoVer1._post_repo_validation`: the directories of the mounted bundle.
  unfoldable pub post_validation_ver1 :
      List RepoInfo → String → List String → Bool → Command (Unit {0})
  unfolding find_info check_dir
  post_validation_ver1 repo_map base_dir [] dry_run = pure tt
  post_validation_ver1 repo_map base_dir (name ∷ names) dry_run =
      check_dir base_dir name (find_info name repo_map) dry_run
      >> post_validation_ver1 repo_map base_dir names dry_run

  -- One repository of the pillar; one without files is left out.
  unfoldable pub check_info : RepoInfo → Bool → Command (Unit {0})
  unfolding single_repo_validation validate_python_index
  check_info info dry_run s =
      if info.is_repo
      then (if (files s.world).exists info.path
          then (if (files s.world).is_occupied info.path
              then single_repo_validation "candidate" info.name dry_run s
              else (ok tt, s))
          else (ok tt, s))
      else if info.name == "python"
      then validate_python_index info.path dry_run s
      else (ok tt, s)

  -- `SetSWUpgradeRepoVer2._post_repo_validation`: the repositories of the pillar.
  unfoldable pub post_validation_ver2 : List RepoInfo → Bool → Command (Unit {0})
  unfolding check_info
  post_validation_ver2 [] dry_run = pure tt
  post_validation_ver2 (info ∷ infos) dry_run =
      check_info info dry_run >> post_validation_ver2 infos dry_run

  unfoldable pub post_repo_validation : Repo → String → Bool → Command (Unit {0})
  unfolding is_remote post_validation_ver1 post_validation_ver2
  post_repo_validation candidate base_dir dry_run s =
      if is_remote candidate.kind then (ok tt, s) else elim s.source_version [
        | version1 ↦
            post_validation_ver1 (repo_infos candidate s.world) base_dir
              (subdirs (base_dir <> "/candidate") s.world) dry_run s
        | version2 ↦ post_validation_ver2 (repo_infos candidate s.world) dry_run s
      ]
