-- ===== src/UpgradeRepo.antt =====
-- `SetSWUpgradeRepo` of commands/upgrade/set_swupgrade_repo.py: what it calls, and its state.
pub mod Checks
pub mod Packages
pub mod Compatibility
pub mod Compatible
pub mod Validation
pub mod Cleanup
pub mod Grown
pub mod Steps
pub mod Strict
pub mod DryRun
pub mod Collected
pub mod PillarValues
use cortx_prvsnr.Prelude.{String, ◌<>◌, Bool, true, false, Option, none, some, List, [], ◌∷◌, ◌++◌}
use cortx_prvsnr.Prelude.{if◌then◌else◌}
use cortx_prvsnr.Prelude.Dict.{Dict}
use cortx_prvsnr.Errors.{Exception, validation_error, salt_cmd_result_error, key_error}
use cortx_prvsnr.Exec.{Result, ok, err, Exec}
use cortx_prvsnr.Check.{CheckEntry}
use cortx_prvsnr.Validator.Paths.{Files}

-- `config.ISOVersion`
pub data IsoVersion : Type 0 where
  version1 version2 : IsoVersion

-- Where the repository comes from: a special value, a remote address, an ISO file or a directory.
pub data SourceKind : Type 0 where
  special remote iso_file directory : SourceKind

-- `inputs.SWUpgradeRepo`, as far as it is read here. An empty hash is one that is not given.
pub record Repo : Type 0 where
  pub source : String
  pub kind : SourceKind
  pub sig_file : Option String
  pub hash : String
  pub hash_type : Option String
  pub source_version : IsoVersion
  pub release : Option String

-- An entry of `pillar_value`: whether it is a yum repository, and its path.
pub record RepoInfo : Type 0 where
  pub name : String
  pub is_repo : Bool
  pub path : String

-- SaltStack, yum, pip, the pillar, other commands, and `packaging`. `is_older` compares parsed
-- versions, `satisfies` asks a specifier set; `first_subdir` is the first directory of a path.
pub record Ops : Type 1 where
  pub World : Type 0
  pub files : World → Files
  pub first_subdir : String → World → Option String
  pub subdirs : String → World → List String
  pub from_hex : String → Result String
  pub mount_dir : Exec World String
  pub copy_to_file_roots : String → String → Exec World (Unit {0})
  pub apply_repo : String → Option String → Exec World (Unit {0})
  pub repo_infos : Repo → World → List RepoInfo
  pub check_active_iso : Exec World (List CheckEntry)
  pub check_authenticity : Repo → String → Exec World (Bool × String)
  pub does_repo_exist : String → Exec World Bool
  pub is_repo_enabled : String → Exec World Bool
  pub check_repo_is_valid : String → String → Exec World (Unit {0})
  pub pip_download : String → String → Exec World (Unit {0})
  pub requires : Exec World (List String)
  pub release_version : Exec World String
  pub cortx_version : Exec World String
  pub yum_repo_packages : String → Exec World String
  pub yum_installed : List String → Exec World String
  pub is_older : String → String → Bool
  pub satisfies : String → String → Result Bool

-- The command's own state: `_exceptions` and `_source_version`.
pub record State (W : Type 0) : Type 0 where
  pub world : W
  pub exceptions : List Exception
  pub source_version : IsoVersion

-- The classes that the command catches by name.
unfoldable pub is_validation_error : Exception → Bool
is_validation_error (validation_error e) = true
is_validation_error e = false

unfoldable pub is_salt_cmd_result_error : Exception → Bool
is_salt_cmd_result_error (salt_cmd_result_error args reason) = true
is_salt_cmd_result_error e = false

unfoldable pub is_key_error : Exception → Bool
is_key_error (key_error e) = true
is_key_error e = false

module _ {W : Type 0} where
  unfoldable pub on_world {ℓ} : {A : Type ℓ} → Exec W A → Exec (State W) A
  on_world m s = let (r, w) = m s.world in (r, record s { world = w })

  unfoldable pub append : Exception → Exec (State W) (Unit {0})
  append exc s = (ok tt, record s { exceptions = s.exceptions ++ exc ∷ [] })

  -- `if dry_run: self._exceptions.append(exc) else: raise exc`
  unfoldable pub collect : Bool → Exception → Exec (State W) (Unit {0})
  unfolding append
  collect true exc s = append exc s
  collect false exc s = (err exc, s)

  -- `except` for the exceptions that pass the test, with the collection of another one.
  unfoldable pub catching :
      (Exception → Bool)
      → Bool
      → Exception
      → Result (Unit {0}) × State W
      → Result (Unit {0}) × State W
  unfolding collect
  catching test dry_run exc (ok u, s) = (ok u, s)
  catching test dry_run exc (err e, s) = if test e then collect dry_run exc s else (err e, s)
