-- ===== src/UpdateRepo.antt =====
-- `SetSWUpdateRepo` of commands/set_swupdate_repo.py, and `SWUpdateRepo` of inputs.py as far as it
-- is read there.
pub mod Checked
pub mod Laws
use Prim.Native.Char.{code}
use cortx_prvsnr.Prelude.{String, ◌<>◌, Bool, true, false, Option, none, some, List, [], ◌∷◌}
use cortx_prvsnr.Prelude.{if◌then◌else◌, ◌==◌, not, eqb}
use cortx_prvsnr.Prelude.Text.{is_empty}
use cortx_prvsnr.Prelude.Dict.{Dict, lookup}
use cortx_prvsnr.Errors.{Exception, sw_update_repo_source_error, bad_pillar_data_error}
use cortx_prvsnr.Exec.{Result, ok, err, Exec, pure, raise, lift, handle, ◌>>=◌, ◌>>◌}
use cortx_prvsnr.Utils.Version.{is_space, before, strip}
use cortx_prvsnr.Update.{wrapped}
use cortx_prvsnr.UpgradeRepo.{is_salt_cmd_result_error}

-- The source of a repository: a special value, the address of a remote repository, or the path of
-- an ISO file or a directory.
pub data Source : Type 0 where
  unchanged undefined : Source
  remote local_iso local_dir : String → Source

-- The metadata of a release, a value `none` for null.
abbrev pub Metadata : Type 0
Metadata = Dict (Option String)

-- `inputs.SWUpdateRepo`; `enabled` is the only entry that `repo_params` may have.
pub record Repo : Type 0 where
  pub release : String
  pub source : Source
  pub enabled : Option Bool
  pub metadata : Metadata

-- What the pillar gets for a repository: its source as it is, or how it is mounted.
pub data PillarValue : Type 0 where
  as_it_is : Source → PillarValue
  mounted : String → Option Bool → PillarValue

unfoldable pub pillar_value : Repo → PillarValue
pillar_value repo = elim repo.source [
  | local_iso path ↦ mounted "iso" repo.enabled
  | local_dir path ↦ mounted "dir" repo.enabled
  | s ↦ as_it_is s
]

unfoldable pub is_special : Source → Bool
is_special unchanged = true
is_special undefined = true
is_special s = false

unfoldable pub source_text : Source → String
source_text unchanged = "PRVSNR_UNCHANGED"
source_text undefined = "PRVSNR_UNDEFINED"
source_text (remote url) = url
source_text (local_iso path) = path
source_text (local_dir path) = path

-- `s.split()` with the empty texts still between the spaces.
pieces : String → List String
unfolding is_space
pieces String.[] = "" ∷ []
pieces (String.◌∷◌ c s) =
    let rest = pieces s in
    if is_space (code c)
    then "" ∷ rest
    else elim rest [ [] ↦ String.◌∷◌ c "" ∷ [] | p ∷ ps ↦ String.◌∷◌ c p ∷ ps ]

-- `repo.strip().split('/')[0]`
unfoldable pub repo_id : String → String
unfolding strip before
repo_id text = before (λ c. eqb c b'/') (strip text)

-- `release in repos`, for the identifiers in the output of yum.
listed : String → List String → Bool
unfolding repo_id is_empty
listed release [] = false
listed release (repo ∷ repos) =
    let rest = listed release repos in
    if is_empty repo then rest else if repo_id repo == release then true else rest

-- The release that the metadata names: `RELEASE`, or else `VERSION-BUILD`.
as_text : Option String → String
as_text none = "None"
as_text (some s) = s

from_version : String → Option (Option String) → Option (Option String) → Result String
unfolding as_text
from_version source (some version) (some build) = ok (as_text version <> "-" <> as_text build)
from_version source version build =
    err (sw_update_repo_source_error source "No release data found in 'RELEASE.INFO'")

unfoldable pub release_of : String → Metadata → Result String
unfolding lookup from_version
release_of source metadata =
    let by_version = from_version source (lookup "VERSION" metadata) (lookup "BUILD" metadata) in
    elim (lookup "RELEASE" metadata) [
      | some found ↦ elim found [ none ↦ by_version | some release ↦ ok release ]
      | none ↦ by_version
    ]

-- SaltStack, the pillar, YAML, and the output of yum: for one repository, for the enabled ones, and
-- for the packages of a repository. `apply` is `Set._apply` for one pillar key.
pub record Ops : Type 1 where
  pub World : Type 0
  pub copy_to_file_roots : String → String → Exec World (Unit {0})
  pub base_dir : Exec World (Option String)
  pub repo_info : String → Exec World String
  pub repo_info_enabled : Exec World String
  pub list_available : String → Exec World (Unit {0})
  pub load_yaml : String → Exec World Metadata
  pub apply : String → PillarValue → Exec World (Unit {0})

module _ (O : Ops) where
  open O use {World, copy_to_file_roots, base_dir, repo_info, repo_info_enabled, list_available}
  open O use {load_yaml, apply}

  -- `self._apply(repo, …)`
  unfoldable pub apply_repo : Repo → Exec World (Unit {0})
  unfolding pillar_value
  apply_repo repo = apply repo.release (pillar_value repo)

  with_params : Bool → Repo → Repo
  with_params enabled repo = if enabled then repo else record repo { enabled = some false }

  unfoldable pub prepare_repo_for_apply : Repo → Bool → Exec World Repo
  unfolding with_params
  prepare_repo_for_apply repo enabled = elim repo.source [
    | local_iso path ↦
        copy_to_file_roots path (repo.release <> ".iso") >> pure (with_params enabled repo)
    | local_dir path ↦ copy_to_file_roots path repo.release >> pure (with_params enabled repo)
    | _ ↦ pure repo
  ]

  specified : Option String → Exec World String
  unfolding is_empty
  specified none =
      raise (bad_pillar_data_error "value for release/update/base_dir is not specified")
  specified (some dir) =
      if is_empty dir
      then raise (bad_pillar_data_error "value for release/update/base_dir is not specified")
      else pure dir

  unfoldable pub get_mount_dir : Exec World String
  unfolding specified
  get_mount_dir = base_dir >>= specified

  unfoldable pub does_repo_exist : String → Exec World Bool
  unfolding repo_id is_empty
  does_repo_exist release = repo_info release >>= λ out. pure (not (is_empty (repo_id out)))

  unfoldable pub is_repo_enabled : String → Exec World Bool
  unfolding listed pieces
  is_repo_enabled release = repo_info_enabled >>= λ out. pure (listed release (pieces out))

  malformed : String → Exception → Exception
  unfolding is_salt_cmd_result_error
  malformed source e =
      if is_salt_cmd_result_error e then sw_update_repo_source_error source "malformed repo" else e

  -- `_check_repo_is_valid`, with its `except SaltCmdResultError`.
  unfoldable pub check_repo_is_valid : String → String → Exec World (Unit {0})
  unfolding wrapped malformed
  check_repo_is_valid source release =
      wrapped (malformed source) (list_available ("sw_update_" <> release))

  unfoldable pub load_metadata : String → String → Exec World Metadata
  unfolding wrapped
  load_metadata source dir =
      wrapped (λ e. sw_update_repo_source_error source "Failed to load 'RELEASE.INFO' file")
        (load_yaml (dir <> "/candidate/RELEASE.INFO"))

  unfoldable pub candidate_of : Repo → Repo
  candidate_of repo = record {
    release = "candidate";
    source = repo.source;
    enabled = none;
    metadata = [];
  }

  -- The body of the `try`: the repository with the release and the metadata that were found.
  unfoldable pub validate_candidate : Repo → Exec World Repo
  unfolding candidate_of prepare_repo_for_apply apply_repo check_repo_is_valid get_mount_dir
      load_metadata release_of is_repo_enabled source_text
  validate_candidate repo = do
    candidate ← prepare_repo_for_apply (candidate_of repo) false
    apply_repo candidate
    check_repo_is_valid (source_text repo.source) "candidate"
    dir ← get_mount_dir
    metadata ← load_metadata (source_text repo.source) dir
    release ← lift (release_of (source_text repo.source) metadata)
    enabled ← is_repo_enabled ("sw_update_" <> release)
    pure (record repo { release = release; metadata = metadata })

  -- `finally`: an exception of the removal takes the place of the result.
  unfoldable pub cleaned : Result Repo × World → Result Repo × World
  cleaned (r, w) = (apply "candidate" (as_it_is undefined) >> lift r) w

  -- `dynamic_validation`: what it returns, and the repository as it leaves it.
  unfoldable pub dynamic_validation : Repo → Exec World (Option Metadata × Repo)
  unfolding is_special does_repo_exist cleaned validate_candidate
  dynamic_validation repo =
      if is_special repo.source
      then pure (none, repo)
      else does_repo_exist "sw_update_candidate" >>= λ found.
          (λ w. cleaned (validate_candidate repo w)) >>= λ checked.
          pure (some checked.metadata, checked)

  pub remove_enabled : Repo → Bool → Exec World (Unit {0})
  remove_enabled repo enabled = if enabled then apply repo.release (as_it_is undefined) else pure tt

  unfoldable pub run_repo : Repo → Exec World Metadata
  unfolding is_repo_enabled remove_enabled prepare_repo_for_apply apply_repo
  run_repo repo = do
    enabled ← is_repo_enabled ("sw_update_" <> repo.release)
    remove_enabled repo enabled
    prepared ← prepare_repo_for_apply repo true
    apply_repo prepared
    pure prepared.metadata

  -- `Set.run` for this class.
  unfoldable pub set_repo : Bool → Repo → Exec World (Option Metadata)
  unfolding dynamic_validation run_repo
  set_repo dry_run repo = dynamic_validation repo >>= λ res.
      if dry_run then pure res.0 else run_repo res.1 >>= λ metadata. pure (some metadata)
