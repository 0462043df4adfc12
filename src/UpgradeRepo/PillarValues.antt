-- ===== src/UpgradeRepo/PillarValues.antt =====
-- `pillar_value` of `SWUpgradeRepo` in inputs.py: the repositories of a bundle in the pillar.
pub mod Laws
use cortx_prvsnr.Prelude.{String, ◌<>◌, Bool, true, false, Option, none, some, List, [], ◌∷◌}
use cortx_prvsnr.Prelude.Dict.{Dict, insert}
use cortx_prvsnr.UpgradeRepo.{IsoVersion, version1, version2, SourceKind, special, remote, Repo}

-- One repository: its source, the version of the bundle, whether yum knows it, whether it is enabled.
pub record RepoEntry : Type 0 where
  pub source : String
  pub version : Option String
  pub is_repo : Bool
  pub enabled : Option Bool

-- `none` is the null that removes a repository.
abbrev pub PillarValue : Type 0
PillarValue = Dict (Option RepoEntry)

-- A dict display: a key that comes twice keeps its place and has its last value.
unfoldable pub from_items : List (String × Option RepoEntry) → PillarValue → PillarValue
unfolding insert
from_items [] d = d
from_items ((k, v) ∷ items) d = from_items items (insert k v d)

unfoldable pub version_text : IsoVersion → String
version_text version1 = "1.0.0"
version_text version2 = "2.0.0"

unfoldable pub release_text : Option String → String
release_text none = "None"
release_text (some release) = release

-- The ISO itself, from the file roots `iso_dir` of salt.
bundle_entry : String → IsoVersion → String → Option RepoEntry
unfolding version_text
bundle_entry iso_dir v release = some (record {
  source = "salt://" <> iso_dir <> "/" <> release <> ".iso";
  version = some (version_text v);
  is_repo = false;
  enabled = none;
})

entry_at : String → Bool → Option Bool → Option RepoEntry
entry_at source is_repo enabled =
    some (record { source = source; version = none; is_repo = is_repo; enabled = enabled })

-- The repositories that the removal names, whatever the version of the bundle.
unfoldable pub removed_items : String → List (String × Option RepoEntry)
removed_items release =
    ("os", none)
    ∷ ("cortx_iso", none)
    ∷ ("3rd_party", none)
    ∷ ("python_deps", none)
    ∷ (release, none)
    ∷ []

unfoldable pub ver1_items : String → String → Bool → String → List (String × Option RepoEntry)
unfolding bundle_entry entry_at
ver1_items iso_dir root enabled release =
    (release, bundle_entry iso_dir version1 release)
    ∷ ("os", entry_at (root <> "os") true (some false))
    ∷ ("cortx_iso", entry_at (root <> "cortx_iso") true (some enabled))
    ∷ ("3rd_party", entry_at (root <> "3rd_party") true (some enabled))
    ∷ ("python_deps", entry_at (root <> "python_deps") false none)
    ∷ []

unfoldable pub ver2_items : String → String → Bool → String → List (String × Option RepoEntry)
unfolding bundle_entry entry_at
ver2_items iso_dir root enabled release =
    let external = root <> "sw/external/" in
    (release, bundle_entry iso_dir version2 release)
    ∷ ("fw", entry_at (root <> "fw") false (some enabled))
    ∷ ("os", entry_at (root <> "os") false (some enabled))
    ∷ ("cortx", entry_at (root <> "sw/cortx") true (some enabled))
    ∷ ("python", entry_at (external <> "python") false none)
    ∷ ("EPEL-7", entry_at (external <> "rpm/EPEL-7") true none)
    ∷ ("commons", entry_at (external <> "rpm/commons") true none)
    ∷ ("performance", entry_at (external <> "rpm/performance") true none)
    ∷ []

module _ (iso_dir : String) (target_build : String) (enabled : Bool) where
  unfoldable pub pillar_values_ver1 : String → PillarValue
  unfolding from_items ver1_items
  pillar_values_ver1 release =
      from_items
        (ver1_items iso_dir ("file://" <> target_build <> "/" <> release <> "/") enabled release) []

  unfoldable pub pillar_values_ver2 : String → PillarValue
  unfolding from_items ver2_items
  pillar_values_ver2 release =
      from_items
        (ver2_items iso_dir ("file://" <> target_build <> "/" <> release <> "/") enabled release) []

  remote_values : String → PillarValue
  unfolding from_items entry_at
  remote_values source =
      from_items
        (("os", entry_at (source <> "/os") true (some enabled))
          ∷ ("cortx_iso", entry_at (source <> "/cortx_iso") true (some enabled))
          ∷ ("3rd_party", entry_at (source <> "/3rd_party") true (some enabled))
          ∷ ("python_deps", entry_at (source <> "/python_deps") false none)
          ∷ [])
        []

  unfoldable pub removed_values : String → PillarValue
  unfolding from_items removed_items
  removed_values release = from_items (removed_items release) []

  unfoldable pub local_values : IsoVersion → String → PillarValue
  unfolding pillar_values_ver1 pillar_values_ver2
  local_values version1 release = pillar_values_ver1 release
  local_values version2 release = pillar_values_ver2 release

  unfoldable pub pillar_value : Repo → PillarValue
  unfolding release_text remote_values removed_values local_values
  pillar_value repo = elim repo.kind [
    | special ↦ removed_values (release_text repo.release)
    | remote ↦ remote_values repo.source
    | _ ↦ local_values repo.source_version (release_text repo.release)
  ]
