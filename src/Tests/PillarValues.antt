-- ===== src/Tests/PillarValues.antt =====
-- The repositories of a bundle in the pillar.
use cortx_prvsnr.Prelude.{◌≡◌, ◌≢◌, refl, ap, ◌==◌, String, false, true, none, some, arith}
use cortx_prvsnr.Prelude.Dict.{lookup, insert}
use cortx_prvsnr.UpgradeRepo.{Repo, version1, version2, iso_file}
use cortx_prvsnr.UpgradeRepo.PillarValues.{pillar_value, from_items, local_values, release_text}
use cortx_prvsnr.UpgradeRepo.PillarValues.{pillar_values_ver1, ver1_items}
use cortx_prvsnr.UpgradeRepo.PillarValues.Laws.{values_set, values_removed}
use cortx_prvsnr.UpgradeRepo.PillarValues.Laws.{pillar_value-misses}

abbrev legacy : Repo
legacy = record {
  source = "cortx.iso";
  kind = iso_file;
  sig_file = none;
  hash = "";
  hash_type = none;
  source_version = version1;
  release = some "2.0.0-277";
}

abbrev modern : Repo
modern = record legacy { source_version = version2 }

os_set : lookup "os" (values_set "isos" "/mnt" true legacy) ≢ none
unfolding pillar_value local_values release_text pillar_values_ver1 ver1_items from_items insert
    lookup
os_set h = ground arith

other_name : release_text modern.release ≢ "cortx"
unfolding release_text
other_name h = let differ : false ≡ true = ap (λ (s : String). s == "cortx") h in ground arith

pillar_value-misses_example :
    (lookup "cortx" (values_removed "isos" "/mnt" true modern) ≡ none)
    × (lookup "cortx" (values_set "isos" "/mnt" true modern) ≢ none)
pillar_value-misses_example = pillar_value-misses "isos" "/mnt" true modern refl other_name
