-- ===== src/Validator/Bundle/Laws.antt =====
-- What a bundle of version 2 holds that the validation accepts.
use cortx_prvsnr.Prelude.{String, ◌≡◌, Bool, true, false, arith}
use cortx_prvsnr.Exec.{ok}
use cortx_prvsnr.Validator.{ContentCheck, Validator, Scheme}
use cortx_prvsnr.Validator.{file_validator, dir_validator, entry, validate_scheme}
use cortx_prvsnr.Validator.{release_info_validator}
use cortx_prvsnr.Validator.Paths.{Files, join, yaml}
use cortx_prvsnr.Validator.Content.{release_info, third_party_release_info}
use cortx_prvsnr.Validator.Content.Laws.{HasContent}
use cortx_prvsnr.Validator.Conforms.{Passes, Conforms, AllConform}
use cortx_prvsnr.Validator.Conforms.{present_file, a_file, absent_dir, empty_dir}
use cortx_prvsnr.Validator.Conforms.{filled_dir, and_more}
use cortx_prvsnr.Validator.Conforms.Laws.{validate_scheme-AllConform}
use cortx_prvsnr.Validator.Bundle.{bundle_scheme_ver2, sw, cortx, external, rpm, repo_scheme}

module _ (F : Files) where
  open F use {exists, is_file, is_dir, is_occupied}

  first :
      {sub_path path : String} {v : Validator} {scheme : Scheme}
      → AllConform F (entry sub_path v scheme) path
      → Conforms F v (join path sub_path)
  first (and_more c all) = c

  others :
      {sub_path path : String} {v : Validator} {scheme : Scheme}
      → AllConform F (entry sub_path v scheme) path
      → AllConform F scheme path
  others (and_more c all) = all

  required_file :
      {check : ContentCheck} {path : String}
      → Conforms F (file_validator true check) path
      → (is_file path ≡ true) × Passes F check path
  required_file (a_file (present_file there file passes)) = (file, passes)

  required_dir :
      {scheme : Scheme} {path : String}
      → Conforms F (dir_validator true scheme false) path
      → AllConform F scheme path
  required_dir (filled_dir there dir all) = all

  occupied_dir :
      {scheme : Scheme} {path : String} {required : Bool}
      → Conforms F (dir_validator required scheme true) path
      → exists path ≡ true
      → is_occupied path ≡ true
      → AllConform F scheme path
  occupied_dir (absent_dir gone) there occupied = ground arith
  occupied_dir (empty_dir there dir none_there) _ occupied = ground arith
  occupied_dir (filled_dir there dir all) _ occupied = all

  -- The file that makes a directory a yum repository.
  pub repomd : String → String
  unfolding join
  repomd path = join (join path "repodata") "repomd.xml"

  repo : {path : String} → AllConform F repo_scheme path → is_file (repomd path) ≡ true
  unfolding repomd
  repo all = (required_file (first (required_dir (first all)))).0

  -- What the upgrade takes from a bundle that is mounted.
  pub record HasCore (mount : String) : Type 0 where
    pub release : HasContent F release_info yaml (join mount "RELEASE.INFO")
    pub cortx_release :
        HasContent F release_info yaml (join (join (join mount "sw") "cortx") "CORTX_RELEASE.INFO")
    pub cortx_repo : is_file (repomd (join (join mount "sw") "cortx")) ≡ true
    pub third_party :
        exists (join (join mount "sw") "external") ≡ true
        → is_occupied (join (join mount "sw") "external") ≡ true
        → HasContent F third_party_release_info yaml
            (join (join (join mount "sw") "external") "THIRD_PARTY_RELEASE.INFO")
          × (is_file (repomd (join (join (join (join mount "sw") "external") "rpm") "EPEL-7"))
              ≡ true)

  -- A bundle of version 2 that is accepted has the release information, and under `sw/cortx` the
  -- release information and a yum repository; where it has other software, that has release
  -- information of its kind and the repository `EPEL-7`.
  bundle_ver2-HasCore :
      (mount : String) → validate_scheme F bundle_scheme_ver2 mount ≡ ok tt → HasCore mount
  unfolding bundle_scheme_ver2 sw cortx external rpm release_info_validator Passes
  bundle_ver2-HasCore mount h =
      let all = (validate_scheme-AllConform F bundle_scheme_ver2 mount).0 h in
      let in_sw = required_dir (first (others (others (others all)))) in
      let in_cortx = required_dir (first in_sw) in
      record {
        release = (required_file (first all)).1;
        cortx_release = (required_file (first in_cortx)).1;
        cortx_repo = repo (others in_cortx);
        third_party = λ there occupied.
            let in_external = occupied_dir (first (others in_sw)) there occupied in
            let in_rpm = required_dir (first (others (others in_external))) in
            ((required_file (first in_external)).1, repo (required_dir (first in_rpm)));
      }
