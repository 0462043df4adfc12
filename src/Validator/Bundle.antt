-- ===== src/Validator/Bundle.antt =====
-- The schemes of upgrade bundles in commands/upgrade/set_swupgrade_repo.py, with the names of files
-- and directories of config.py.
pub mod Laws
use cortx_prvsnr.Prelude.{true, false}
use cortx_prvsnr.Validator.{Validator, Scheme, file_validator, dir_validator, nil, entry, unchecked}
use cortx_prvsnr.Validator.{release_info_validator, yum_repo_data_validator}
use cortx_prvsnr.Validator.Paths.{yaml}
use cortx_prvsnr.Validator.Content.{release_info, third_party_release_info}

-- A yum repository without other files that are asked for.
abbrev pub repo_scheme : Scheme
repo_scheme = entry "repodata" yum_repo_data_validator nil

-- `SW_UPGRADE_BUNDLE_SCHEME_VER1`
unfoldable pub bundle_scheme_ver1 : Scheme
unfolding release_info_validator
bundle_scheme_ver1 =
    entry "3rd_party"
      (dir_validator false
        (entry "THIRD_PARTY_RELEASE.INFO"
          (release_info_validator third_party_release_info true yaml) repo_scheme)
        false)
      (entry "cortx_iso"
        (dir_validator true
          (entry "RELEASE.INFO" (release_info_validator release_info true yaml) repo_scheme) false)
        (entry "python_deps"
          (dir_validator false (entry "index.html" (file_validator true unchecked) nil) false)
          (entry "os"
            (dir_validator false
              (entry "RELEASE.INFO" (release_info_validator release_info false yaml) repo_scheme)
              false)
            nil)))

-- The parts of `SW_UPGRADE_BUNDLE_SCHEME_VER2`: directories with optional, empty subdirectories.
abbrev pub fw : Validator
fw =
    dir_validator false
      (entry "server" (dir_validator false nil true)
        (entry "storage" (dir_validator false nil true) nil))
      true

abbrev pub os : Validator
os = dir_validator false (entry "patches" (dir_validator false nil true) nil) true

unfoldable pub cortx : Validator
unfolding release_info_validator
cortx =
    dir_validator true
      (entry "CORTX_RELEASE.INFO" (release_info_validator release_info true yaml) repo_scheme) false

unfoldable pub rpm : Validator
rpm =
    dir_validator true
      (entry "EPEL-7" (dir_validator true repo_scheme false) (
        entry "commons" (dir_validator false repo_scheme true)
          (entry "performance" (dir_validator false repo_scheme true) nil)))
      false

unfoldable pub external : Validator
unfolding rpm release_info_validator
external =
    dir_validator false
      (entry "THIRD_PARTY_RELEASE.INFO" (release_info_validator third_party_release_info true yaml)
        (entry "python"
          (dir_validator false (entry "index.html" (file_validator true unchecked) nil) true)
          (entry "rpm" rpm nil)))
      true

unfoldable pub sw : Validator
unfolding cortx external
sw = dir_validator true (entry "cortx" cortx (entry "external" external nil)) false

-- `SW_UPGRADE_BUNDLE_SCHEME_VER2`
unfoldable pub bundle_scheme_ver2 : Scheme
unfolding sw release_info_validator
bundle_scheme_ver2 =
    entry "RELEASE.INFO" (release_info_validator release_info true yaml)
      (entry "fw" fw (entry "os" os (entry "sw" sw nil)))
