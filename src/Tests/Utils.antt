-- ===== src/Tests/Utils.antt =====
-- A line of a checksum file, and versions of packages.
use cortx_prvsnr.Prelude.{◌≡◌, refl}
use cortx_prvsnr.Exec.{ok}
use cortx_prvsnr.Utils.Version.{normalize_rpm_version}

normalize-release : normalize_rpm_version "2.0.0-438_git1a2b.el7" ≡ ok "2.0.0-438"
unfolding normalize_rpm_version
normalize-release = refl

normalize-plain : normalize_rpm_version " 2.0.0" ≡ ok "2.0.0-0"
unfolding normalize_rpm_version
normalize-plain = refl
