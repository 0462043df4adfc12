-- ===== src/Tests/Check.antt =====
-- A critical check that fails beside one that passes.
use cortx_prvsnr.Prelude.{◌≡◌, refl, true, [], ◌∷◌}
use cortx_prvsnr.Errors.{critical_validation_error}
use cortx_prvsnr.Exec.{ok, err}
use cortx_prvsnr.Check.{CheckEntry, new_check, set_fail, set_passed, make_decision}
use cortx_prvsnr.Check.{make_upgrade_decision}

abbrev bad : CheckEntry
bad = record (set_fail "srvnode-1" "down" (new_check "network")) { critical = true }

abbrev good : CheckEntry
good = record (set_passed "srvnode-1" "" (new_check "bmc")) { critical = true }

misleading :
    make_decision (bad ∷ good ∷ []) ≡ err (critical_validation_error "srvnode-1: bmc: passed")
unfolding make_decision set_fail set_passed new_check
misleading = refl

goes_on : make_upgrade_decision (good ∷ []) ≡ ok tt
unfolding make_upgrade_decision set_passed new_check
goes_on = refl
