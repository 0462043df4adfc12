-- ===== src/Check.antt =====
-- `CheckEntry`, `CheckResult` and the decision makers of commands/check.py.
pub mod Laws
use cortx_prvsnr.Prelude.{
  String, ◌<>◌, Bool, true, false, ◌&&◌, ◌||◌, Option, none, some, List, [], ◌∷◌, ◌++◌, ◌==◌,
}
use cortx_prvsnr.Prelude.{if◌then◌else◌}
use cortx_prvsnr.Prelude.Text.{is_empty}
use cortx_prvsnr.Errors.{value_error, validation_error, critical_validation_error, reason}
use cortx_prvsnr.Errors.{sw_upgrade_error}
use cortx_prvsnr.Exec.{Result, ok, err, Exec, pure, raise, ◌>>◌}

-- `config.CheckVerdict`
pub data CheckVerdict : Type 0 where
  passed fail : CheckVerdict

-- The target and the comment are not read before there is a verdict. `None` as `_critical` counts
-- as false.
pub record CheckEntry : Type 0 where
  pub check_name : String
  pub verdict : Option CheckVerdict
  pub comment : String
  pub checked_target : String
  pub critical : Bool

unfoldable pub new_check : String → CheckEntry
new_check name = record {
  check_name = name;
  verdict = none;
  comment = "";
  checked_target = "";
  critical = false;
}

unfoldable pub set_fail : String → String → CheckEntry → CheckEntry
set_fail target comment c = record c {
  verdict = some fail;
  checked_target = target;
  comment = comment;
}

unfoldable pub set_passed : String → String → CheckEntry → CheckEntry
set_passed target comment c = record c {
  verdict = some passed;
  checked_target = target;
  comment = comment;
}

unfoldable pub is_failed : CheckEntry → Bool
is_failed c = elim c.verdict [ none ↦ false | some v ↦ elim v [ passed ↦ false | fail ↦ true ] ]

unfoldable pub is_passed : CheckEntry → Bool
is_passed c = elim c.verdict [ none ↦ false | some v ↦ elim v [ passed ↦ true | fail ↦ false ] ]

unfoldable pub is_set : CheckEntry → Bool
is_set c = elim c.verdict [ none ↦ false | some v ↦ true ]

verdict_text : CheckVerdict → String
verdict_text passed = "passed"
verdict_text fail = "fail"

-- `str(check)`
unfoldable pub show_check : CheckEntry → String
unfolding verdict_text is_empty
show_check c = elim c.verdict [
  | none ↦ ""
  | some v ↦
      c.checked_target
      <> ": "
      <> c.check_name
      <> ": "
      <> verdict_text v
      <> (if is_empty c.comment then "" else ": " <> c.comment)
]

-- The checks of a `CheckResult`.
unfoldable pub all_passed : List CheckEntry → Bool
unfolding is_passed
all_passed [] = true
all_passed (c ∷ cs) = is_passed c && all_passed cs

unfoldable pub any_failed : List CheckEntry → Bool
unfolding is_failed
any_failed [] = false
any_failed (c ∷ cs) = is_failed c || any_failed cs

unfoldable pub has_critical_failure : List CheckEntry → Bool
unfolding is_failed
has_critical_failure [] = false
has_critical_failure (c ∷ cs) = (is_failed c && c.critical) || has_critical_failure cs

unfoldable pub add_check : Bool → CheckEntry → Exec (List CheckEntry) (Unit {0})
unfolding is_set
add_check critical c entries =
    if is_set c
    then (ok tt, entries ++ record c { critical = critical } ∷ [])
    else (err (value_error "Check verdict is not set"), entries)

unfoldable pub add_checks : Bool → List CheckEntry → Exec (List CheckEntry) (Unit {0})
unfolding add_check
add_checks critical [] = pure tt
add_checks critical (c ∷ cs) = add_check critical c >> add_checks critical cs

-- `value in {wanted}`, or in `{False, True}`
unfoldable pub admits : Option Bool → Bool → Bool
admits none value = true
admits (some true) value = value
admits (some false) true = false
admits (some false) false = true

unfoldable pub get_checks : Option Bool → Option Bool → List CheckEntry → List CheckEntry
unfolding admits is_failed
get_checks failed critical [] = []
get_checks failed critical (c ∷ cs) =
    let rest = get_checks failed critical cs in
    if admits failed (is_failed c) && admits critical c.critical then c ∷ rest else rest

-- `"; ".join(…)`
unfoldable pub format_checks : List CheckEntry → String
unfolding show_check
format_checks [] = ""
format_checks (c ∷ []) = show_check c
format_checks (c ∷ (d ∷ cs)) = show_check c <> "; " <> format_checks (d ∷ cs)

-- `CRITICALLY_FAILED`, as it stands in config.py
unfoldable pub critically_failed : List CheckEntry → List CheckEntry
unfolding get_checks
critically_failed entries = get_checks (some false) (some true) entries

-- `make_decision` of `DecisionMaker`, `PreChecksDecisionMaker`, `PostChecksDecisionMaker`,
-- `SWUpdateDecisionMaker` and `SWUpgradeDecisionMaker`.
unfoldable pub make_decision : List CheckEntry → Result (Unit {0})
unfolding any_failed has_critical_failure critically_failed format_checks
make_decision entries =
    if any_failed entries
    then (if has_critical_failure entries
        then err (critical_validation_error (format_checks (critically_failed entries)))
        else ok tt)
    else ok tt

unfoldable pub make_pre_decision : List CheckEntry → Result (Unit {0})
unfolding get_checks format_checks
make_pre_decision entries = elim (get_checks (some true) none entries) [
  | [] ↦ ok tt
  | c ∷ cs ↦
      err
        (validation_error ("One or more Pre-Flight Checks have failed: " <> format_checks (c ∷ cs)))
]

unfoldable pub make_post_decision : List CheckEntry → Result (Unit {0})
make_post_decision entries = ok tt

unfoldable pub make_update_decision : List CheckEntry → Result (Unit {0})
make_update_decision entries = ok tt

unfoldable pub make_upgrade_decision : List CheckEntry → Result (Unit {0})
unfolding any_failed get_checks format_checks
make_upgrade_decision entries =
    if any_failed entries
    then err (
        sw_upgrade_error (
          reason (
            "The following checks are failed: '"
            <> format_checks (get_checks (some true) none entries)
            <> "'")))
    else ok tt
