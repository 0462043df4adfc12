-- ===== src/Check/Laws.antt =====
-- The checks that a `CheckResult` holds and the decisions on them (commands/check.py).
use cortx_prvsnr.Prelude.{String, ◌≡◌, refl, Bool, true, false, List, [], ◌∷◌, ◌++◌, ◌↔◌, arith}
use cortx_prvsnr.Prelude.{Bool-cases, inl, inr}
use cortx_prvsnr.Errors.{critical_validation_error}
use cortx_prvsnr.Exec.{ok, err, Keeps}
use cortx_prvsnr.Check.{CheckEntry, is_failed, is_set, any_failed, get_checks, admits}
use cortx_prvsnr.Check.{add_check, add_checks, critically_failed, format_checks, make_decision}
use cortx_prvsnr.Check.{make_upgrade_decision}

abbrev pub NoneFailed : List CheckEntry → Type 0
NoneFailed [] = Unit
NoneFailed (c ∷ cs) = (is_failed c ≡ false) × NoneFailed cs

abbrev pub AllCritical : List CheckEntry → Type 0
AllCritical [] = Unit
AllCritical (c ∷ cs) = (c.critical ≡ true) × AllCritical cs

abbrev pub AllSet : List CheckEntry → Type 0
AllSet [] = Unit
AllSet (c ∷ cs) = (is_set c ≡ true) × AllSet cs

any_failed-NoneFailed : (cs : List CheckEntry) → any_failed cs ≡ false → NoneFailed cs
unfolding any_failed
any_failed-NoneFailed [] h = tt
any_failed-NoneFailed (c ∷ cs) h = (ground arith, any_failed-NoneFailed cs (ground arith))

NoneFailed-any_failed : (cs : List CheckEntry) → NoneFailed cs → any_failed cs ≡ false
unfolding any_failed
NoneFailed-any_failed [] h = refl
NoneFailed-any_failed (c ∷ cs) (f, h) = ground (arith, NoneFailed-any_failed cs h)

-- The upgrade goes on exactly when none of the checks has failed.
make_upgrade_decision-NoneFailed :
    (cs : List CheckEntry) → (make_upgrade_decision cs ≡ ok tt) ↔ NoneFailed cs
unfolding make_upgrade_decision
make_upgrade_decision-NoneFailed cs =
    (λ h. any_failed-NoneFailed cs (ground arith), λ h. ground (arith, NoneFailed-any_failed cs h))

selected :
    (cs : List CheckEntry) → NoneFailed (critically_failed cs) × AllCritical (critically_failed cs)
unfolding critically_failed get_checks admits
selected [] = (tt, tt)
selected (c ∷ cs) = elim (Bool-cases (is_failed c)) [
  | inl failed ↦ rw failed (selected cs)
  | inr fine ↦ elim (Bool-cases c.critical) [
    | inl critical ↦
        rw (fine, critical) ((unfold is_failed in fine, (selected cs).0), (refl, (selected cs).1))
    | inr plain ↦ rw (fine, plain) (selected cs)
  ]
]

-- The message of a critical failure lists the critical checks that have not failed.
make_decision-critical :
    (cs : List CheckEntry) (message : String)
    → make_decision cs ≡ err (critical_validation_error message)
    → (listed : List CheckEntry) × (message ≡ format_checks listed)
      × NoneFailed listed
      × AllCritical listed
unfolding make_decision
make_decision-critical cs message h =
    (critically_failed cs, ground arith, (selected cs).0, (selected cs).1)

append-AllSet :
    (cs : List CheckEntry) (c : CheckEntry) → AllSet cs → is_set c ≡ true → AllSet (cs ++ c ∷ [])
append-AllSet [] c a s = (s, tt)
append-AllSet (d ∷ cs) c (x, a) s = (x, append-AllSet cs c a s)

-- A result has only checks with a verdict, also after an addition that is refused halfway.
add_checks-AllSet : (critical : Bool) (cs : List CheckEntry) → Keeps AllSet (add_checks critical cs)
unfolding add_checks add_check
add_checks-AllSet critical [] entries a = a
add_checks-AllSet critical (c ∷ cs) entries a = elim (Bool-cases (is_set c)) [
  | inl done ↦ rw done (
      add_checks-AllSet critical cs _
        (append-AllSet entries (record c { critical = critical }) a (unfold is_set in done)))
  | inr missing ↦ rw missing a
]
