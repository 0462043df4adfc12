-- ===== src/Ensure/Rounds.antt =====
-- The loop of `ensure`, round by round.
use cortx_prvsnr.Prelude.{ℕ, zero, suc, ◌+◌, ltb, String, Bool, true, false, Option, none, some}
use cortx_prvsnr.Prelude.{◌<>◌, if◌then◌else◌}
use cortx_prvsnr.Errors.{Exception, no_more_tries_error, runtime_error}
use cortx_prvsnr.Exec.{Result, ok, err, Exec}

-- What one round of the loop comes to.
pub data Verdict : Type 0 where
  passed : Verdict
  raised : Exception → Verdict
  again : Option Exception → Verdict

-- `expected_exc and isinstance(_exc, expected_exc)`
unfoldable pub is_expected : Option (Exception → Bool) → Exception → Bool
is_expected none e = false
is_expected (some isinstance) e = isinstance e

-- The `try` of a round.
unfoldable pub judge : Option (Exception → Bool) → Result Bool → Verdict
unfolding is_expected
judge expected_exc (ok true) = passed
judge expected_exc (ok false) = again none
judge expected_exc (err e) = if is_expected expected_exc e then again (some e) else raised e

-- What is raised when the last try has failed.
unfoldable pub give_up : String → Option Exception → Exception
give_up name none = no_more_tries_error ("no more tries for " <> name)
give_up name (some exc) = exc

-- The arguments of `ensure` but for the check. `expected_exc` is the `isinstance` test.
pub record Settings : Type 0 where
  pub name : String
  pub tries : ℕ
  pub wait : ℕ
  pub expected_exc : Option (Exception → Bool)

module _ {ℓ} {S : Type ℓ} (sleep : ℕ → S → S) (o : Settings) (check_cb : Exec S Bool) where
  -- `while True`, with `ntry` tries made so far; `none` if the fuel runs out.
  unfoldable pub ensure_loop : ℕ → ℕ → S → Option (Result (Unit {0}) × S)
  ensure_loop zero ntry s = none
  ensure_loop (suc fuel) ntry s =
      let (r, s') = check_cb s in
      elim (judge o.expected_exc r) [
        | passed ↦ some (ok tt, s')
        | raised e ↦ some (err e, s')
        | again exc ↦
            let rest = ensure_loop fuel (ntry + 1) (sleep o.wait s') in
            if ltb (ntry + 1) o.tries then rest else some (err (give_up o.name exc), s')
      ]

  unfoldable pub finished : S → Option (Result (Unit {0}) × S) → Result (Unit {0}) × S
  finished s none = (err (runtime_error "out of fuel"), s)
  finished s (some r) = r

  -- `tries + 1` rounds of fuel, which are enough whatever the check does.
  unfoldable pub ensure : Exec S (Unit {0})
  unfolding ensure_loop finished
  ensure s = finished s (ensure_loop (o.tries + 1) 0 s)
