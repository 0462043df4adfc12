-- ===== src/Ensure/Calls.antt =====
-- The calls that `ensure` (utils.py) makes, and properties of states across it.
use cortx_prvsnr.Prelude.{ℕ, zero, suc, ◌+◌, ◌<◌, ◌≤◌, max, Bool, some, ◌≡◌, inl, inr, arith}
use cortx_prvsnr.Prelude.{ltb, Bool-cases}
use mathlib.Core.Path.{subst}
use cortx_prvsnr.Exec.{Result, Exec, Keeps}
use cortx_prvsnr.Ensure.Rounds.{judge, Settings, ensure_loop, ensure}
use cortx_prvsnr.Ensure.Laws.{ensure_total, Verdict-Cases, at_pass, at_raise, at_again}

-- A check that counts its calls.
abbrev pub counting {ℓ} : {S : Type ℓ} → Exec S Bool → Exec (ℕ × S) Bool
counting check_cb (n, s) = ((check_cb s).0, (n + 1, (check_cb s).1))

abbrev pub counting_sleep {ℓ} : {S : Type ℓ} → (ℕ → S → S) → ℕ → ℕ × S → ℕ × S
counting_sleep sleep wait (n, s) = (n, sleep wait s)

module _ {ℓ} {S : Type ℓ} (sleep : ℕ → S → S) (o : Settings) (check_cb : Exec S Bool) where
  loop_calls :
      (fuel ntry n : ℕ) (s : S) (r : Result (Unit {0})) (t : ℕ × S)
      → ensure_loop (counting_sleep sleep) o (counting check_cb) fuel ntry (n, s) ≡ some (r, t)
      → (n < t.0) × (t.0 + ntry ≤ n + max (ntry + 1) o.tries)
  unfolding ensure_loop
  loop_calls zero ntry n s r t h = cc
  loop_calls (suc fuel) ntry n s r t h =
      ground (arith, loop_calls fuel (ntry + 1) (n + 1) (sleep o.wait (check_cb s).1) r t)

  -- The check is called at least once and at most `max 1 tries` times.
  pub ensure_calls :
      (s : S)
      → (1 ≤ (ensure (counting_sleep sleep) o (counting check_cb) (0, s)).1.0)
        × ((ensure (counting_sleep sleep) o (counting check_cb) (0, s)).1.0 ≤ max 1 o.tries)
  ensure_calls s = omega (
    arith,
    loop_calls (o.tries + 1) 0 0 s _ _
        (ensure_total (counting_sleep sleep) o (counting check_cb) (0, s)),
  )

module _ {ℓ κ} {S : Type ℓ} (P : S → Type κ) (sleep : ℕ → S → S) (o : Settings)
    (check_cb : Exec S Bool) (keep_sleep : (n : ℕ) (s : S) → P s → P (sleep n s))
    (keep_check : Keeps P check_cb) where
  loop-Keeps :
      (fuel ntry : ℕ) (s : S) (r : Result (Unit {0})) (t : S)
      → P s
      → ensure_loop sleep o check_cb fuel ntry s ≡ some (r, t)
      → P t
  unfolding ensure_loop
  loop-Keeps zero ntry s r t p h = cc
  loop-Keeps (suc fuel) ntry s r t p h =
      elim (Verdict-Cases (judge o.expected_exc (check_cb s).0)) [
        | at_pass e ↦ subst P (ground arith) (keep_check s p)
        | at_raise x e ↦ subst P (ground arith) (keep_check s p)
        | at_again x e ↦ elim (Bool-cases (ltb (ntry + 1) o.tries)) [
          | inl more ↦
              loop-Keeps fuel (ntry + 1) _ r t (keep_sleep o.wait _ (keep_check s p)) (ground arith)
          | inr last ↦ subst P (ground arith) (keep_check s p)
        ]
      ]

  -- A property of states that the check and the pause keep is kept by `ensure`, also when it raises.
  ensure-Keeps : Keeps P (ensure sleep o check_cb)
  ensure-Keeps s p = loop-Keeps (o.tries + 1) 0 s _ _ p (ensure_total sleep o check_cb s)
