-- ===== src/Ensure/Laws.antt =====
-- The rounds of `ensure` (utils.py) and its result.
use cortx_prvsnr.Prelude.{ℕ, zero, suc, ◌+◌, ◌<◌, ◌≤◌, max, Bool, true, false, Option, none, some}
use cortx_prvsnr.Prelude.{◌≡◌, ◌≢◌, refl, ◌⊎◌, inl, inr, arith, ltb, Bool-cases, ap, ◌∙◌, ◌↔◌}
use cortx_prvsnr.Errors.{Exception}
use cortx_prvsnr.Exec.{Result, ok, err, Exec}
use cortx_prvsnr.Ensure.Rounds.{Verdict, passed, raised, again, judge, give_up, Settings}
use cortx_prvsnr.Ensure.Rounds.{ensure_loop, finished, ensure}

-- The verdict asks for another round.
abbrev pub IsAgain : Verdict → Type 0
IsAgain (again exc) = Unit
IsAgain passed = ⊥
IsAgain (raised e) = ⊥

passes-judge : (f : Option (Exception → Bool)) (r : Result Bool) → r ≡ ok true → judge f r ≡ passed
unfolding judge
passes-judge f (ok true) e = refl
passes-judge f (ok false) e = cc
passes-judge f (err x) e = cc

judge-passes : (f : Option (Exception → Bool)) (r : Result Bool) → judge f r ≡ passed → r ≡ ok true
unfolding judge
judge-passes f (ok true) e = refl
judge-passes f (ok false) e = cc
judge-passes f (err x) e = ground arith

pub data Cases (v : Verdict) : Type 0 where
  at_pass : v ≡ passed → Cases v
  at_raise : (e : Exception) → v ≡ raised e → Cases v
  at_again : (exc : Option Exception) → v ≡ again exc → Cases v

pub Verdict-Cases : (v : Verdict) → Cases v
Verdict-Cases passed = at_pass refl
Verdict-Cases (raised e) = at_raise e refl
Verdict-Cases (again exc) = at_again exc refl

module _ {ℓ} {S : Type ℓ} (sleep : ℕ → S → S) (o : Settings) (check_cb : Exec S Bool) where
  abbrev verdict : S → Verdict
  verdict s = judge o.expected_exc (check_cb s).0

  abbrev after_round : S → S
  after_round s = sleep o.wait (check_cb s).1

  -- The state in which round `k` starts, rounds counted from 0.
  abbrev pub state_at : ℕ → S → S
  state_at zero s = s
  state_at (suc k) s = state_at k (after_round s)

  -- The first `k` rounds all ask for another one.
  abbrev pub Retries : ℕ → S → Type 0
  Retries zero s = Unit
  Retries (suc k) s = IsAgain (verdict s) × Retries k (after_round s)

  loop-ne-none :
      (fuel ntry : ℕ) (s : S)
      → o.tries < ntry + fuel
      → 0 < fuel
      → ensure_loop sleep o check_cb fuel ntry s ≢ none
  unfolding ensure_loop
  loop-ne-none zero ntry s h g = absurd (omega arith)
  loop-ne-none (suc fuel) ntry s h g = ground (arith, loop-ne-none fuel (ntry + 1) (after_round s))

  -- `ensure` ends within `tries + 1` rounds, whatever the check and the state: its result is the
  -- one that the loop has with this fuel, and the fuel is never used up.
  pub ensure_total :
      (s : S) → ensure_loop sleep o check_cb (o.tries + 1) 0 s ≡ some (ensure sleep o check_cb s)
  unfolding ensure finished
  ensure_total s =
      rest (ensure_loop sleep o check_cb (o.tries + 1) 0 s)
        (loop-ne-none (o.tries + 1) 0 s (omega arith) (omega arith))
    where
      rest :
          (r : Option (Result (Unit {0}) × S)) → r ≢ none → r ≡ some (finished sleep o check_cb s r)
      rest none h = absurd (h refl)
      rest (some r) h = refl

  loop_of_pass :
      (k fuel ntry : ℕ) (s t : S)
      → o.tries < ntry + fuel
      → 0 < fuel
      → (k ≡ 0) ⊎ (ntry + k < o.tries)
      → Retries k s
      → check_cb (state_at k s) ≡ (ok true, t)
      → ensure_loop sleep o check_cb fuel ntry s ≡ some (ok tt, t)
  unfolding ensure_loop judge
  loop_of_pass k zero ntry s t h g w r e = absurd (omega arith)
  loop_of_pass zero (suc fuel) ntry s t h g w r e = ground arith
  loop_of_pass (suc k) (suc fuel) ntry s t h g w (r, rs) e =
      ground (arith, loop_of_pass k fuel (ntry + 1) (after_round s) t)

  loop_passed :
      (fuel ntry : ℕ) (s t : S)
      → ensure_loop sleep o check_cb fuel ntry s ≡ some (ok tt, t)
      → (k : ℕ) × ((k ≡ 0) ⊎ (ntry + k < o.tries))
        × Retries k s
        × (check_cb (state_at k s) ≡ (ok true, t))
  unfolding ensure_loop
  loop_passed zero ntry s t h = cc
  loop_passed (suc fuel) ntry s t h = elim (Verdict-Cases (verdict s)) [
    | at_pass e ↦ (0, inl refl, tt, ground (arith, judge-passes o.expected_exc (check_cb s).0 e))
    | at_raise x e ↦ ground arith
    | at_again x e ↦ elim (Bool-cases (ltb (ntry + 1) o.tries)) [
      | inl more ↦
          let (k, w, r, p) = loop_passed fuel (ntry + 1) (after_round s) t (ground arith) in
          (suc k, inr (ground arith), (rw e tt, r), p)
      | inr last ↦ ground arith
    ]
  ]

  -- `ensure` returns exactly when a try within the bound (the first one always is) passes and all
  -- tries before it were to be repeated. It then leaves the state of that passing check.
  pub ensure-eq-ok :
      (s t : S)
      → (ensure sleep o check_cb s ≡ (ok tt, t)) ↔ (
          (k : ℕ) × ((k ≡ 0) ⊎ (k < o.tries))
          × Retries k s
          × (check_cb (state_at k s) ≡ (ok true, t)))
  ensure-eq-ok s t = (
    λ h.
        let (k, w, r, p) = loop_passed (o.tries + 1) 0 s t (ensure_total s ∙ ap some h) in
        (k, within k w, r, p),
    λ (k, w, r, p). cc (
      ensure_total s,
      loop_of_pass k (o.tries + 1) 0 s t (omega arith) (omega arith) (ground arith) r p,
    ),
  )
    where
      within : (k : ℕ) → (k ≡ 0) ⊎ (0 + k < o.tries) → (k ≡ 0) ⊎ (k < o.tries)
      within k w = ground arith

  loop_of_last :
      (k fuel ntry : ℕ) (s : S) (exc : Option Exception)
      → o.tries < ntry + fuel
      → 0 < fuel
      → (k ≡ 0) ⊎ (ntry + k < o.tries)
      → o.tries ≤ ntry + k + 1
      → Retries k s
      → verdict (state_at k s) ≡ again exc
      → ensure_loop sleep o check_cb fuel ntry s
        ≡ some (err (give_up o.name exc), (check_cb (state_at k s)).1)
  unfolding ensure_loop
  loop_of_last k zero ntry s exc h g w l r e = absurd (omega arith)
  loop_of_last zero (suc fuel) ntry s exc h g w l r e = ground arith
  loop_of_last (suc k) (suc fuel) ntry s exc h g w l (r, rs) e =
      ground (arith, loop_of_last k fuel (ntry + 1) (after_round s) exc)

  -- When the last allowed try, the first one if `tries` is 0, is to be repeated like all before it,
  -- `ensure` raises: the expected exception of that try, or `NoMoreTriesError` if it returned false.
  ensure_exhausted :
      (k : ℕ) (s : S) (exc : Option Exception)
      → k + 1 ≡ max 1 o.tries
      → Retries k s
      → verdict (state_at k s) ≡ again exc
      → ensure sleep o check_cb s ≡ (err (give_up o.name exc), (check_cb (state_at k s)).1)
  ensure_exhausted k s exc last r e = cc (
    ensure_total s,
    loop_of_last k (o.tries + 1) 0 s exc (omega arith) (omega arith) (grind arith) (omega arith) r
        e,
  )
