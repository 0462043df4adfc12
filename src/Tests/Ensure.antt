-- ===== src/Tests/Ensure.antt =====
-- `ensure` with a check that passes at its third call, and with one that never does.
use cortx_prvsnr.Prelude.{ℕ, ◌+◌, ◌≡◌, refl, ltb, Bool, true, false, none, some, ◌⊎◌, ◌<◌, ◌≤◌, max}
use cortx_prvsnr.Exec.{ok, Exec}
use cortx_prvsnr.Ensure.{Settings, ensure, ensure_loop, judge}
use cortx_prvsnr.Ensure.Laws.{ensure_total, ensure-eq-ok, Retries, state_at}
use cortx_prvsnr.Ensure.Calls.{ensure_calls, counting, counting_sleep}

abbrev no_sleep : ℕ → ℕ → ℕ
no_sleep wait n = n

abbrev third : Exec ℕ Bool
third n = (ok (ltb 1 n), n + 1)

abbrev never : Exec ℕ Bool
never n = (ok false, n + 1)

abbrev tries_of : ℕ → Settings
tries_of n = record { name = "check"; tries = n; wait = 1; expected_exc = none }

ensure-third : ensure no_sleep (tries_of 5) third 0 ≡ (ok tt, 3)
unfolding ensure judge
ensure-third = refl

ensure_total_example :
    ensure_loop no_sleep (tries_of 5) third 6 0 0 ≡ some (ensure no_sleep (tries_of 5) third 0)
ensure_total_example = ensure_total no_sleep (tries_of 5) third 0

ensure-eq-ok_example :
    (k : ℕ) × ((k ≡ 0) ⊎ (k < 5))
    × Retries no_sleep (tries_of 5) third k 0
    × (third (state_at no_sleep (tries_of 5) third k 0) ≡ (ok true, 3))
ensure-eq-ok_example = (ensure-eq-ok no_sleep (tries_of 5) third 0 3).0 ensure-third

ensure_calls_example :
    (1 ≤ (ensure (counting_sleep no_sleep) (tries_of 2) (counting never) (0, 0)).1.0)
    × ((ensure (counting_sleep no_sleep) (tries_of 2) (counting never) (0, 0)).1.0 ≤ max 1 2)
ensure_calls_example = ensure_calls no_sleep (tries_of 2) never 0
