-- ===== src/Fallible.antt =====
-- Results without a state, for `do` blocks of code that changes nothing.
use cortx_prvsnr.Prelude.{◌≡◌, refl}
use cortx_prvsnr.Exec.{Result, ok, err}

module _ {ℓ κ} {A : Type ℓ} {B : Type κ} where
  infixl 5 ◌>>=◌
  abbrev pub ◌>>=◌ : Result A → (A → Result B) → Result B
  ok x >>= next = next x
  err exc >>= next = err exc

  -- What the first part gave to the second one.
  pub >>=-ok :
      (first : Result A) (next : A → Result B) (y : B)
      → first >>= next ≡ ok y
      → (x : A) × (first ≡ ok x) × (next x ≡ ok y)
  >>=-ok (ok x) next y done = (x, refl, done)
  >>=-ok (err exc) next y done = cc
