-- ===== src/Salt/Client/Shown.antt =====
-- Which arguments the errors of a salt call show.
use cortx_prvsnr.Prelude.{◌≡◌, Bool, true, false, some, arith, if◌then◌else◌}
use cortx_prvsnr.Errors.{Exception, salt_cmd_run_error}
use cortx_prvsnr.Exec.{Result, ok, err, Exec, continue, handle, raise, ◌>>=◌}
use cortx_prvsnr.Json.{Json}
use cortx_prvsnr.Update.{wrapped}
use cortx_prvsnr.Salt.Client.Plain.{cmd_args, IsPlain}

-- The arguments that a result shows, when it is an error that has some, are `view`.
abbrev pub Shows {ℓ} : {A : Type ℓ} → Json → Result A → Type 0
Shows view (ok a) = Unit
Shows view (err e) = (shown : Json) → cmd_args e ≡ some shown → shown ≡ view

module _ {ℓ} {A : Type ℓ} where
  pub IsPlain-Shows : (view : Json) (r : Result A) → IsPlain r → Shows view r
  IsPlain-Shows view (ok a) p = tt
  IsPlain-Shows view (err e) p = λ shown h. ground (arith, p, h)

  pub if-Shows :
      {S : Type 0} (view : Json) (b : Bool) (x y : Exec S A) (s : S)
      → Shows view (x s).0
      → Shows view (y s).0
      → Shows view ((if b then x else y) s).0
  if-Shows view true x y s p q = p
  if-Shows view false x y s p q = q

  pub wrapped-Shows :
      (S : Type 0) (view : Json) (m : Exec S A) (s : S)
      → Shows view (wrapped (salt_cmd_run_error view) m s).0
  unfolding wrapped cmd_args
  wrapped-Shows S view m s = split (m s)
    where
      split : (r : Result A × S) → Shows view (handle (λ e. raise (salt_cmd_run_error view e)) r).0
      split (ok a, t) = tt
      split (err e, t) = λ shown h. ground (arith, h)

pub then-Shows {ℓ κ} :
    {S : Type 0} {A : Type ℓ} {B : Type κ} (view : Json) (m : Exec S A) (f : A → Exec S B) (s : S)
    → Shows view (m s).0
    → ((a : A) (t : S) → Shows view (f a t).0)
    → Shows view ((m >>= f) s).0
then-Shows view m f s p q = split (m s) p
  where
    split : (r : Result _ × _) → Shows view r.0 → Shows view (continue f r).0
    split (ok a, t) p = q a t
    split (err e, t) p = p

-- What an error of a block shows.
pub shown-of {ℓ} :
    {S : Type 0} {A : Type ℓ} (view shown : Json) (r : Result A × S) (e : Exception) (t : S)
    → Shows view r.0
    → r ≡ (err e, t)
    → cmd_args e ≡ some shown
    → shown ≡ view
shown-of {A = A} view shown r e t p h shows =
    let at : Shows {A = A} view (err e) = rw h at p in at shown shows
