-- ===== src/Exec.antt =====
-- Code that changes a state and may raise: what was written before a raise stays written.
use cortx_prvsnr.Prelude.{◌≡◌, refl, ap, ◌⊎◌, inl, inr, Bool, true, false, if◌then◌else◌}
use cortx_prvsnr.Errors.{Exception}

pub data Result {ℓ} (A : Type ℓ) : Type ℓ where
  ok : A → Result A
  err : Exception → Result A

-- The value that a result has.
pub ok_injective {ℓ} : {A : Type ℓ} {a b : A} → ok a ≡ ok b → a ≡ b
ok_injective {a = a} h = ap (λ (r : Result _). elim r [ ok x ↦ x | err e ↦ a ]) h

abbrev pub Exec {ℓ κ} : Type ℓ → Type κ → Type (ℓ ⊔ κ)
Exec S A = S → Result A × S

module _ {ℓ κ} {S : Type ℓ} {A : Type κ} where
  abbrev pub pure : A → Exec S A
  pure a s = (ok a, s)

  abbrev pub raise : Exception → Exec S A
  raise e s = (err e, s)

  abbrev pub lift : Result A → Exec S A
  lift r s = (r, s)

  -- `try: m except: …`, the handler told which exception it was.
  abbrev pub handle : (Exception → Exec S A) → Result A × S → Result A × S
  handle h (ok a, s) = (ok a, s)
  handle h (err e, s) = h e s

  -- A guarded block that returns passed its guard.
  pub unless-eq-ok :
      (b : Bool) (e : Exception) (m : Exec S A) (s : S) {a : A} {t : S}
      → (if b then raise e else m) s ≡ (ok a, t)
      → (b ≡ false) × (m s ≡ (ok a, t))
  unless-eq-ok true e m s h = cc
  unless-eq-ok false e m s h = (refl, h)

  pub when-eq-ok :
      (b : Bool) (e : Exception) (m : Exec S A) (s : S) {a : A} {t : S}
      → (if b then m else raise e) s ≡ (ok a, t)
      → (b ≡ true) × (m s ≡ (ok a, t))
  when-eq-ok true e m s h = (refl, h)
  when-eq-ok false e m s h = cc

module _ {ℓ κ μ} {S : Type ℓ} {A : Type κ} {B : Type μ} where
  abbrev pub continue : (A → Exec S B) → Result A × S → Result B × S
  continue f (ok a, s) = f a s
  continue f (err e, s) = (err e, s)

  infixl 5 ◌>>=◌ ◌>>◌
  abbrev pub ◌>>=◌ : Exec S A → (A → Exec S B) → Exec S B
  ◌>>=◌ m f s = continue f (m s)

  abbrev pub ◌>>◌ : Exec S A → Exec S B → Exec S B
  ◌>>◌ m n s = continue (λ _. n) (m s)

  -- A block that returns did each of its parts.
  pub >>=-eq-ok :
      (m : Exec S A) (f : A → Exec S B) (s : S) {b : B} {t : S}
      → (m >>= f) s ≡ (ok b, t)
      → (a : A) × (u : S) × (m s ≡ (ok a, u)) × (f a u ≡ (ok b, t))
  >>=-eq-ok m f s h = parts (m s) h
    where
      parts :
          (r : Result A × S) {b : B} {t : S}
          → continue f r ≡ (ok b, t)
          → (a : A) × (u : S) × (r ≡ (ok a, u)) × (f a u ≡ (ok b, t))
      parts (err e, u) h = cc
      parts (ok a, u) h = (a, u, refl, h)

  -- A block that breaks off does so at its first part or after it.
  pub >>=-eq-err :
      (m : Exec S A) (f : A → Exec S B) (s : S) {e : Exception} {t : S}
      → (m >>= f) s ≡ (err e, t)
      → (m s ≡ (err e, t)) ⊎ ((a : A) × (u : S) × (m s ≡ (ok a, u)) × (f a u ≡ (err e, t)))
  >>=-eq-err m f s h = parts (m s) h
    where
      parts :
          (r : Result A × S) {e : Exception} {t : S}
          → continue f r ≡ (err e, t)
          → (r ≡ (err e, t)) ⊎ ((a : A) × (u : S) × (r ≡ (ok a, u)) × (f a u ≡ (err e, t)))
      parts (err x, u) {e = e} {t = t} h =
          let is_e : x ≡ e = cc in let is_t : u ≡ t = cc in inl (rw (is_e, is_t) refl)
      parts (ok a, u) h = inr (a, u, refl, h)

  -- The same for a part that keeps the state.
  pub lift-eq-ok :
      (r : Result A) (f : A → Exec S B) (s : S) {b : B} {t : S}
      → (lift r >>= f) s ≡ (ok b, t)
      → (a : A) × (r ≡ ok a) × (f a s ≡ (ok b, t))
  lift-eq-ok (ok a) f s h = (a, refl, h)
  lift-eq-ok (err e) f s h = cc

  -- Where a block whose end does not raise breaks off, its first part has.
  pub before_pure-err :
      (m : Exec S A) (b : B) (s : S) {e : Exception} {t : S}
      → (m >> λ u. (ok b, u)) s ≡ (err e, t)
      → m s ≡ (err e, t)
  before_pure-err m b s h = part (m s) h
    where
      part :
          (r : Result A × S) {e : Exception} {t : S}
          → continue (λ a u. (ok b, u)) r ≡ (err e, t)
          → r ≡ (err e, t)
      part (ok a, u) h = cc
      part (err e, u) h = cc

-- A handled block that returns did not raise, or its handler returned.
pub handle-eq-ok {ℓ κ} :
    {S : Type ℓ} {A : Type κ} (h : Exception → Exec S A) (r : Result A × S) (a : A) (t : S)
    → handle h r ≡ (ok a, t)
    → (r ≡ (ok a, t)) ⊎ ((e : Exception) × (u : S) × (r ≡ (err e, u)) × (h e u ≡ (ok a, t)))
handle-eq-ok h (ok b, u) a t p = inl p
handle-eq-ok h (err e, u) a t p = inr (e, u, refl, p)

-- `m` keeps `P`, whether it returns or raises.
abbrev pub Keeps {ℓ κ μ} : {S : Type ℓ} {A : Type κ} → (S → Type μ) → Exec S A → Type (ℓ ⊔ μ)
Keeps {S = S} P m = (s : S) → P s → P (m s).1
