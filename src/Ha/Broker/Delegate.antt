-- ===== src/Ha/Broker/Delegate.antt =====
-- `ClusterManagerBroker._delegate` (cortx_ha.py): the interface that answers.
use cortx_prvsnr.Prelude.{◌≡◌, refl, ap, ◌↔◌, ◌⊎◌, inl, inr, List, [], ◌∷◌, ◌++◌, arith}
use cortx_prvsnr.Errors.{not_implemented_error}
use cortx_prvsnr.Exec.{Result, ok, err, Exec}
use cortx_prvsnr.Ha.Managers.{Env, Manager}
use cortx_prvsnr.Ha.Broker.{State, on_world, active_interfaces, try_each, delegate}
use cortx_prvsnr.Ha.Broker.{delegate_to, or_else}

-- The call raised `NotImplementedError`.
abbrev pub IsUnsupported {ℓ} : {A : Type ℓ} → Result A → Type 0
IsUnsupported (err (not_implemented_error e)) = Unit
IsUnsupported _ = ⊥

module _ {ℓ} {A : Type ℓ} (E : Env) (api : Manager → Exec E.World A) where
  -- All of the managers in turn raise `NotImplementedError`, which leads from one state to another.
  abbrev pub Skips : List Manager → State E → State E → Type 0
  Skips [] b t = b ≡ t
  Skips (cm ∷ cms) b t =
      IsUnsupported (on_world E (api cm) b).0 × Skips cms (on_world E (api cm) b).1 t

  try_each-ok :
      (pre post : List Manager) (cm : Manager) (b u t : State E) (a : A)
      → Skips pre b u
      → on_world E (api cm) u ≡ (ok a, t)
      → try_each E api (pre ++ cm ∷ post) b ≡ (ok a, t)
  unfolding try_each
  try_each-ok [] post cm b u t a s h = ground (arith, s)
  try_each-ok (x ∷ pre) post cm b u t a (no_support, s) h =
      ground (arith, try_each-ok pre post cm _ u t a s h)

  or_else-ok :
      (r : Result A × State E) (next : Exec (State E) A) (a : A) (t : State E)
      → or_else E api r next ≡ (ok a, t)
      → (r ≡ (ok a, t)) ⊎ (IsUnsupported r.0 × (next r.1 ≡ (ok a, t)))
  unfolding or_else
  or_else-ok (ok x, b) next a t h = inl h
  or_else-ok (err (not_implemented_error e), b) next a t h = inr (tt, h)
  or_else-ok (err _, b) next a t h = ground arith

  try_each-ok_inv :
      (cms : List Manager) (b t : State E) (a : A)
      → try_each E api cms b ≡ (ok a, t)
      → (pre : List Manager) × (cm : Manager) × (post : List Manager) × (u : State E) × (cms
          ≡ pre ++ cm ∷ post)
        × Skips pre b u
        × (on_world E (api cm) u ≡ (ok a, t))
  unfolding try_each
  try_each-ok_inv [] b t a h = cc
  try_each-ok_inv (x ∷ cms) b t a h =
      elim (or_else-ok (on_world E (api x) b) (try_each E api cms) a t h) [
        | inl answer ↦ ([], x, cms, b, refl, refl, answer)
        | inr (no_support, rest) ↦
            let (pre, cm, post, u, e, s, answer) = try_each-ok_inv cms _ t a rest in
            (x ∷ pre, cm, post, u, ap (λ (l : List Manager). x ∷ l) e, (no_support, s), answer)
      ]

  delegate_to-eq :
      (cms : List Manager) (b t : State E) (a : A)
      → (delegate_to E api cms b ≡ (ok a, t)) ↔ (try_each E api cms b ≡ (ok a, t))
  unfolding delegate_to try_each
  delegate_to-eq [] b t a = (λ h. ground arith, λ h. ground arith)
  delegate_to-eq (cm ∷ cms) b t a = (λ h. h, λ h. h)

  -- A delegated call returns exactly when some usable interface returns that value, and all usable
  -- interfaces before it raise `NotImplementedError`.
  pub delegate-eq-ok :
      (b t : State E) (a : A)
      → (delegate E api b ≡ (ok a, t)) ↔ (
          (pre : List Manager) × (cm : Manager) × (post : List Manager) × (u : State E)
          × ((active_interfaces E b).0 ≡ pre ++ cm ∷ post)
          × Skips pre (active_interfaces E b).1 u
          × (on_world E (api cm) u ≡ (ok a, t)))
  unfolding delegate
  delegate-eq-ok b t a = (
    λ h. try_each-ok_inv (active_interfaces E b).0 _ t a ((delegate_to-eq _ _ t a).0 h),
    λ (pre, cm, post, u, e, s, answer).
        (delegate_to-eq _ _ t a).1 (rw e (try_each-ok pre post cm _ u t a s answer)),
  )
