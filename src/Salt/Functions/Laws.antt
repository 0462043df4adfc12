-- ===== src/Salt/Functions/Laws.antt =====
-- What the states that have been applied leave behind.
use cortx_prvsnr.Prelude.{String, ◌≡◌, refl, ap, Bool, false, List, [], ◌∷◌, ◌||◌}
use cortx_prvsnr.Prelude.{arith, ◌==◌}
use cortx_prvsnr.Exec.{ok, ok_injective, >>=-eq-ok}
use cortx_prvsnr.Json.{null, get}
use cortx_prvsnr.Prelude.{◌⊎◌, inl, inr, Bool-cases, eq_iff, true, sym, ◌∙◌}
use cortx_prvsnr.Json.{Json, Fields, end, contains_key, put}
use cortx_prvsnr.Json.Laws.{contains_key-put, get-put}
use cortx_prvsnr.Salt.Args.{Targets}
use cortx_prvsnr.Salt.Client.{Env, Session}
use cortx_prvsnr.Salt.Functions.{Keywords, state_apply, states_applied, states_apply}

-- `name in states`
unfoldable pub listed : String → List String → Bool
listed name [] = false
listed name (state ∷ states) = (state == name) || listed name states

module _ (E : Env) where
  -- The states were applied one after the other, each to the state that the one before had left,
  -- and what each call returned was put under its name, into the results so far.
  pub data Applied (targets : Targets) (k : Keywords)
      : List String → Fields → Session E.World → Fields → Session E.World → Type 0 where
    no_state : {ret : Fields} {s : Session E.World} → Applied targets k [] ret s ret s
    next_state :
        {state : String} {states : List String} {ret found : Fields} {res : Json}
        {s t u : Session E.World}
        → state_apply E state targets k s ≡ (ok res, t)
        → Applied targets k states (put state res ret) t found u
        → Applied targets k (state ∷ states) ret s found u

  states_applied-Applied :
      (states : List String) (targets : Targets) (k : Keywords) (ret found : Fields)
      (s t : Session E.World)
      → states_applied E states targets k ret s ≡ (ok found, t)
      → Applied targets k states ret s found t
        × ((name : String)
            → contains_key name found ≡ (listed name states || contains_key name ret))
  unfolding states_applied listed
  states_applied-Applied [] targets k ret found s t h =
      let is_found : ret ≡ found = ok_injective (ap (λ r. r.0) h) in
      (rw (← ap (λ r. r.1) h, ← is_found) no_state, λ name. rw (← is_found) refl)
  states_applied-Applied (state ∷ states) targets k ret found s t h =
      let (res, u, is_res, h₁) = >>=-eq-ok (state_apply E state targets k) _ s h in
      let (rest, names) =
        states_applied-Applied states targets k (put state res ret) found u t h₁ in
      (
        next_state is_res rest,
        λ name.
            let kept = names name in
            let added = contains_key-put state name res ret in ground (arith, kept, added),
      )

  -- What a call of that state returned is found under its name.
  abbrev pub Called : Targets → Keywords → Fields → String → Type 0
  Called targets k found name =
      (u v : Session E.World) × (res : Json) × (state_apply E name targets k u ≡ (ok res, v))
      × (get name null found ≡ res)

  states_applied-Called :
      (states : List String) (targets : Targets) (k : Keywords) (ret found : Fields)
      (s t : Session E.World) (name : String)
      → states_applied E states targets k ret s ≡ (ok found, t)
      → Called targets k found name
        ⊎ ((listed name states ≡ false) × (get name null found ≡ get name null ret))
  unfolding states_applied listed
  states_applied-Called [] targets k ret found s t name h =
      inr (refl, ap (λ fs. get name null fs) (sym (ok_injective (ap (λ r. r.0) h))))
  states_applied-Called (state ∷ states) targets k ret found s t name h =
      let (res, u, is_res, h₁) = >>=-eq-ok (state_apply E state targets k) _ s h in
      elim (states_applied-Called states targets k (put state res ret) found u t name h₁) [
        | inl called ↦ inl called
        | inr (no_later, same) ↦ elim (Bool-cases (state == name)) [
          | inl here ↦
              let is_name : state ≡ name = (eq_iff state name).0 here in
              inl (
                s,
                u,
                res,
                rw is_name at is_res,
                same ∙ get-put state name res null ret ∙ rw here refl,
              )
          | inr other ↦
              inr (rw other no_later, same ∙ get-put state name res null ret ∙ rw other refl)
        ]
      ]

  -- When states have been applied, each was applied in its turn to what the one before had left;
  -- the result is the dict in which what each call returned was put under the name of its state,
  -- in this order and starting from the empty dict; and its keys are the states that were given,
  -- and no other. So what a call of a state returned is found under its name.
  pub states_apply-Applied :
      (states : List String) (targets : Targets) (k : Keywords) (found : Fields)
      (s t : Session E.World)
      → states_apply E states targets k s ≡ (ok found, t)
      → Applied targets k states end s found t
        × ((name : String) → contains_key name found ≡ listed name states)
        × ((name : String) → listed name states ≡ true → Called targets k found name)
  unfolding states_apply contains_key
  states_apply-Applied states targets k found s t h =
      let (all, names) = states_applied-Applied states targets k end found s t h in
      (
        all,
        λ name. let same = names name in ground (arith, same),
        λ name here. elim (states_applied-Called states targets k end found s t name h) [
          | inl called ↦ called
          | inr (not_listed, same) ↦ ground arith
        ],
      )
