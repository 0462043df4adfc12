-- ===== src/Pillar/Resolver/Laws.antt =====
-- `PillarResolver.get` (pillar.py) with `fail_on_undefined`.
use cortx_prvsnr.Prelude.{◌≡◌, true, false, Option, List, [], ◌∷◌, arith, Bool-cases, inl, inr}
use cortx_prvsnr.Prelude.Dict.{Dict}
use cortx_prvsnr.Exec.{ok}
use cortx_prvsnr.Fallible.{>>=-ok}
use cortx_prvsnr.Pillar.Value.{Value}
use cortx_prvsnr.Pillar.Entry.{KeyPath, entry_get}
use cortx_prvsnr.Pillar.Resolver.{
  get_keys, is_unspecified, all_specified, collect, check_defined, resolve,
}

-- Each key has its value in the pillar, and this value is specified.
abbrev pub AllSet : List KeyPath → Value → List (Option Value) → Type 0
AllSet [] pillar [] = Unit
AllSet (pk ∷ pks) pillar (v ∷ vs) =
    (entry_get pk pillar ≡ ok v) × (is_unspecified v ≡ false) × AllSet pks pillar vs
AllSet [] pillar (v ∷ vs) = ⊥
AllSet (pk ∷ pks) pillar [] = ⊥

-- The minions of the result are those of the pillars, in their order.
abbrev pub AllResolved : List KeyPath → Dict Value → Dict (List (Option Value)) → Type 0
AllResolved pks [] [] = Unit
AllResolved pks ((minion, pillar) ∷ d) ((name, vs) ∷ res) =
    (minion ≡ name) × AllSet pks pillar vs × AllResolved pks d res
AllResolved pks [] (r ∷ res) = ⊥
AllResolved pks (m ∷ d) [] = ⊥

keys-AllSet :
    (pks : List KeyPath) (pillar : Value) (vs : List (Option Value))
    → get_keys pks pillar ≡ ok vs
    → all_specified vs ≡ true
    → AllSet pks pillar vs
unfolding get_keys all_specified
keys-AllSet [] pillar [] h s = tt
keys-AllSet [] pillar (v ∷ vs) h s = ground arith
keys-AllSet (pk ∷ pks) pillar us h s =
    let (v, found, h₁) = >>=-ok (entry_get pk pillar) _ us h in
    let (vs, rest, made) = >>=-ok (get_keys pks pillar) _ us h₁ in
    split us v vs found rest (ground arith) s (λ ws. keys-AllSet pks pillar ws)
  where
    split :
        (us : List (Option Value)) (v : Option Value) (vs : List (Option Value))
        → entry_get pk pillar ≡ ok v
        → get_keys pks pillar ≡ ok vs
        → us ≡ v ∷ vs
        → all_specified us ≡ true
        → ((ws : List (Option Value))
            → get_keys pks pillar ≡ ok ws
            → all_specified ws ≡ true
            → AllSet pks pillar ws)
        → AllSet (pk ∷ pks) pillar us
    split [] v vs found rest e s next = ground arith
    split (u ∷ us) v vs found rest e s next = elim (Bool-cases (is_unspecified u)) [
      | inl missing ↦ ground arith
      | inr there ↦ (ground arith, there, next us (ground arith) (ground arith))
    ]

collect-AllResolved :
    (pks : List KeyPath) (d : Dict Value) (res : Dict (List (Option Value)))
    → collect pks d ≡ ok res
    → check_defined res ≡ ok tt
    → AllResolved pks d res
unfolding collect check_defined
collect-AllResolved pks [] [] h s = tt
collect-AllResolved pks [] (r ∷ res) h s = ground arith
collect-AllResolved pks ((minion, pillar) ∷ d) res h s =
    let (vs, found, h₁) = >>=-ok (get_keys pks pillar) _ res h in
    let (rest, others, made) = >>=-ok (collect pks d) _ res h₁ in
    split res vs rest found others (ground arith) s (λ ws. collect-AllResolved pks d ws)
  where
    split :
        (res : Dict (List (Option Value))) (vs : List (Option Value))
        (rest : Dict (List (Option Value)))
        → get_keys pks pillar ≡ ok vs
        → collect pks d ≡ ok rest
        → res ≡ (minion, vs) ∷ rest
        → check_defined res ≡ ok tt
        → ((ws : Dict (List (Option Value)))
            → collect pks d ≡ ok ws
            → check_defined ws ≡ ok tt
            → AllResolved pks d ws)
        → AllResolved pks ((minion, pillar) ∷ d) res
    split [] vs rest found others e s next = ground arith
    split ((name, us) ∷ res) vs rest found others e s next = elim (Bool-cases (all_specified us)) [
      | inr missing ↦ ground arith
      | inl there ↦ (
        ground arith,
        keys-AllSet pks pillar us (ground arith) there,
        next res (ground arith) (ground arith),
      )
    ]

-- A query with `fail_on_undefined` that returns has, for every minion and every key, the value of
-- the minion's pillar under that key, and this value is neither missing nor empty.
resolve-AllResolved :
    (pks : List KeyPath) (d : Dict Value) (res : Dict (List (Option Value)))
    → resolve pks true d ≡ ok res
    → AllResolved pks d res
unfolding resolve
resolve-AllResolved pks d res h =
    let (got, collected, h₁) = >>=-ok (collect pks d) _ res h in
    let (x, defined, same) = >>=-ok (check_defined got) _ res h₁ in
    let e : got ≡ res = ground arith in
    collect-AllResolved pks d res (rw e at collected) (rw e at defined)
