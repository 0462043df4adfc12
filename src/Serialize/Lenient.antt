-- ===== src/Serialize/Lenient.antt =====
-- The hook that is not strict, beside the strict one.
use cortx_prvsnr.Prelude.{◌≡◌, refl, sym, ap, ◌∙◌, true, false, Bool-cases, arith, inl, inr}
use cortx_prvsnr.Exec.{Result, ok, err}
use cortx_prvsnr.Fallible.{>>=-ok}
use cortx_prvsnr.Json.{Json, null, boolean, number, text, array, object, Items, nil, cons}
use cortx_prvsnr.Json.{Fields, end, field}
use cortx_prvsnr.Serialize.{Value, nothing, flag, count, words, list, dict, type_key, lookup}
use cortx_prvsnr.Serialize.{Values, no_values, and_value, Entries, no_entries, entry, is_true}
use cortx_prvsnr.Serialize.{Construct, decode, decode_all, decode_fields, json_prvsnr_type_hook}
use cortx_prvsnr.Serialize.{decoded}

module _ (construct : Construct) where
  decoded-ok :
      (es : Entries) (r : Result Value)
      → (v : Value) × (decoded construct false es r ≡ ok v)
        × ((u : Value) → decoded construct true es r ≡ ok u → u ≡ v)
  unfolding decoded
  decoded-ok es (ok v) = (v, refl, λ u h. ground (arith, h))
  decoded-ok es (err e) = (dict es, refl, λ u h. ground (arith, h))

  hook-ok :
      (es : Entries)
      → (v : Value) × (json_prvsnr_type_hook construct false es ≡ ok v)
        × ((u : Value) → json_prvsnr_type_hook construct true es ≡ ok u → u ≡ v)
  unfolding json_prvsnr_type_hook
  hook-ok es = elim (Bool-cases (is_true (lookup type_key nothing es))) [
    | inl marked ↦ rw marked (decoded-ok es _)
    | inr plain ↦ rw plain (dict es, refl, λ u h. ground (arith, h))
  ]

  mutual
    unfolding decode

    read_value :
        (j : Json)
        → (v : Value) × (decode construct false j ≡ ok v)
          × ((u : Value) → decode construct true j ≡ ok u → u ≡ v)
    read_value null = (nothing, refl, λ u h. ground (arith, h))
    read_value (boolean b) = (flag b, refl, λ u h. ground (arith, h))
    read_value (number n) = (count n, refl, λ u h. ground (arith, h))
    read_value (text s) = (words s, refl, λ u h. ground (arith, h))
    read_value (array vs) =
        let (found, is_found, same) = read_values vs in
        (
          list found,
          rw is_found refl,
          λ u h.
              let (strict, is_strict, h₁) = >>=-ok (decode_all construct true vs) _ u h in
              let alike = same strict is_strict in ground (arith, h₁, alike),
        )
    read_value (object fs) =
        let (es, is_es, same) = read_fields fs in
        let (v, is_v, same_v) = hook-ok es in
        (
          v,
          rw is_es is_v,
          λ u h.
              let (strict, is_strict, h₁) = >>=-ok (decode_fields construct true fs) _ u h in
              same_v u (rw (same strict is_strict) at h₁),
        )

    read_values :
        (js : Items)
        → (vs : Values) × (decode_all construct false js ≡ ok vs)
          × ((us : Values) → decode_all construct true js ≡ ok us → us ≡ vs)
    read_values nil = (no_values, refl, λ u h. ground (arith, h))
    read_values (cons j js) =
        let (v, is_v, same) = read_value j in
        let (vs, is_vs, same_rest) = read_values js in
        (
          and_value v vs,
          rw (is_v, is_vs) refl,
          λ us h.
              let (first, is_first, h₁) = >>=-ok (decode construct true j) _ us h in
              let (rest, is_rest, h₂) = >>=-ok (decode_all construct true js) _ us h₁ in
              let alike = same first is_first in
              let alike_rest = same_rest rest is_rest in ground (arith, h₂, alike, alike_rest),
        )

    read_fields :
        (fs : Fields)
        → (es : Entries) × (decode_fields construct false fs ≡ ok es)
          × ((us : Entries) → decode_fields construct true fs ≡ ok us → us ≡ es)
    read_fields end = (no_entries, refl, λ u h. ground (arith, h))
    read_fields (field k j fs) =
        let (v, is_v, same) = read_value j in
        let (es, is_es, same_rest) = read_fields fs in
        (
          entry k v es,
          rw (is_v, is_es) refl,
          λ us h.
              let (first, is_first, h₁) = >>=-ok (decode construct true j) _ us h in
              let (rest, is_rest, h₂) = >>=-ok (decode_fields construct true fs) _ us h₁ in
              let alike = same first is_first in
              let alike_rest = same_rest rest is_rest in ground (arith, h₂, alike, alike_rest),
        )

  -- The hook that is not strict reads every tree.
  pub decode-total : (j : Json) → (v : Value) × (decode construct false j ≡ ok v)
  decode-total j = let (v, is_v, same) = read_value j in (v, is_v)

  -- What the strict hook reads the other reads alike.
  pub decode-lenient :
      (j : Json) (u : Value) → decode construct true j ≡ ok u → decode construct false j ≡ ok u
  decode-lenient j u h = let (v, is_v, same) = read_value j in is_v ∙ ap ok (sym (same u h))
