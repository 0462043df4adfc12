-- ===== src/UpgradeRepo/PillarValues/Laws.antt =====
-- What the removal of a bundle takes back.
use text.Mathlib.TextEquality.{eq_iff}
use cortx_prvsnr.Prelude.{
  String, ◌≡◌, ◌≢◌, ◌⊎◌, Bool-cases, inl, inr, ◌∙◌, sym, refl, Bool, true, false, Option, none,
  some, List, [], ◌∷◌, arith,
}
use cortx_prvsnr.Prelude.{◌==◌, ◌<>◌, if◌then◌else◌}
use cortx_prvsnr.Prelude.Dict.{lookup, insert, lookup-insert}
use cortx_prvsnr.UpgradeRepo.{version1, version2, iso_file, special, Repo}
use cortx_prvsnr.UpgradeRepo.PillarValues.{RepoEntry, PillarValue, from_items, pillar_values_ver1}
use cortx_prvsnr.UpgradeRepo.PillarValues.{
  pillar_values_ver2, removed_values, pillar_value, release_text, local_values, removed_items,
  ver1_items, ver2_items,
}

has_key : List (String × Option RepoEntry) → String → Bool
has_key [] key = false
has_key ((k, v) ∷ items) key = let rest = has_key items key in if k == key then true else rest

all_null : List (String × Option RepoEntry) → Bool
all_null [] = true
all_null ((k, some e) ∷ items) = false
all_null ((k, none) ∷ items) = all_null items

-- A key of the dict is one of the items, or was there before.
lookup-from_items :
    (items : List (String × Option RepoEntry)) (d : PillarValue) (key : String)
    → has_key items key ≡ false
    → lookup key (from_items items d) ≡ lookup key d
unfolding from_items has_key
lookup-from_items [] d key h = refl
lookup-from_items ((k, v) ∷ items) d key h =
    let later : has_key items key ≡ false = ground arith in
    let other : (k == key) ≡ false = ground arith in
    lookup-from_items items (insert k v d) key later ∙ lookup-insert k key v d ∙ rw other refl

-- With nulls only, a key that is one of the items, or null before, is null.
null-from_items :
    (items : List (String × Option RepoEntry)) (d : PillarValue) (key : String)
    → all_null items ≡ true
    → (has_key items key ≡ true) ⊎ (lookup key d ≡ some none)
    → lookup key (from_items items d) ≡ some none
unfolding from_items has_key all_null
null-from_items [] d key n h = ground arith
null-from_items ((k, some e) ∷ items) d key n h = ground arith
null-from_items ((k, none) ∷ items) d key n h =
    let step = lookup-insert k key none d in
    null-from_items items (insert k none d) key n (elim h [
      | inl at ↦ elim (Bool-cases (k == key)) [
        | inl same ↦ inr (step ∙ rw same refl)
        | inr other ↦ inl (rw other at at)
      ]
      | inr null ↦ inr (step ∙ ground arith)
    ])

-- A key that is one of the items, or was there before, is there.
named-has_key :
    (items : List (String × Option RepoEntry)) (d : PillarValue) (key : String)
    → (has_key items key ≡ true) ⊎ (lookup key d ≢ none)
    → lookup key (from_items items d) ≢ none
unfolding from_items has_key
named-has_key [] d key h = ground arith
named-has_key ((k, v) ∷ items) d key h =
    let step = lookup-insert k key v d in
    named-has_key items (insert k v d) key (elim (Bool-cases (k == key)) [
      | inl same ↦
          let is : lookup key (insert k v d) ≡ some v = rw same at step in
          inr (λ gone. ground (arith, is))
      | inr other ↦ elim h [
        | inl at ↦ inl (rw other at at)
        | inr there ↦
            let is : lookup key (insert k v d) ≡ lookup key d = rw other at step in
            inr (λ gone. there (sym is ∙ gone))
      ]
    ])

has_key-named :
    (items : List (String × Option RepoEntry)) (key : String)
    → lookup key (from_items items []) ≢ none
    → has_key items key ≡ true
unfolding lookup
has_key-named items key there = elim (Bool-cases (has_key items key)) [
  | inl is_one ↦ is_one
  | inr is_none ↦ absurd (there (lookup-from_items items [] key is_none))
]

module _ (iso_dir target_build : String) (enabled : Bool) where
  same_keys :
      (release key root : String)
      → has_key (ver1_items iso_dir root enabled release) key ≡ true
      → has_key (removed_items release) key ≡ true
  unfolding ver1_items removed_items has_key
  same_keys release key root known = ground arith

  ver1_removed :
      (release key : String)
      → lookup key (pillar_values_ver1 iso_dir target_build enabled release) ≢ none
      → lookup key (removed_values iso_dir target_build enabled release) ≡ some none
  unfolding pillar_values_ver1 removed_values removed_items all_null
  ver1_removed release key there =
      let root = "file://" <> target_build <> "/" <> release <> "/" in
      let items = ver1_items iso_dir root enabled release in
      let known : has_key items key ≡ true = has_key-named items key there in
      null-from_items (removed_items release) [] key refl (inl (same_keys release key root known))

  not_removed :
      (release : String) → release ≢ "cortx" → has_key (removed_items release) "cortx" ≡ false
  unfolding removed_items has_key
  not_removed release other = ground (arith, eq_iff release "cortx")

  cortx_set :
      (release : String)
      → lookup "cortx" (pillar_values_ver2 iso_dir target_build enabled release) ≢ none
  unfolding pillar_values_ver2 ver2_items has_key
  cortx_set release =
      let root = "file://" <> target_build <> "/" <> release <> "/" in
      named-has_key (ver2_items iso_dir root enabled release) [] "cortx" (inl (ground arith))

  module _ (repo : Repo) where
    abbrev pub values_set : PillarValue
    values_set = pillar_value iso_dir target_build enabled (record repo { kind = iso_file })

    abbrev pub values_removed : PillarValue
    values_removed = pillar_value iso_dir target_build enabled (record repo { kind = special })

    -- For a bundle of version 1 the removal takes every repository away that the set has named.
    pillar_value-removed :
        (key : String)
        → repo.source_version ≡ version1
        → lookup key values_set ≢ none
        → lookup key values_removed ≡ some none
    unfolding pillar_value local_values
    pillar_value-removed key h there = ver1_removed (release_text repo.release) key (rw h at there)

    -- For a bundle of version 2 the removal does not name the repository `cortx`, which the set
    -- has named, unless the release has that name.
    pub pillar_value-misses :
        repo.source_version ≡ version2
        → release_text repo.release ≢ "cortx"
        → (lookup "cortx" values_removed ≡ none) × (lookup "cortx" values_set ≢ none)
    unfolding pillar_value local_values removed_values lookup
    pillar_value-misses h other = (
      lookup-from_items (removed_items (release_text repo.release)) [] "cortx"
          (not_removed (release_text repo.release) other),
      rw h (cortx_set (release_text repo.release)),
    )
