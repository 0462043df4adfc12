-- ===== src/Pillar/Entry/Undo.antt =====
-- `PillarEntry.rollback` after `PillarEntry.set` (pillar.py).
use cortx_prvsnr.Prelude.{String, ◌≡◌, ◌≢◌, refl, inl, Option, none, some, [], ◌∷◌, arith}
use cortx_prvsnr.Prelude.{eq_iff, eq_refl, Bool, true, false, ◌∙◌}
use mathlib.Core.Path.{subst, subst₂}
use cortx_prvsnr.Exec.{ok, Exec}
use cortx_prvsnr.Pillar.Value.{Value, null, scalar, dict, Entries, end, get, put, remove}
use cortx_prvsnr.Pillar.Value.{get-put, get-remove}
use cortx_prvsnr.Pillar.Entry.{parents, leaf}
use cortx_prvsnr.Pillar.Entry.{KeyPath, with_parent_dict, write_leaf, delete_leaf, restore_leaf}
use cortx_prvsnr.Pillar.Entry.{remembered, Old, not_set, absent, present, child}
use cortx_prvsnr.Pillar.Entry.{entry_set, entry_rollback}
use cortx_prvsnr.Pillar.Entry.View.{Extends}
use cortx_prvsnr.Pillar.Entry.View.{Extends-dict, Extends-some}

-- Rolling back one leaf below the parents `ks`.
undo_leaf : String → Old → Exec Entries (Unit {0})
unfolding delete_leaf restore_leaf
undo_leaf k not_set es = (ok tt, es)
undo_leaf k absent es = delete_leaf k es
undo_leaf k (present v) es = restore_leaf k v es

-- The leaf is as it was in `es`, and all else is as in `fs`.
undo_leaf-Extends :
    (k : String) (v : Value) (es fs : Entries)
    → Extends (dict (put k v es)) (dict fs)
    → (gs : Entries) × (undo_leaf k (remembered (get k es)) fs ≡ (ok tt, gs))
      × Extends (dict es) (dict gs)
unfolding undo_leaf remembered
undo_leaf-Extends k v es fs h = split (get k es) refl
  where
    there : (u : Value) × (get k fs ≡ some u) × Extends v u
    there = Extends-some (put k v es) fs k v h (ground (arith, get-put k k v es, eq_refl k))

    split :
        (o : Option Value)
        → get k es ≡ o
        → (gs : Entries) × (undo_leaf k (remembered o) fs ≡ (ok tt, gs))
          × Extends (dict es) (dict gs)
    split none e = (remove k fs, ground (arith, there.1), same)
      where
        same : Extends (dict es) (dict (remove k fs))
        same [] = inl refl
        same (j ∷ kp) = ground (arith, h (j ∷ kp), get-remove k j fs, get-put k j v es, eq_iff k j)
    split (some u) e = (put k u fs, refl, same)
      where
        same : Extends (dict es) (dict (put k u fs))
        same [] = inl refl
        same (j ∷ kp) = ground (arith, h (j ∷ kp), get-put k j u fs, get-put k j v es, eq_iff k j)

-- The body on a dict under the parents, on dicts only.
pub with_parent_dict-nil :
    {A : Type 0} (fix : Bool) (body : Exec Entries A) (es : Entries)
    → with_parent_dict fix body [] (dict es) ≡ ((body es).0, dict (body es).1)
unfolding with_parent_dict
with_parent_dict-nil fix body es = refl

pub with_parent_dict-cons :
    {A : Type 0} (fix : Bool) (body : Exec Entries A) (k : String) (ks : KeyPath) (es : Entries)
    (c : Value)
    → child fix (get k es) ≡ ok c
    → with_parent_dict fix body (k ∷ ks) (dict es)
      ≡ ((with_parent_dict fix body ks c).0, dict (put k (with_parent_dict fix body ks c).1 es))
unfolding with_parent_dict
with_parent_dict-cons fix body k ks es c h = ground (arith, h)

-- The dict under which a write goes on.
unfoldable pub child_of : String → Entries → Value
child_of k es = elim (get k es) [ none ↦ dict end | some v ↦ v ]

pub child-child_of : (k : String) (es : Entries) → child true (get k es) ≡ ok (child_of k es)
unfolding child child_of
child-child_of k es = ground arith

abbrev pub write : KeyPath → String → Value → Exec Value Old
write ks k v = with_parent_dict true (write_leaf k v) ks

abbrev undo : KeyPath → String → Old → Exec Value (Unit {0})
undo ks k old = with_parent_dict false (undo_leaf k old) ks

-- A child that was missing and is now a dict of empty dicts is no difference.
Extends-put :
    (k : String) (c c' : Value) (es fs : Entries)
    → Extends (dict (put k c es)) (dict fs)
    → Extends (child_of k es) c'
    → Extends (dict es) (dict (put k c' fs))
unfolding child_of get
Extends-put k c c' es fs h g [] = inl refl
Extends-put k c c' es fs h g (j ∷ []) =
    ground (arith, h (j ∷ []), g [], get-put k j c' fs, get-put k j c es, eq_iff k j)
Extends-put k c c' es fs h g (j ∷ (i ∷ kp)) =
    ground (arith, h (j ∷ (i ∷ kp)), g (i ∷ kp), get-put k j c' fs, get-put k j c es, eq_iff k j)

pub refused :
    (ks : KeyPath) (k : String) (v p q : Value) (old : Old)
    → ((es : Entries) → p ≢ dict es)
    → write ks k v p ≢ (ok old, q)
unfolding with_parent_dict
refused ks k v null q old n h = ground arith
refused ks k v (scalar s) q old n h = ground arith
refused ks k v (dict es) q old n h = n es refl

pub write-nil :
    (k : String) (v : Value) (es : Entries)
    → write [] k v (dict es) ≡ (ok (remembered (get k es)), dict (put k v es))
unfolding with_parent_dict write_leaf
write-nil k v es = refl

pub found-child : {o : Option Value} {c : Value} → o ≡ some c → child false o ≡ ok c
unfolding child
found-child e = rw e

-- After a write, and whatever extends its result, the undoing succeeds, and leaves an extension of
-- what was there before.
undo-write :
    (ks : KeyPath) (k : String) (v p q q' : Value) (old : Old)
    → write ks k v p ≡ (ok old, q)
    → Extends q q'
    → (p' : Value) × (undo ks k old q' ≡ (ok tt, p')) × Extends p p'
undo-write ks k v null q q' old h g = absurd (refused ks k v null q old (λ es e. cc) h)
undo-write ks k v (scalar s) q q' old h g = absurd (refused ks k v (scalar s) q old (λ es e. cc) h)
undo-write [] k v (dict es) q q' old h g =
    let e : q ≡ dict (put k v es) = ground (arith, write-nil k v es) in
    let was : remembered (get k es) ≡ old = ground (arith, write-nil k v es) in
    let (fs, is_dict) = Extends-dict (put k v es) q' (subst (λ (x : Value). Extends x q') e g) in
    let (gs, undone, same) =
      undo_leaf-Extends k v es fs (subst₂ (λ (x y : Value). Extends x y) e is_dict g) in
    (
      dict gs,
      rw (is_dict, ← was)
          (with_parent_dict-nil false (undo_leaf k (remembered (get k es))) fs ∙ rw undone),
      same,
    )
undo-write (j ∷ ks) k v (dict es) q q' old h g =
    let c = child_of j es in
    let c₁ = (write ks k v c).1 in
    let opened = with_parent_dict-cons true (write_leaf k v) j ks es c (child-child_of j es) in
    let e : q ≡ dict (put j c₁ es) = ground (arith, opened) in
    let (fs, is_dict) = Extends-dict (put j c₁ es) q' (subst (λ (x : Value). Extends x q') e g) in
    let more = subst₂ (λ (x y : Value). Extends x y) e is_dict g in
    let (c₂, found, inner) =
      Extends-some (put j c₁ es) fs j c₁ more (ground (arith, get-put j j c₁ es, eq_refl j)) in
    let (c', undone, same) = undo-write ks k v c c₁ c₂ old (ground (arith, opened)) inner in
    (
      dict (put j c' fs),
      rw is_dict (
          with_parent_dict-cons false (undo_leaf k old) j ks fs c₂ (found-child found) ∙ rw undone),
      Extends-put j c₁ c' es fs more same,
    )

write-remembers : (ks : KeyPath) (k : String) (v p q : Value) → write ks k v p ≢ (ok not_set, q)
write-remembers ks k v null q h = refused ks k v null q not_set (λ es e. cc) h
write-remembers ks k v (scalar s) q h = refused ks k v (scalar s) q not_set (λ es e. cc) h
write-remembers [] k v (dict es) q h = split (get k es) (ground (arith, write-nil k v es))
  where
    split : (o : Option Value) → remembered o ≢ not_set
    split none e = unfold remembered in ground arith
    split (some u) e = unfold remembered in ground arith
write-remembers (j ∷ ks) k v (dict es) q h =
    let opened =
      with_parent_dict-cons true (write_leaf k v) j ks es (child_of j es) (child-child_of j es) in
    write-remembers ks k v (child_of j es) (write ks k v (child_of j es)).1 (ground (arith, opened))

-- `PillarEntry.rollback()` after `PillarEntry.set(value)`: whatever empty dicts were added to the
-- pillar in between, it succeeds, and the pillar then differs from the one before by empty dicts
-- only.
pub entry_rollback-entry_set :
    (kp : KeyPath) (v p q q' : Value) (old : Old)
    → entry_set kp v not_set p ≡ (ok old, q)
    → Extends q q'
    → (p' : Value) × (entry_rollback kp old q' ≡ (ok tt, p')) × Extends p p'
unfolding entry_set entry_rollback undo_leaf
entry_rollback-entry_set kp v p q q' not_set h g =
    absurd (write-remembers (parents kp) (leaf kp) v p q h)
entry_rollback-entry_set kp v p q q' absent h g =
    undo-write (parents kp) (leaf kp) v p q q' absent h g
entry_rollback-entry_set kp v p q q' (present u) h g =
    undo-write (parents kp) (leaf kp) v p q q' (present u) h g
