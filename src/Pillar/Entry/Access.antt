-- ===== src/Pillar/Entry/Access.antt =====
-- `PillarEntry.set` (pillar.py) against `get`, and on a path that is refused.
use cortx_prvsnr.Prelude.{String, ◌≡◌, refl, ap, ◌∙◌, Option, none, some, [], ◌∷◌, arith}
use cortx_prvsnr.Prelude.{eq_iff, eq_refl, true, false}
use cortx_prvsnr.Errors.{Exception}
use cortx_prvsnr.Exec.{ok, err}
use cortx_prvsnr.Pillar.Value.{Value, null, scalar, dict, Entries, end, entry, get, put, get-put}
use cortx_prvsnr.Pillar.Entry.{KeyPath, with_parent_dict, write_leaf, read_leaf, parents, leaf}
use cortx_prvsnr.Pillar.Entry.{Old, not_set, entry_set, entry_get}
use cortx_prvsnr.Pillar.Entry.Undo.{
  with_parent_dict-nil, with_parent_dict-cons, child-child_of, write-nil,
}
use cortx_prvsnr.Pillar.Entry.Undo.{refused, found-child, child_of, write}

put_self : (k : String) (v : Value) (es : Entries) → get k es ≡ some v → put k v es ≡ es
unfolding get put
put_self k v end h = ground arith
put_self k v (entry j w es) h = ground (arith, put_self k v es, eq_iff j k)

read-write :
    (ks : KeyPath) (k : String) (v p q : Value) (old : Old)
    → write ks k v p ≡ (ok old, q)
    → (with_parent_dict false (read_leaf k) ks q).0 ≡ ok v
read-write ks k v null q old h = absurd (refused ks k v null q old (λ es e. cc) h)
read-write ks k v (scalar s) q old h = absurd (refused ks k v (scalar s) q old (λ es e. cc) h)
read-write [] k v (dict es) q old h =
    let e : q ≡ dict (put k v es) = ground (arith, write-nil k v es) in
    rw (e, with_parent_dict-nil) (unfold read_leaf in ground (arith, get-put k k v es, eq_refl k))
read-write (j ∷ ks) k v (dict es) q old h =
    let c = child_of j es in
    let c₁ = (write ks k v c).1 in
    let opened = with_parent_dict-cons true (write_leaf k v) j ks es c (child-child_of j es) in
    let e : q ≡ dict (put j c₁ es) = ground (arith, opened) in
    let there : get j (put j c₁ es) ≡ some c₁ = ground (arith, get-put j j c₁ es, eq_refl j) in
    rw (e, with_parent_dict-cons false (read_leaf k) j ks (put j c₁ es) c₁ (found-child there))
      (read-write ks k v c c₁ old (ground (arith, opened)))

write-end :
    (ks : KeyPath) (k : String) (v : Value)
    → (old : Old) × (q : Value) × (write ks k v (dict end) ≡ (ok old, q))
write-end [] k v = (_, _, write-nil k v end)
write-end (j ∷ ks) k v =
    let (old, q, done) = write-end ks k v in
    let opened =
      with_parent_dict-cons true (write_leaf k v) j ks end (dict end)
        (unfold child_of get in child-child_of j end) in
    (old, dict (put j q end), opened ∙ rw done)

write-err :
    (ks : KeyPath) (k : String) (v p q : Value) (e : Exception)
    → write ks k v p ≡ (err e, q)
    → q ≡ p
write-err ks k v null q e h = unfold with_parent_dict in ground arith
write-err ks k v (scalar s) q e h = unfold with_parent_dict in ground arith
write-err [] k v (dict es) q e h = ground (arith, write-nil k v es)
write-err (j ∷ ks) k v (dict es) q e h =
    let opened =
      with_parent_dict-cons true (write_leaf k v) j ks es (child_of j es) (child-child_of j es) in
    let inner : (write ks k v (child_of j es)).0 ≡ err e = ground (arith, opened) in
    let same = write-err ks k v (child_of j es) (write ks k v (child_of j es)).1 e (ground arith) in
    let e' : q ≡ dict (put j (child_of j es) es) = ground (arith, opened, same) in
    e' ∙ ap dict (split (get j es) refl inner)
  where
    split :
        (o : Option Value)
        → get j es ≡ o
        → (write ks k v (child_of j es)).0 ≡ err e
        → put j (child_of j es) es ≡ es
    split none f bad =
        let (old, x, done) = write-end ks k v in
        let new : child_of j es ≡ dict end = unfold child_of in ground arith in
        let clash : (write ks k v (dict end)).0 ≡ err e = rw new at bad in ground (arith, done)
    split (some u) f bad =
        let there : child_of j es ≡ u = unfold child_of in ground arith in
        rw there (put_self j u es f)

-- A value that was set is the value that is read under its key path.
pub entry_get-entry_set :
    (kp : KeyPath) (v p q : Value) (old : Old)
    → entry_set kp v not_set p ≡ (ok old, q)
    → entry_get kp q ≡ ok (some v)
unfolding entry_set entry_get
entry_get-entry_set kp v p q old h = rw (read-write (parents kp) (leaf kp) v p q old h)

-- A value that cannot be set, since some parent is no dict, changes nothing.
pub entry_set-err :
    (kp : KeyPath) (v p q : Value) (e : Exception) → entry_set kp v not_set p ≡ (err e, q) → q ≡ p
unfolding entry_set
entry_set-err kp v p q e h = write-err (parents kp) (leaf kp) v p q e h
