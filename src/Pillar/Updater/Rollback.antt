-- ===== src/Pillar/Updater/Rollback.antt =====
-- `PillarUpdater.rollback` after `PillarUpdater.update` (pillar.py).
use cortx_prvsnr.Prelude.{String, ◌≡◌, refl, sym, Option, none, some, List, [], ◌∷◌}
use cortx_prvsnr.Prelude.{eq_refl, arith, ◌==◌, Bool-cases, inl, inr}
use mathlib.Core.Path.{subst}
use mathlib.Core.List.{reverse}
use cortx_prvsnr.Prelude.Dict.{Dict, lookup, insert, lookup-insert, insert_self}
use cortx_prvsnr.Exec.{Result, ok, err, Exec, continue}
use cortx_prvsnr.Pillar.Value.{Value}
use cortx_prvsnr.Pillar.Entry.{KeyPath, Old, not_set, entry_set, entry_rollback}
use cortx_prvsnr.Pillar.Entry.View.{Extends-refl}
use cortx_prvsnr.Pillar.Entry.Undo.{entry_rollback-entry_set}
use cortx_prvsnr.Pillar.Entry.Access.{entry_set-err}
use cortx_prvsnr.Pillar.Updater.{Env, Settings, State, PillarEntry, Item, Updater, or_empty, pillar}
use cortx_prvsnr.Pillar.Updater.{update, update_items, update_item, rollback, rollback_loop}
use cortx_prvsnr.Pillar.Updater.{rollback_entry}
use cortx_prvsnr.Pillar.Updater.{set_entry, set_done, appended, loaded, pillar_file, to_set}
use cortx_prvsnr.Pillar.Updater.Undoable.{
  Good, Good-start, Good-loaded, Good-appended, IsLike, AllRestored,
}

-- Each file that was loaded is still loaded.
pub AllLoaded : Dict Value → Dict Value → Type 0
AllLoaded before after =
    (file : String) (v : Value)
    → lookup file before ≡ some v
    → (w : Value) × (lookup file after ≡ some w)

insert-AllLoaded : (file : String) (v : Value) (d : Dict Value) → AllLoaded d (insert file v d)
unfolding AllLoaded
insert-AllLoaded file v d f u h = elim (Bool-cases (file == f)) [
  | inl same ↦ (v, rw (lookup-insert, same))
  | inr other ↦ (u, rw (lookup-insert, other) h)
]

trans-AllLoaded : (a b c : Dict Value) → AllLoaded a b → AllLoaded b c → AllLoaded a c
unfolding AllLoaded
trans-AllLoaded a b c first second file v h = let (w, there) = first file v h in second file w there

module _ (E : Env) (o : Settings) where
  rollback_entry-AllLoaded :
      (e : PillarEntry) (s : Updater E o) → AllLoaded s.pillars (rollback_entry E o e s).1.pillars
  unfolding rollback_entry
  rollback_entry-AllLoaded e s = insert-AllLoaded e.file _ s.pillars

  abbrev popped :
      List PillarEntry → Result (Unit {0}) × Updater E o → Result (Unit {0}) × Updater E o
  popped es = continue (λ _ t. (ok tt, record t { p_entries = reverse es }))

  rollback_loop-AllLoaded :
      (es : List PillarEntry) (s : Updater E o)
      → AllLoaded s.pillars (rollback_loop E o es s).1.pillars
  unfolding rollback_loop
  rollback_loop-AllLoaded [] s = unfold AllLoaded in λ f v h. (v, h)
  rollback_loop-AllLoaded (e ∷ es) s =
      split (rollback_entry E o e s) (rollback_entry-AllLoaded e s)
        (λ t. rollback_loop-AllLoaded es t)
    where
      split :
          (r : Result (Unit {0}) × Updater E o)
          → AllLoaded s.pillars r.1.pillars
          → ((t : Updater E o) → AllLoaded t.pillars (rollback_loop E o es t).1.pillars)
          → AllLoaded s.pillars
              (continue {A = Unit {0}} (λ _. rollback_loop E o es) (popped es r)).1.pillars
      split (ok x, t) first next =
          trans-AllLoaded _ _ _ first (next (record t { p_entries = reverse es }))
      split (err x, t) first next = first

  pub rollback-AllLoaded :
      (s t : Updater E o) → rollback E o s ≡ (ok tt, t) → AllLoaded s.pillars t.pillars
  unfolding rollback
  rollback-AllLoaded s t h =
      subst (λ (r : Result (Unit {0}) × Updater E o). AllLoaded s.pillars r.1.pillars) h
        (rollback_loop-AllLoaded (reverse s.p_entries) s)

module _ (E : Env) (o : Settings) (start : State E.World) where
  open E use {World, load_yaml}

  Good-same :
      (file : String) (p : Value) (s : Updater E o)
      → Good E o start s
      → lookup file s.pillars ≡ some p
      → Good E o start (record s { pillars = insert file p s.pillars })
  Good-same file p s g at =
      subst (λ (d : Dict Value). Good E o start (record s { pillars = d }))
        (sym (insert_self file p s.pillars at)) g

  Good-set_done :
      (file : String) (kp : KeyPath) (v p : Value) (s : Updater E o)
      → Good E o start s
      → lookup file s.pillars ≡ some p
      → (r : Result Old × Value) → entry_set kp v not_set p ≡ r
      → Good E o start (set_done E o file kp r s).1
  unfolding set_done
  Good-set_done file kp v p s g at (ok old, q) done =
      Good-appended E o start file kp old p q s g at
        λ q' more. entry_rollback-entry_set kp v p q q' old done more
  Good-set_done file kp v p s g at (err e, q) failed =
      subst (λ (x : Value). Good E o start (record s { pillars = insert file x s.pillars }))
        (sym (entry_set-err kp v p q e failed)) (Good-same file p s g at)

  Good-set_entry :
      (file : String) (kp : KeyPath) (p : Value) (r : Result (Option Value)) (s : Updater E o)
      → Good E o start s
      → lookup file s.pillars ≡ some p
      → Good E o start (set_entry E o file kp p r s).1
  unfolding set_entry
  Good-set_entry file kp p (err e) s g at = g
  Good-set_entry file kp p (ok none) s g at =
      subst
        (λ (d : Dict Value).
          Good E o start (appended E o file kp not_set (record s { pillars = d })))
        (insert_self file p s.pillars at)
        (Good-appended E o start file kp not_set p p s g at
          (λ q' more. (q', unfold entry_rollback in refl, more)))
  Good-set_entry file kp p (ok (some v)) s g at =
      Good-set_done file kp v p s g at (entry_set kp v not_set p) refl

  pillar-found :
      (file : String) (p : Value) (s : Updater E o)
      → lookup file s.pillars ≡ some p
      → pillar E o file s ≡ (ok p, s)
  unfolding pillar
  pillar-found file p s at = ground (arith, at)

  pillar-new :
      (file : String) (s : Updater E o)
      → lookup file s.pillars ≡ none
      → pillar E o file s ≡ loaded E o file (load_yaml file s.world) s
  unfolding pillar
  pillar-new file s new = ground (arith, new)

  abbrev continue_item : Item → String → Value → Exec (Updater E o) (Unit {0})
  continue_item i file p = set_entry E o file i.keypath p (to_set E o i.value)

  Good-loaded_item :
      (i : Item) (file : String) (s : Updater E o) (r : Result (Option Value))
      → Good E o start s
      → lookup file s.pillars ≡ none
      → load_yaml file s.world ≡ r
      → Good E o start (continue (continue_item i file) (loaded E o file r s)).1
  unfolding loaded
  Good-loaded_item i file s (err e) g new failed = g
  Good-loaded_item i file s (ok c) g new found =
      Good-set_entry file i.keypath (or_empty c) _ _ (Good-loaded E o start file c s g new found)
        (ground (arith, lookup-insert file file (or_empty c) s.pillars, eq_refl file))

  Good-continue :
      (i : Item) (file : String) (s : Updater E o)
      → Good E o start s
      → (r : Option Value) → lookup file s.pillars ≡ r
      → Good E o start (continue (continue_item i file) (pillar E o file s)).1
  Good-continue i file s g (some p) at =
      rw (pillar-found file p s at) (Good-set_entry file i.keypath p _ s g at)
  Good-continue i file s g none new =
      rw (pillar-new file s new) (Good-loaded_item i file s _ g new refl)

  Good-item :
      (i : Item) (s : Updater E o) → Good E o start s → Good E o start (update_item E o i s).1
  unfolding update_item
  Good-item i s g =
      let file = pillar_file o.path o.targets i.fpath in
      Good-continue i file s g (lookup file s.pillars) refl

  Good-items :
      (items : List Item) (s : Updater E o)
      → Good E o start s
      → Good E o start (update_items E o items s).1
  unfolding update_items
  Good-items [] s g = g
  Good-items (i ∷ items) s g =
      split (update_item E o i s) (Good-item i s g) (λ t. Good-items items t)
    where
      split :
          (r : Result (Unit {0}) × Updater E o)
          → Good E o start r.1
          → ((t : Updater E o) → Good E o start t → Good E o start (update_items E o items t).1)
          → Good E o start (continue (λ _. update_items E o items) r).1
      split (ok x, t) h next = next t h
      split (err e, t) h next = h

  update-fresh :
      (items : List Item)
      → start.p_entries ≡ []
      → update E o items start ≡ update_items E o items start
  unfolding update
  update-fresh items e = ground (arith, e)

  IsLike-refl : (d : Dict Value) → IsLike E o start d d
  IsLike-refl d = (λ file p at. (p, at, Extends-refl p), λ file q new at. absurd (ground arith))

  pub Good-update :
      (items : List Item) → start.p_entries ≡ [] → Good E o start (update E o items start).1
  Good-update items e =
      subst (λ (r : Result (Unit {0}) × Updater E o). Good E o start r.1)
        (sym (update-fresh items e)) (Good-items items start (Good-start E o start e))

  -- Also from another world.
  pub Good-rollback :
      (s u : Updater E o)
      → Good E o start s
      → u.pillars ≡ s.pillars
      → u.p_entries ≡ s.p_entries
      → (t : Updater E o) × (rollback E o u ≡ (ok tt, t)) × AllRestored E o start t.pillars
  unfolding rollback
  Good-rollback s u (same, undo, older) pillars entries =
      subst
        (λ (es : List PillarEntry).
          (t : Updater E o) × (rollback_loop E o (reverse es) u ≡ (ok tt, t))
          × AllRestored E o start t.pillars)
        (sym entries)
        (undo u (
          subst (λ (d : Dict Value). IsLike E o start s.pillars d) (sym pillars)
            (IsLike-refl s.pillars)))

  -- An update that starts with no entries can be undone when it has finished and also when an
  -- exception broke it off: the rollback succeeds, no pillar that was loaded is lost, and every
  -- loaded pillar then has what its file had at the start, up to empty dicts.
  pub rollback-update :
      (items : List Item)
      → start.p_entries ≡ []
      → (t : Updater E o) × (rollback E o (update E o items start).1 ≡ (ok tt, t))
        × AllLoaded (update E o items start).1.pillars t.pillars
        × AllRestored E o start t.pillars
  rollback-update items e =
      let s = (update E o items start).1 in
      let (t, done, restored) = Good-rollback s s (Good-update items e) refl refl in
      (t, done, rollback-AllLoaded E o s t done, restored)
