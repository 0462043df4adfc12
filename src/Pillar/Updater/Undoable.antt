-- ===== src/Pillar/Updater/Undoable.antt =====
-- States of `PillarUpdater` (pillar.py) from which a rollback leads back to the files.
use cortx_prvsnr.Prelude.{String, ◌≡◌, refl, ◌∙◌, ◌⊎◌, inl, inr, Option, none, some, List, [], ◌∷◌}
use cortx_prvsnr.Prelude.{◌==◌, eq_iff, eq_refl, arith, Bool-cases}
use mathlib.Core.Path.{subst}
use mathlib.Core.List.{reverse, reverse-append}
use cortx_prvsnr.Prelude.Dict.{Dict, lookup, insert, lookup-insert}
use cortx_prvsnr.Exec.{ok}
use cortx_prvsnr.Pillar.Value.{Value}
use cortx_prvsnr.Pillar.Entry.{KeyPath, Old, entry_rollback}
use cortx_prvsnr.Pillar.Entry.View.{Extends}
use cortx_prvsnr.Pillar.Updater.{Env, Settings, State, PillarEntry, Updater, or_empty}
use cortx_prvsnr.Pillar.Updater.{rollback_loop}
use cortx_prvsnr.Pillar.Updater.{rollback_entry, appended}

module _ (E : Env) (o : Settings) (start : State E.World) where
  open E use {World, load_yaml}

  -- A file's pillar when the update starts: the one that is loaded, or else the one on disk.
  abbrev pub AtStart : String → Value → Type 0
  AtStart file p =
      (lookup file start.pillars ≡ some p)
      ⊎ ((c : Option Value) × (lookup file start.pillars ≡ none)
          × (load_yaml file start.world ≡ ok c)
          × (p ≡ or_empty c))

  -- A pillar that has, up to empty dicts, what its file had at the start.
  abbrev pub IsRestored : String → Value → Type 0
  IsRestored file q = (p : Value) × AtStart file p × Extends p q

  -- `now` may stand for `then`: it extends each of its pillars, and has no others that are changed.
  abbrev pub IsLike : Dict Value → Dict Value → Type 0
  IsLike before now =
      ((file : String) (p : Value)
        → lookup file before ≡ some p
        → (q : Value) × (lookup file now ≡ some q) × Extends p q)
      × ((file : String) (q : Value)
          → lookup file before ≡ none
          → lookup file now ≡ some q
          → IsRestored file q)

  abbrev pub AllRestored : Dict Value → Type 0
  AllRestored pillars =
      (file : String) (q : Value) → lookup file pillars ≡ some q → IsRestored file q

  -- From these entries and from whatever is like these pillars, the rollback succeeds and restores.
  abbrev pub CanUndo : List PillarEntry → Dict Value → Type 0
  CanUndo entries pillars =
      (s : Updater E o)
      → IsLike pillars s.pillars
      → (t : Updater E o) × (rollback_loop E o entries s ≡ (ok tt, t)) × AllRestored t.pillars

  abbrev pub Good : Updater E o → Type 0
  Good s =
      (s.world ≡ start.world)
      × CanUndo (reverse s.p_entries) s.pillars
      × ((file : String) → lookup file s.pillars ≡ none → lookup file start.pillars ≡ none)

  IsLike-self : (now : Dict Value) → IsLike start.pillars now → AllRestored now
  IsLike-self now (kept, new) file q here = split (lookup file start.pillars) refl
    where
      split : (r : Option Value) → lookup file start.pillars ≡ r → IsRestored file q
      split none e = new file q e here
      split (some p) e =
          let (q₁, there, more) = kept file p e in
          let same : q₁ ≡ q = ground arith in
          (p, inl e, subst (λ (x : Value). Extends p x) same more)

  pub Good-start : start.p_entries ≡ [] → Good start
  unfolding rollback_loop
  Good-start e = (refl, rw e (λ s like. (s, refl, IsLike-self s.pillars like)), λ file h. h)

  pub Good-loaded :
      (file : String) (c : Option Value) (s : Updater E o)
      → Good s
      → lookup file s.pillars ≡ none
      → load_yaml file s.world ≡ ok c
      → Good (record s { pillars = insert file (or_empty c) s.pillars })
  Good-loaded file c s (same, undo, older) new read = (
    same,
    λ t like. undo t (shrunk t.pillars like),
    λ f h. older f (ground (arith, lookup-insert file f (or_empty c) s.pillars, eq_iff file f)),
  )
    where
      shrunk :
          (now : Dict Value)
          → IsLike (insert file (or_empty c) s.pillars) now
          → IsLike s.pillars now
      shrunk now (kept, others) = (
        λ f p e.
            kept f p (ground (arith, lookup-insert file f (or_empty c) s.pillars, eq_iff file f)),
        λ f q e here. elim (Bool-cases (file == f)) [
          | inr other ↦ others f q (rw (lookup-insert, other) e) here
          | inl is_file ↦
              let f_eq : file ≡ f = (eq_iff file f).0 is_file in
              let (q₁, there, more) = kept f (or_empty c) (rw (lookup-insert, is_file)) in
              let q_eq : q₁ ≡ q = ground arith in
              (
                or_empty c,
                inr (c, rw (← f_eq) (older file new), rw (← f_eq, ← same) read, refl),
                subst (λ (x : Value). Extends (or_empty c) x) q_eq more,
              )
        ],
      )

  rollback_loop-cons :
      (e : PillarEntry) (es : List PillarEntry) (t : Updater E o) (v p' : Value)
      → lookup e.file t.pillars ≡ some v
      → entry_rollback e.keypath e.old v ≡ (ok tt, p')
      → rollback_loop E o (e ∷ es) t
        ≡ rollback_loop E o es (record {
          world = t.world;
          pillars = insert e.file p' t.pillars;
          p_entries = reverse es;
        })
  unfolding rollback_loop rollback_entry or_empty
  rollback_loop-cons e es t v p' at back = ground (arith, at, back)

  -- One more entry: undoing it leads back.
  pub Good-appended :
      (file : String) (kp : KeyPath) (old : Old) (p q : Value) (s : Updater E o)
      → Good s
      → lookup file s.pillars ≡ some p
      → ((q' : Value)
          → Extends q q'
          → (p' : Value) × (entry_rollback kp old q' ≡ (ok tt, p')) × Extends p p')
      → Good (appended E o file kp old (record s { pillars = insert file q s.pillars }))
  unfolding appended
  Good-appended file kp old p q s (same, undo, older) at back = (
    same,
    rw reverse-append (λ t like. undone t like),
    λ f h. older f (ground (arith, lookup-insert file f q s.pillars, eq_iff file f)),
  )
    where
      e : PillarEntry
      e = record { file = file; keypath = kp; old = old }

      shrunk :
          (p' : Value) (now : Dict Value)
          → Extends p p'
          → IsLike (insert file q s.pillars) now
          → IsLike s.pillars (insert file p' now)
      shrunk p' now more (kept, others) = (
        λ f u h. elim (Bool-cases (file == f)) [
          | inl is_file ↦
              let f_eq : file ≡ f = (eq_iff file f).0 is_file in
              let u_eq : p ≡ u = ground arith in
              (p', rw (lookup-insert, is_file), subst (λ (x : Value). Extends x p') u_eq more)
          | inr other ↦
              let (w, there, wider) = kept f u (rw (lookup-insert, other) h) in
              (w, rw (lookup-insert, other) there, wider)
        ],
        λ f w h here. elim (Bool-cases (file == f)) [
          | inl is_file ↦ let f_eq : file ≡ f = (eq_iff file f).0 is_file in ground arith
          | inr other ↦
              others f w (rw (lookup-insert, other) h) (ground (arith, lookup-insert file f p' now))
        ],
      )

      undone :
          (t : Updater E o)
          → IsLike (insert file q s.pillars) t.pillars
          → (x : Updater E o) × (rollback_loop E o (e ∷ reverse s.p_entries) t ≡ (ok tt, x))
            × AllRestored x.pillars
      undone t like =
          let (q', there, wider) =
            like.0 file q (ground (arith, lookup-insert file file q s.pillars, eq_refl file)) in
          let (p', back_to, more) = back q' wider in
          let u : Updater E o = record {
            world = t.world;
            pillars = insert file p' t.pillars;
            p_entries = reverse (reverse s.p_entries);
          } in
          let (x, done, restored) = undo u (shrunk p' t.pillars more like) in
          (x, rollback_loop-cons e (reverse s.p_entries) t q' p' there back_to ∙ done, restored)
