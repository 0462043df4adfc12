-- ===== src/Lock/Stale.antt =====
-- `Lock._handle_old_lock_files` (lock.py): the directory that it leaves, and its result.
use cortx_prvsnr.Prelude.{String, ◌≡◌, refl, ◌⊎◌, inl, inr, Bool, true, false, ◌&&◌, not}
use cortx_prvsnr.Prelude.{
  Option, none, some, [], ◌∷◌, ◌==◌, eq_iff, eq_refl, arith, if◌then◌else◌, Bool-cases,
}
use cortx_prvsnr.Prelude.Dict.{Dict, lookup, delete, lookup-delete}
use cortx_prvsnr.Errors.{Exception, lock_file_acquire_error}
use cortx_prvsnr.Exec.{Result, ok, err, >>=-eq-ok}
use cortx_prvsnr.Lock.Defs.{Env, Content, Store, is_lock_name, files, get_lock_files, is_held}
use cortx_prvsnr.Lock.Defs.{sweep, handle_old_lock_files}

-- A directory has one file of a name.
abbrev pub HasUniqueNames : Dict Content → Type 0
HasUniqueNames [] = Unit
HasUniqueNames ((name, c) ∷ d) = (lookup name d ≡ none) × HasUniqueNames d

module _ (E : Env) (w : E.World) where
  -- The file is the lock of a running process.
  unfoldable pub held : Content → Bool
  held c = elim (is_held E c w) [ ok b ↦ b | err e ↦ false ]

  -- The check of each lock file ends without an exception.
  abbrev pub AllChecked : Dict Content → Type 0
  AllChecked [] = Unit
  AllChecked ((name, c) ∷ d) = (is_held E c w ≡ ok (held c)) × AllChecked d

  is_held-cases :
      (c : Content) → (is_held E c w ≡ ok (held c)) ⊎ ((e : Exception) × (is_held E c w ≡ err e))
  unfolding held
  is_held-cases c = split (is_held E c w) refl
    where
      split :
          (r : Result Bool)
          → is_held E c w ≡ r
          → (is_held E c w ≡ ok (held c)) ⊎ ((e : Exception) × (is_held E c w ≡ err e))
      split (ok b) h = inl (ground arith)
      split (err e) h = inr (e, h)

  -- A lock file that is not held is stale. Other files are not touched.
  abbrev pub is_stale : String → Option Content → Bool
  is_stale name none = false
  is_stale name (some c) = is_lock_name name && not (held c)

  stale_in : String → Dict Content → Bool
  stale_in k [] = false
  stale_in k ((name, c) ∷ d) = if name == k && not (held c) then true else stale_in k d

  remove_stale : Dict Content → Dict Content → Dict Content
  remove_stale [] d = d
  remove_stale ((name, c) ∷ rest) d = remove_stale rest (if held c then d else delete name d)

  last_held : Dict Content → Option String → Option String
  last_held [] ctx = ctx
  last_held ((name, c) ∷ rest) ctx = last_held rest (if held c then some name else ctx)

  sweep_lem :
      (ds d : Dict Content) (ctx : Option String)
      → AllChecked ds
      → sweep E ds ctx (record { world = w; dir = some d })
        ≡ (ok (last_held ds ctx), record { world = w; dir = some (remove_stale ds d) })
  unfolding sweep remove_stale last_held
  sweep_lem [] d ctx h = refl
  sweep_lem ((name, c) ∷ ds) d ctx (checked, h) =
      ground (arith, sweep_lem ds d (some name) h, sweep_lem ds (delete name d) ctx h)

  lookup-remove_stale :
      (k : String) (ds d : Dict Content)
      → lookup k (remove_stale ds d) ≡ (if stale_in k ds then none else lookup k d)
  unfolding remove_stale stale_in
  lookup-remove_stale k [] d = refl
  lookup-remove_stale k ((name, c) ∷ ds) d = ground (
    arith,
    lookup-remove_stale k ds d,
    lookup-remove_stale k ds (delete name d),
    lookup-delete name k d,
  )

  stale_in-lookup :
      (k : String) (d : Dict Content)
      → HasUniqueNames d
      → stale_in k (get_lock_files d) ≡ is_stale k (lookup k d)
  unfolding stale_in get_lock_files lookup
  stale_in-lookup k [] u = refl
  stale_in-lookup k ((name, c) ∷ d) (fresh, u) =
      ground (arith, stale_in-lookup k d u, eq_iff name k, eq_iff k name)

  sweep-ok :
      (ds d : Dict Content) (ctx r : Option String) (t : Store E)
      → sweep E ds ctx (record { world = w; dir = some d }) ≡ (ok r, t)
      → AllChecked ds
  unfolding sweep
  sweep-ok [] d ctx r t h = tt
  sweep-ok ((name, c) ∷ ds) d ctx r t h = elim (is_held-cases c) [
    | inl checked ↦ (
      checked,
      sweep-ok ds (if held c then d else delete name d) (if held c then some name else ctx) r t
          (ground arith),
    )
    | inr (e, failed) ↦ ground arith
  ]

  -- Some lock file of the directory is held.
  abbrev pub IsTaken : Dict Content → Type 0
  IsTaken d =
      (name : String) × (c : Content) × (lookup name d ≡ some c)
      × (is_lock_name name ≡ true)
      × (held c ≡ true)

  last_held-some :
      (ds : Dict Content) (ctx : String) → (name : String) × (last_held ds (some ctx) ≡ some name)
  unfolding last_held
  last_held-some [] ctx = (ctx, refl)
  last_held-some ((name, c) ∷ ds) ctx = elim (Bool-cases (held c)) [
    | inl yes_held ↦ rw yes_held (last_held-some ds name)
    | inr stale ↦ rw stale (last_held-some ds ctx)
  ]

  taken-last_held :
      (d : Dict Content)
      → IsTaken d
      → (name : String) × (last_held (get_lock_files d) none ≡ some name)
  unfolding get_lock_files lookup last_held
  taken-last_held [] (k, c, found, lock, h) = cc
  taken-last_held ((name, x) ∷ d) (k, c, found, lock, h) = elim (Bool-cases (name == k)) [
    | inl same ↦
        let e : x ≡ c = ground arith in
        rw (e, (eq_iff name k).0 same, lock)
          (rw (h, last_held) (last_held-some (get_lock_files d) k))
    | inr other ↦
        let ih = taken-last_held d (k, c, (rw other at found), lock, h) in
        elim (Bool-cases (is_lock_name name)) [
          | inr plain ↦ rw plain ih
          | inl lock_name ↦ elim (Bool-cases (held x)) [
            | inl yes_held ↦
                rw lock_name (rw (yes_held, last_held) (last_held-some (get_lock_files d) name))
            | inr stale ↦ rw lock_name (rw (stale, last_held) ih)
          ]
        ]
  ]

  -- No lock file of the directory is held.
  abbrev pub IsFree : Dict Content → Type 0
  IsFree d =
      (name : String) (c : Content)
      → lookup name d ≡ some c
      → is_lock_name name ≡ true
      → held c ≡ false

  free-last_held :
      (d : Dict Content) → HasUniqueNames d → IsFree d → last_held (get_lock_files d) none ≡ none
  unfolding get_lock_files last_held lookup
  free-last_held [] u free = refl
  free-last_held ((name, x) ∷ d) (fresh, u) free =
      let below : IsFree d = λ k c found lock. free k c (ground (arith, eq_iff name k)) lock in
      let ih = free-last_held d u below in
      elim (Bool-cases (is_lock_name name)) [
        | inr plain ↦ rw plain ih
        | inl lock ↦ rw lock (rw (free name x (rw eq_refl) lock, last_held) ih)
      ]

  abbrev pub listing : Dict Content → Store E
  listing d = record { world = w; dir = some d }

  -- The removal of old lock files removes exactly the stale ones and changes nothing else, also
  -- when it then refuses the lock.
  pub handle_old_lock_files-lookup :
      (d : Dict Content) (k : String)
      → HasUniqueNames d
      → AllChecked (get_lock_files d)
      → ((handle_old_lock_files E (listing d)).1.world ≡ w)
        × (lookup k (files (handle_old_lock_files E (listing d)).1.dir)
            ≡ (if is_stale k (lookup k d) then none else lookup k d))
  unfolding handle_old_lock_files
  handle_old_lock_files-lookup d k u h = ground (
    arith,
    sweep_lem (get_lock_files d) d none h,
    lookup-remove_stale k (get_lock_files d) d,
    stale_in-lookup k d u,
  )

  -- The lock is refused, with the name of a lock file, when one is held.
  pub handle_old_lock_files-taken :
      (d : Dict Content)
      → AllChecked (get_lock_files d)
      → IsTaken d
      → (name : String) × ((handle_old_lock_files E (listing d)).0
          ≡ err (lock_file_acquire_error name))
  unfolding handle_old_lock_files
  handle_old_lock_files-taken d h taken =
      let (name, e) = taken-last_held d taken in
      (name, ground (arith, sweep_lem (get_lock_files d) d none h))

  pub handle_old_lock_files-free :
      (d : Dict Content)
      → HasUniqueNames d
      → AllChecked (get_lock_files d)
      → IsFree d
      → (handle_old_lock_files E (listing d)).0 ≡ ok tt
  unfolding handle_old_lock_files
  handle_old_lock_files-free d u h free =
      ground (arith, sweep_lem (get_lock_files d) d none h, free-last_held d u free)

  -- A lock that is granted: every lock file was checked, and none was held.
  pub handle_old_lock_files-ok :
      (d : Dict Content) (t : Store E)
      → handle_old_lock_files E (listing d) ≡ (ok tt, t)
      → AllChecked (get_lock_files d) × (t.world ≡ w) × ¬ (IsTaken d)
  unfolding handle_old_lock_files
  handle_old_lock_files-ok d t h =
      let (r, u, swept, rest) = >>=-eq-ok (sweep E (get_lock_files d) none) _ (listing d) h in
      let checked = sweep-ok (get_lock_files d) d none r u swept in
      (
        checked,
        ground (arith, sweep_lem (get_lock_files d) d none checked),
        λ taken. let (name, e) = handle_old_lock_files-taken d checked taken in ground arith,
      )
