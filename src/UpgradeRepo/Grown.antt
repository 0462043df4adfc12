-- ===== src/UpgradeRepo/Grown.antt =====
-- Commands that only add to the list of collected exceptions.
use cortx_prvsnr.Prelude.{◌≡◌, refl, sym, ap, ◌∙◌, Bool, true, false, List, [], ◌∷◌, ◌++◌, arith}
use cortx_prvsnr.Prelude.{if◌then◌else◌}
use mathlib.Core.List.{append_assoc, append-nil}
use cortx_prvsnr.Errors.{Exception}
use cortx_prvsnr.Exec.{Exec, Result, ok, err, continue}
use cortx_prvsnr.UpgradeRepo.{State, on_world, collect, append, catching}

-- The exceptions before, with more behind them only in a dry run; the version is as it was.
pub record Grown {W A : Type 0} (dry_run : Bool) (s : State W) (r : Result A × State W)
    : Type 0 where
  pub version : r.1.source_version ≡ s.source_version
  pub more : List Exception
  pub added : r.1.exceptions ≡ s.exceptions ++ more
  pub strict : dry_run ≡ false → more ≡ []

module _ {W : Type 0} (dry_run : Bool) where
  pub unchanged :
      {A : Type 0} (s : State W) (r : Result A × State W)
      → r.1.source_version ≡ s.source_version
      → r.1.exceptions ≡ s.exceptions
      → Grown dry_run s r
  unchanged s r same e = record {
    version = same;
    more = [];
    added = e ∙ sym (append-nil s.exceptions);
    strict = λ _. refl;
  }

  pub after :
      {A B : Type 0} (s : State W) (r : Result A × State W) (q : Result B × State W)
      → Grown dry_run s r
      → Grown dry_run r.1 q
      → Grown dry_run s q
  after s r q g h = record {
    version = h.version ∙ g.version;
    more = g.more ++ h.more;
    added =
        h.added
        ∙ ap (λ (x : List Exception). x ++ h.more) g.added
        ∙ append_assoc s.exceptions g.more h.more;
    strict = λ d. rw (g.strict d, h.strict d);
  }

  pub on_world-Grown : {A : Type 0} (m : Exec W A) (s : State W) → Grown dry_run s (on_world m s)
  unfolding on_world
  on_world-Grown m s = unchanged s (on_world m s) refl refl

  pub chain :
      {A B : Type 0} (s : State W) (r : Result A × State W) (next : A → Exec (State W) B)
      → Grown dry_run s r
      → ((a : A) (t : State W) → Grown dry_run t (next a t))
      → Grown dry_run s (continue next r)
  chain s (ok a, t) next first rest = after s (ok a, t) (next a t) first (rest a t)
  chain s (err e, t) next first rest = unchanged_result first
    where
      unchanged_result :
          {A B : Type 0} {e : Exception}
          → Grown {A = A} dry_run s (err e, t)
          → Grown {A = B} dry_run s (err e, t)
      unchanged_result g = record {
        version = g.version;
        more = g.more;
        added = g.added;
        strict = g.strict;
      }

  pub either :
      {A : Type 0} (b : Bool) (s : State W) (r q : Result A × State W)
      → Grown dry_run s r
      → Grown dry_run s q
      → Grown dry_run s (if b then r else q)
  either true s r q g h = g
  either false s r q g h = h

  pub either_run :
      {A : Type 0} (b : Bool) (s : State W) (m n : Exec (State W) A)
      → Grown dry_run s (m s)
      → Grown dry_run s (n s)
      → Grown dry_run s ((if b then m else n) s)
  either_run true s m n g h = g
  either_run false s m n g h = h

  pub nothing : {A : Type 0} (r : Result A) (s : State W) → Grown dry_run s (r, s)
  nothing r s = unchanged s (r, s) refl refl

pub collect-Grown :
    {W : Type 0} (dry_run : Bool) (x : Exception) (s : State W)
    → Grown dry_run s (collect dry_run x s)
unfolding collect append
collect-Grown true x s = record {
  version = refl;
  more = x ∷ [];
  added = refl;
  strict = λ d. ground arith;
}
collect-Grown false x s = nothing false (err x) s

pub catching-Grown :
    {W : Type 0} (dry_run : Bool) (test : Exception → Bool) (x : Exception) (s : State W)
    (r : Result (Unit {0}) × State W)
    → Grown dry_run s r
    → Grown dry_run s (catching test dry_run x r)
unfolding catching
catching-Grown dry_run test x s (ok u, t) g = g
catching-Grown dry_run test x s (err e, t) g =
    either dry_run (test e) s (collect dry_run x t) (err e, t)
      (after dry_run s _ (collect dry_run x t) g (collect-Grown dry_run x t)) g
