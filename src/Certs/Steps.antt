-- ===== src/Certs/Steps.antt =====
-- The steps of the body of `SetSSLCerts` that its exceptions come from.
use cortx_prvsnr.Prelude.{String, ◌≡◌, Option, none, inl, inr, arith, sym, ◌∙◌, false}
use cortx_prvsnr.Errors.{Exception, no_rollback_error, ssl_certs_update_error}
use cortx_prvsnr.Errors.{cluster_maintenance_enable_error, cluster_maintenance_disable_error}
use cortx_prvsnr.Exec.{ok, err, Exec, >>=-eq-err, >>=-eq-ok, ◌>>◌, before_pure-err}
use cortx_prvsnr.Hare.Defs.{cluster_maintenance_enable, cluster_maintenance_disable}
use cortx_prvsnr.Update.{wrapped}
use cortx_prvsnr.Update.Kinds.{wrapped-err}
use cortx_prvsnr.Update.Success.{wrapped-ok}
use cortx_prvsnr.Certs.{Ops, Paths, World, Local, on_world, replace, set_certs}

module _ (O : Ops) (P : Paths) (targets : String) where
  open O use {hare, copy_to_file_roots}

  on_world-err :
      {A : Type 0} (m : Exec (World O P targets) A) (w : World O P targets) (b : Option String)
      (e : Exception) (v : World O P targets) (c : Option String)
      → on_world O P targets m (w, b) ≡ (err e, (v, c))
      → (m w ≡ (err e, v)) × (b ≡ c)
  unfolding on_world
  on_world-err m w b e v c h = (ground arith, ground arith)

  on_world-ok :
      {A : Type 0} (m : Exec (World O P targets) A) (w : World O P targets) (b : Option String)
      (a : A) (v : World O P targets) (c : Option String)
      → on_world O P targets m (w, b) ≡ (ok a, (v, c))
      → (m w ≡ (ok a, v)) × (b ≡ c)
  unfolding on_world
  on_world-ok m w b a v c h = (ground arith, ground arith)

  -- The step that raised, after the steps before it have returned; the name of the backup at the
  -- end is known where the copy to the backup has returned.
  pub data BrokeAt (source : String) (w : World O P targets)
      : Exception → World O P targets → Option String → Type 0 where
    at_enable :
        {x : Exception} {t : World O P targets}
        → cluster_maintenance_enable hare w ≡ (err x, t)
        → BrokeAt source w (cluster_maintenance_enable_error x) t none
    at_copy :
        {x : Exception} {out : String} {v t : World O P targets}
        → cluster_maintenance_enable hare w ≡ (ok out, v)
        → copy_to_file_roots source P.dest v ≡ (err x, t)
        → BrokeAt source w x t none
    at_replace :
        {x : Exception} {out copied : String} {v u t : World O P targets} {b : Option String}
        → cluster_maintenance_enable hare w ≡ (ok out, v)
        → copy_to_file_roots source P.dest v ≡ (ok copied, u)
        → replace O P targets (u, none) ≡ (err x, (t, b))
        → BrokeAt source w (ssl_certs_update_error x no_rollback_error) t b
    at_disable :
        {x : Exception} {out copied : String} {v u s t : World O P targets} {b : Option String}
        → cluster_maintenance_enable hare w ≡ (ok out, v)
        → copy_to_file_roots source P.dest v ≡ (ok copied, u)
        → replace O P targets (u, none) ≡ (ok tt, (s, b))
        → cluster_maintenance_disable hare false s ≡ (err x, t)
        → BrokeAt source w (cluster_maintenance_disable_error x) t b

  abbrev enabling : Exec (Local O P targets) String
  enabling =
      on_world O P targets
        (wrapped cluster_maintenance_enable_error (cluster_maintenance_enable hare))

  abbrev copying : String → Exec (Local O P targets) String
  copying source = on_world O P targets (copy_to_file_roots source P.dest)

  abbrev replacing : Exec (Local O P targets) (Unit {0})
  replacing = wrapped (λ e. ssl_certs_update_error e no_rollback_error) (replace O P targets)

  abbrev disabling : Exec (Local O P targets) String
  disabling =
      on_world O P targets
        (wrapped cluster_maintenance_disable_error (cluster_maintenance_disable hare false))

  enabling-ok :
      (w v : World O P targets) (b c : Option String) (out : String)
      → enabling (w, b) ≡ (ok out, (v, c))
      → (cluster_maintenance_enable hare w ≡ (ok out, v)) × (b ≡ c)
  enabling-ok w v b c out h =
      let (done, same) = on_world-ok _ w b out v c h in
      (
        wrapped-ok cluster_maintenance_enable_error (cluster_maintenance_enable hare) w v out done,
        same,
      )

  -- What the first two steps do.
  copied-ok :
      (source : String) (w u : World O P targets) (b : Option String) (copied : String)
      → (enabling >> copying source) (w, none) ≡ (ok copied, (u, b))
      → (out : String) × (v : World O P targets) × (cluster_maintenance_enable hare w ≡ (ok out, v))
        × (copy_to_file_roots source P.dest v ≡ (ok copied, u))
        × (b ≡ none)
  copied-ok source w u b copied h =
      let (out, (v, c), first, second) = >>=-eq-ok enabling _ (w, none) h in
      let (enabled, is_c) = enabling-ok w v none c out first in
      let (copy, is_b) = on_world-ok (copy_to_file_roots source P.dest) v c copied u b second in
      (out, v, enabled, copy, sym is_b ∙ sym is_c)

  copied-err :
      (source : String) (w t : World O P targets) (e : Exception) (b : Option String)
      → (enabling >> copying source) (w, none) ≡ (err e, (t, b))
      → BrokeAt source w e t b
  copied-err source w t e b h = elim (>>=-eq-err enabling _ (w, none) h) [
    | inl failed ↦
        let (raised, is_b) = on_world-err _ w none e t b failed in
        let (x, is_e, failed₁) =
          wrapped-err cluster_maintenance_enable_error (cluster_maintenance_enable hare) w t e
            raised in
        rw (← is_e, ← is_b) (at_enable failed₁)
    | inr (out, (v, c), first, second) ↦
        let (enabled, is_c) = enabling-ok w v none c out first in
        let (raised, is_b) = on_world-err (copy_to_file_roots source P.dest) v c e t b second in
        rw (← is_b, ← is_c) (at_copy enabled raised)
  ]

  replaced-err :
      (source : String) (w t : World O P targets) (e : Exception) (b : Option String)
      → (enabling >> copying source >> replacing) (w, none) ≡ (err e, (t, b))
      → BrokeAt source w e t b
  replaced-err source w t e b h = elim (>>=-eq-err (enabling >> copying source) _ (w, none) h) [
    | inl failed ↦ copied-err source w t e b failed
    | inr (copied, (u, c), first, second) ↦
        let (out, v, enabled, copy, is_c) = copied-ok source w u c copied first in
        let (x, is_e, failed) =
          wrapped-err (λ e. ssl_certs_update_error e no_rollback_error) (replace O P targets) (u, c)
            (t, b) e second in
        rw (← is_e) (at_replace enabled copy (rw is_c at failed))
  ]

  disabled-err :
      (source : String) (w t : World O P targets) (e : Exception) (b : Option String)
      → (enabling >> copying source >> replacing >> disabling) (w, none) ≡ (err e, (t, b))
      → BrokeAt source w e t b
  disabled-err source w t e b h =
      elim (>>=-eq-err (enabling >> copying source >> replacing) _ (w, none) h) [
        | inl failed ↦ replaced-err source w t e b failed
        | inr (_, (s, d), first, second) ↦
            let (copied, (u, c), first₁, second₁) =
              >>=-eq-ok (enabling >> copying source) _ (w, none) first in
            let (out, v, enabled, copy, is_c) = copied-ok source w u c copied first₁ in
            let (raised, is_b) = on_world-err _ s d e t b second in
            let (x, is_e, failed) =
              wrapped-err cluster_maintenance_disable_error (cluster_maintenance_disable hare false)
                s t e raised in
            let replaced =
              wrapped-ok (λ e. ssl_certs_update_error e no_rollback_error) (replace O P targets)
                (u, c) (s, d) tt second₁ in
            rw (← is_e, ← is_b) (at_disable enabled copy (rw is_c at replaced) failed)
      ]

  pub set_certs-BrokeAt :
      (source : String) (w t : World O P targets) (e : Exception) (b : Option String)
      → set_certs O P targets source (w, none) ≡ (err e, (t, b))
      → BrokeAt source w e t b
  unfolding set_certs
  set_certs-BrokeAt source w t e b h =
      disabled-err source w t e b
        (before_pure-err (enabling >> copying source >> replacing >> disabling) tt (w, none) h)
