-- ===== src/Certs/Failures.antt =====
-- The ways in which `SetSSLCerts` fails.
use cortx_prvsnr.Prelude.{String, ◌≡◌, refl, true, false, Option, none, arith}
use cortx_prvsnr.Errors.{Exception, no_rollback_error, rollback_error}
use cortx_prvsnr.Errors.{ssl_certs_update_error}
use cortx_prvsnr.Exec.{Result, ok, err, continue, raise}
use cortx_prvsnr.Hare.Defs.{cluster_maintenance_disable}
use cortx_prvsnr.Certs.{Ops, Paths, FailureKind, enabling_failed, updating_failed, unexpected}
use cortx_prvsnr.Certs.{
  kind_of, Local, set_certs, recover, restore, failed, finished, handled, run_certs,
}
use cortx_prvsnr.Certs.{World}
use cortx_prvsnr.Certs.Steps.{BrokeAt, set_certs-BrokeAt}
use cortx_prvsnr.Certs.Recovery.{Recovered, NotRecovered}
use cortx_prvsnr.Certs.Recovery.{recover-Recovered, recover-NotRecovered}

module _ (O : Ops) (P : Paths) (targets : String) where
  open O use {hare, is_file}

  -- How the command fails after `x` broke it off in the world `v` with the backup `b`.
  pub data Failure
      : Exception → Option String → World O P targets → World O P targets → Exception → Type 0 where
    not_enabled :
        {x : Exception} {b : Option String} {v t : World O P targets} {out : String}
        → kind_of x ≡ enabling_failed
        → cluster_maintenance_disable hare true v ≡ (ok out, t)
        → Failure x b v t (ssl_certs_update_error x no_rollback_error)
    not_disabled :
        {x e : Exception} {b : Option String} {v t : World O P targets}
        → kind_of x ≡ enabling_failed
        → cluster_maintenance_disable hare true v ≡ (err e, t)
        → Failure x b v t e
    restored :
        {x : Exception} {b : Option String} {v t : World O P targets}
        → kind_of x ≡ updating_failed
        → Recovered O P targets b v t
        → Failure x b v t (ssl_certs_update_error x no_rollback_error)
    not_restored :
        {x r : Exception} {b : Option String} {v t : World O P targets}
        → kind_of x ≡ updating_failed
        → NotRecovered O P targets v b r t
        → Failure x b v t (ssl_certs_update_error x (rollback_error r))
    left_alone :
        {x : Exception} {b : Option String} {v : World O P targets}
        → kind_of x ≡ unexpected
        → Failure x b v v (ssl_certs_update_error x no_rollback_error)

  module _ (x e : Exception) (v t : World O P targets) where
    disabled :
        (b : Option String) (r : Result String × World O P targets)
        → kind_of x ≡ enabling_failed
        → cluster_maintenance_disable hare true v ≡ r
        → continue {B = Unit {0}} (λ _. raise (ssl_certs_update_error x no_rollback_error)) r
          ≡ (err e, t)
        → Failure x b v t e
    disabled b (ok out, u) k d h =
        let is_e : ssl_certs_update_error x no_rollback_error ≡ e = ground arith in
        let is_t : u ≡ t = ground arith in rw (← is_e) (not_enabled k (rw is_t at d))
    disabled b (err y, u) k d h =
        let is_e : y ≡ e = ground arith in
        let is_t : u ≡ t = ground arith in not_disabled k (rw (is_e, is_t) at d)

    updating :
        (b : Option String) (r : Result (Unit {0}) × World O P targets)
        → kind_of x ≡ updating_failed
        → recover O P targets b v ≡ r
        → finished O P targets x r ≡ (err e, t)
        → Failure x b v t e
    unfolding finished recover restore
    updating b (ok tt, u) k d h =
        let is_e : ssl_certs_update_error x no_rollback_error ≡ e = ground arith in
        let is_t : u ≡ t = ground arith in
        rw (← is_e) (restored k (recover-Recovered O P targets b v t (rw is_t at d)))
    updating b (err r, u) k d h =
        let is_e : ssl_certs_update_error x (rollback_error r) ≡ e = ground arith in
        let is_t : u ≡ t = ground arith in
        rw (← is_e) (not_restored k (recover-NotRecovered O P targets b v t r (rw is_t at d)))

    by_kind :
        (b : Option String) (k : FailureKind)
        → kind_of x ≡ k
        → failed O P targets x k b v ≡ (err e, t)
        → Failure x b v t e
    unfolding failed finished
    by_kind b enabling_failed k h = disabled b _ k refl h
    by_kind b updating_failed k h = updating b _ k refl h
    by_kind b unexpected k h =
        let is_e : ssl_certs_update_error x no_rollback_error ≡ e = ground arith in
        let is_t : v ≡ t = ground arith in rw (← is_e, ← is_t) (left_alone k)

  -- The body was broken off, and this is how it was handled.
  pub Broken : String → World O P targets → World O P targets → Exception → Type 0
  Broken source w t e =
      (x : Exception) × (v : World O P targets) × (b : Option String) × (set_certs O P targets
          source (w, none)
        ≡ (err x, (v, b)))
      × BrokeAt O P targets source w x v b
      × Failure x b v t e

  handled-Failure :
      (source : String) (w t : World O P targets) (e : Exception)
      (r : Result (Unit {0}) × Local O P targets)
      → set_certs O P targets source (w, none) ≡ r
      → handled O P targets r ≡ (err e, t)
      → Broken source w t e
  unfolding handled Broken
  handled-Failure source w t e (ok u, (v, b)) done h = ground arith
  handled-Failure source w t e (err x, (v, b)) done h = (
    x,
    v,
    b,
    done,
    set_certs-BrokeAt O P targets source w v x b done,
    by_kind x e v t b (kind_of x) refl h,
  )

  -- For a source that is a file: a failure of the command comes from one of the body, and from a
  -- step of it that is known: the enabling of maintenance, the copy of the new certificates, the
  -- update, or the end of maintenance. After an exception of enabling, maintenance is disabled in
  -- the background; after one of the update or of the end of maintenance, the old certificates are
  -- copied back from the backup and applied, and maintenance is disabled, or the error tells what
  -- broke this off; after an exception of any other kind nothing is done.
  pub run_certs-err :
      (source : String) (w t : World O P targets) (e : Exception)
      → is_file source w ≡ true
      → run_certs O P targets source false w ≡ (err e, t)
      → Broken source w t e
  unfolding run_certs
  run_certs-err source w t e there h = handled-Failure source w t e _ refl (rw there at h)
