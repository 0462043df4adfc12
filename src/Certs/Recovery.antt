-- ===== src/Certs/Recovery.antt =====
-- What the recovery of the old certificates of `SetSSLCerts` does.
use cortx_prvsnr.Prelude.{String, ◌≡◌, Option, none, some, inl, inr, arith, refl, false}
use cortx_prvsnr.Errors.{Exception, unbound_local_error}
use cortx_prvsnr.Exec.{ok, err, >>=-eq-err, >>=-eq-ok, ◌>>◌, before_pure-err}
use cortx_prvsnr.Hare.Defs.{cluster_maintenance_disable}
use cortx_prvsnr.Certs.{Ops, Paths, World, apply_certs, restore, recover}

module _ (O : Ops) (P : Paths) (targets : String) where
  open O use {hare, copy_to_file_roots}

  -- What the recovery of the old certificates has done when it returns.
  pub record Recovered (b : Option String) (v t : World O P targets) : Type 0 where
    pub name : String
    pub out : String
    pub copy_name : String
    pub copied : World O P targets
    pub applied : World O P targets
    pub is_bound : b ≡ some name
    pub copy_step : copy_to_file_roots name P.dest v ≡ (ok copy_name, copied)
    pub apply_step : apply_certs O P targets copied ≡ (ok tt, applied)
    pub disable_step : cluster_maintenance_disable hare false applied ≡ (ok out, t)

  -- What broke it off: the name of the backup that was not bound, or one of its steps.
  pub data NotRecovered (v : World O P targets)
      : Option String → Exception → World O P targets → Type 0 where
    no_name : NotRecovered v none (unbound_local_error "backup_file_name") v
    no_copy :
        {name : String} {r : Exception} {t : World O P targets}
        → copy_to_file_roots name P.dest v ≡ (err r, t)
        → NotRecovered v (some name) r t
    no_apply :
        {name out : String} {r : Exception} {u t : World O P targets}
        → copy_to_file_roots name P.dest v ≡ (ok out, u)
        → apply_certs O P targets u ≡ (err r, t)
        → NotRecovered v (some name) r t
    no_disable :
        {name out : String} {r : Exception} {u s t : World O P targets}
        → copy_to_file_roots name P.dest v ≡ (ok out, u)
        → apply_certs O P targets u ≡ (ok tt, s)
        → cluster_maintenance_disable hare false s ≡ (err r, t)
        → NotRecovered v (some name) r t

  pub recover-Recovered :
      (b : Option String) (v t : World O P targets)
      → recover O P targets b v ≡ (ok tt, t)
      → Recovered b v t
  unfolding recover restore
  recover-Recovered none v t h = ground arith
  recover-Recovered (some name) v t h =
      let (out, s, first, last) =
        >>=-eq-ok (restore O P targets (some name) >> cluster_maintenance_disable hare false) _ v
          h in
      let (_, u, restored, disabled) =
        >>=-eq-ok (restore O P targets (some name)) (λ _. cluster_maintenance_disable hare false) v
          first in
      let (copy_name, c, copied, applied) =
        >>=-eq-ok (copy_to_file_roots name P.dest) (λ _. apply_certs O P targets) v restored in
      let is_t : s ≡ t = ground arith in
      record {
        name = name;
        out = out;
        copy_name = copy_name;
        copied = c;
        applied = u;
        is_bound = refl;
        copy_step = copied;
        apply_step = applied;
        disable_step = rw is_t at disabled;
      }

  pub recover-NotRecovered :
      (b : Option String) (v t : World O P targets) (r : Exception)
      → recover O P targets b v ≡ (err r, t)
      → NotRecovered v b r t
  unfolding recover restore
  recover-NotRecovered none v t r h =
      let is_r : unbound_local_error "backup_file_name" ≡ r = ground arith in
      let is_t : v ≡ t = ground arith in rw (← is_r, ← is_t) no_name
  recover-NotRecovered (some name) v t r h =
      elim (>>=-eq-err (restore O P targets (some name))
        (λ _. cluster_maintenance_disable hare false) v
        (before_pure-err (restore O P targets (some name) >> cluster_maintenance_disable hare false)
          tt v h)) [
            | inl failed ↦
                elim (>>=-eq-err (copy_to_file_roots name P.dest) (λ _. apply_certs O P targets) v
                  failed) [
                    | inl failed₁ ↦ no_copy failed₁
                    | inr (out, u, copied, failed₁) ↦ no_apply copied failed₁
                  ]
            | inr (_, s, restored, failed) ↦
                let (out, u, copied, applied) =
                  >>=-eq-ok (copy_to_file_roots name P.dest) (λ _. apply_certs O P targets) v
                    restored in
                no_disable copied applied failed
          ]
