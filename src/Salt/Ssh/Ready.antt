-- ===== src/Salt/Ssh/Ready.antt =====
-- What is known of the targets when their python, and all of it, has been ensured.
use cortx_prvsnr.Prelude.{String, ◌≡◌, refl, ap, Bool, true, false, Option, none, some}
use cortx_prvsnr.Prelude.{List, [], ◌∷◌, Bool-cases, arith, inl, inr, if◌then◌else◌}
use cortx_prvsnr.Errors.{Exception}
use cortx_prvsnr.Exec.{
  ok, err, >>=-eq-ok, lift-eq-ok, before_pure-err, handle-eq-ok, ok_injective, pure, raise, ◌>>◌,
}
use cortx_prvsnr.Json.{Json, null, Fields, end, nil, get, truthy}
use cortx_prvsnr.Salt.Client.{Env, Session}
use cortx_prvsnr.Salt.Ssh.Client.{Ops, SshClient, run, raw}
use cortx_prvsnr.Salt.Ssh.Access.{refusal, cause, python3_refused}
use cortx_prvsnr.Salt.Ssh.Access.{python3_target, ensure_access, ensure_python3, ensure_ready}
use cortx_prvsnr.Salt.Ssh.Laws.{AllAccess, ensure_access-AllAccess}

module _ (E : Env) (O : Ops E.World) (C : SshClient) where
  -- The target has python3 for the roster, or it had not and it was installed; `next` is the roster
  -- that is used from then on.
  pub data Python (roster : Json) (target : String) (s : Session E.World)
      : Json → Session E.World → Type 0 where
    there :
        {res : Json} {t : Session E.World}
        → run E O C "python3 --version" target nil end (raw roster null) s ≡ (ok res, t)
        → Python roster target s roster t
    installed :
        {e : Exception} {view reasons res : Json} {kw : Fields} {t u : Session E.World}
        → run E O C "python3 --version" target nil end (raw roster null) s ≡ (err e, u)
        → refusal e ≡ some (view, reasons)
        → cause "not found" target view reasons ≡ ok (true, kw)
        → run E O C "yum install -y python3" target nil end
            (raw (get "roster_file" null kw) (get "ssh_options" null kw))
            u
          ≡ (ok res, t)
        → Python roster target s (get "roster_file" null kw) t

  pub data AllPython : Json → List String → Session E.World → Session E.World → Type 0 where
    no_target : {roster : Json} {s : Session E.World} → AllPython roster [] s s
    one_more :
        {roster next : Json} {target : String} {targets : List String} {s t u : Session E.World}
        → Python roster target s next t
        → AllPython next targets t u
        → AllPython roster (target ∷ targets) s u

  -- Python comes first where the bootstrap key gives the access to install it.
  pub data Ready (bootstrap : Json) (targets : List String) (s t : Session E.World) : Type 0 where
    bootstrapped :
        {u : Session E.World}
        → truthy bootstrap ≡ true
        → AllPython bootstrap targets s u
        → AllAccess E O C bootstrap targets u t
        → Ready bootstrap targets s t
    by_password :
        {u : Session E.World}
        → truthy bootstrap ≡ false
        → AllAccess E O C bootstrap targets s u
        → AllPython null targets u t
        → Ready bootstrap targets s t

  python3_refused-Python :
      (roster : Json) (target : String) (s u t : Session E.World) (e : Exception) (next : Json)
      → run E O C "python3 --version" target nil end (raw roster null) s ≡ (err e, u)
      → python3_refused E O C target e (refusal e) u ≡ (ok next, t)
      → Python roster target s next t
  unfolding python3_refused
  python3_refused-Python roster target s u t e next is_err h = split (refusal e) refl h
    where
      split :
          (o : Option (Json × Json))
          → refusal e ≡ o
          → python3_refused E O C target e o u ≡ (ok next, t)
          → Python roster target s next t
      split none is_none h = ground (arith, h)
      split (some (view, reasons)) is_some h =
          let ((missing, kw), is_cause, h₁) =
            lift-eq-ok (cause "not found" target view reasons) _ u h in
          decide missing kw is_cause h₁
        where
          decide :
              (missing : Bool) (kw : Fields)
              → cause "not found" target view reasons ≡ ok (missing, kw)
              → (if missing
                    then (run E O C "yum install -y python3" target nil end
                          (raw (get "roster_file" null kw) (get "ssh_options" null kw))
                        >> pure (get "roster_file" null kw))
                    else raise e)
                  u
                ≡ (ok next, t)
              → Python roster target s next t
          decide false kw p q = ground (arith, q)
          decide true kw p q =
              let (res, v, is_res, q₁) =
                >>=-eq-ok
                  (run E O C "yum install -y python3" target nil end
                    (raw (get "roster_file" null kw) (get "ssh_options" null kw)))
                  _ u q in
              rw (← ok_injective (ap (λ r. r.0) q₁), ← ap (λ r. r.1) q₁)
                (installed is_err is_some p is_res)

  python3_target-Python :
      (roster : Json) (target : String) (s t : Session E.World) (next : Json)
      → python3_target E O C roster target s ≡ (ok next, t)
      → Python roster target s next t
  unfolding python3_target
  python3_target-Python roster target s t next h =
      elim (handle-eq-ok (λ e. python3_refused E O C target e (refusal e))
        ((run E O C "python3 --version" target nil end (raw roster null) >> pure roster) s) next t
        h) [
          | inl h₁ ↦
              let (res, u, is_res, h₂) =
                >>=-eq-ok (run E O C "python3 --version" target nil end (raw roster null)) _ s h₁ in
              rw (← ok_injective (ap (λ r. r.0) h₂), ← ap (λ r. r.1) h₂) (there is_res)
          | inr (e, u, is_err, h₁) ↦
              python3_refused-Python roster target s u t e next
                (before_pure-err (run E O C "python3 --version" target nil end (raw roster null))
                  roster s is_err)
                h₁
        ]

  ensure_python3-AllPython :
      (targets : List String) (roster : Json) (s t : Session E.World)
      → ensure_python3 E O C targets roster s ≡ (ok tt, t)
      → AllPython roster targets s t
  unfolding ensure_python3
  ensure_python3-AllPython [] roster s t h = rw (ap (λ r. r.1) h) no_target
  ensure_python3-AllPython (target ∷ targets) roster s t h =
      let (next, u, is_done, h₁) = >>=-eq-ok (python3_target E O C roster target) _ s h in
      one_more (python3_target-Python roster target s u next is_done)
        (ensure_python3-AllPython targets next u t h₁)

  -- When all has been ensured, each target has answered to a query or a call that installed python3;
  -- and each has answered to `uname`, or has refused it with "Permission denied", after which the
  -- calls that put the key there returned. That the access works after these is not looked at
  -- again. Python comes first where there is a bootstrap roster, and last where there is none.
  pub ensure_ready-Ready :
      (targets : List String) (bootstrap : Json) (s t : Session E.World)
      → ensure_ready E O C targets bootstrap s ≡ (ok tt, t)
      → Ready bootstrap targets s t
  unfolding ensure_ready
  ensure_ready-Ready targets bootstrap s t h = elim (Bool-cases (truthy bootstrap)) [
    | inl given ↦
        let (done, u, first, h₁) =
          >>=-eq-ok
            (ensure_python3 E O C targets bootstrap >> ensure_access E O C targets bootstrap) _ s
            (rw given at h) in
        let (done₁, v, python, access) =
          >>=-eq-ok (ensure_python3 E O C targets bootstrap) _ s first in
        rw (← ap (λ r. r.1) h₁) (
          bootstrapped given (ensure_python3-AllPython targets bootstrap s v python)
            (ensure_access-AllAccess E O C targets bootstrap v u access))
    | inr not_given ↦
        let (done, u, first, h₁) =
          >>=-eq-ok (pure (tt {0}) >> ensure_access E O C targets bootstrap) _ s
            (rw not_given at h) in
        by_password not_given (ensure_access-AllAccess E O C targets bootstrap s u first)
          (ensure_python3-AllPython targets null u t h₁)
  ]
