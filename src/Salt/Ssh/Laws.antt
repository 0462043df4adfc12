-- ===== src/Salt/Ssh/Laws.antt =====
-- What is known of the targets when their access, and their python, have been ensured.
use cortx_prvsnr.Prelude.{String, ◌≡◌, refl, ap, ◌∙◌, Bool, true, false, Option, none, some}
use cortx_prvsnr.Prelude.{List, [], ◌∷◌, arith, inl, inr, if◌then◌else◌}
use cortx_prvsnr.Errors.{Exception}
use cortx_prvsnr.Exec.{
  ok, err, pure, raise, ◌>>=◌, ◌>>◌, >>=-eq-ok, lift-eq-ok, before_pure-err, handle-eq-ok, ◌>>◌,
}
use cortx_prvsnr.Json.{Json, null, Fields, end, nil, get, truthy}
use cortx_prvsnr.Salt.Client.{Env, Session, on_world}
use cortx_prvsnr.Salt.Ssh.Client.{Ops, SshClient, run, raw}
use cortx_prvsnr.Salt.Ssh.Access.{refusal, access_refused}
use cortx_prvsnr.Salt.Ssh.Access.{access_target, ensure_access, inject_key, copy_key}
use cortx_prvsnr.Salt.Ssh.Access.{cause}

module _ (E : Env) (O : Ops E.World) (C : SshClient) where
  -- The target could be reached, or it refused the key, and the key of the roster that the call
  -- had used was brought to it.
  pub data Access (bootstrap : Json) (target : String) (s t : Session E.World) : Type 0 where
    reached :
        {res : Json}
        → run E O C "uname" target nil end (raw null null) s ≡ (ok res, t)
        → Access bootstrap target s t
    keyed :
        {e : Exception} {view reasons roster : Json} {kw : Fields} {u v : Session E.World}
        → run E O C "uname" target nil end (raw null null) s ≡ (err e, u)
        → refusal e ≡ some (view, reasons)
        → cause "Permission denied" target view reasons ≡ ok (true, kw)
        → on_world E (O.load_yaml (get "roster_file" null kw)) u ≡ (ok roster, v)
        → (if truthy bootstrap
              then inject_key E O C bootstrap roster target
              else copy_key E O C (get "ssh_options" null kw) roster target)
            v
          ≡ (ok tt, t)
        → Access bootstrap target s t

  -- The same for one target after the other.
  pub data AllAccess (bootstrap : Json)
      : List String → Session E.World → Session E.World → Type 0 where
    no_target : {s : Session E.World} → AllAccess bootstrap [] s s
    one_more :
        {target : String} {targets : List String} {s t u : Session E.World}
        → Access bootstrap target s t
        → AllAccess bootstrap targets t u
        → AllAccess bootstrap (target ∷ targets) s u

  access_refused-Access :
      (bootstrap : Json) (target : String) (s u t : Session E.World) (e : Exception)
      → run E O C "uname" target nil end (raw null null) s ≡ (err e, u)
      → access_refused E O C bootstrap target e (refusal e) u ≡ (ok tt, t)
      → Access bootstrap target s t
  unfolding access_refused
  access_refused-Access bootstrap target s u t e is_err h = split (refusal e) refl h
    where
      split :
          (o : Option (Json × Json))
          → refusal e ≡ o
          → access_refused E O C bootstrap target e o u ≡ (ok tt, t)
          → Access bootstrap target s t
      split none is_none h = ground (arith, h)
      split (some (view, reasons)) is_some h =
          let ((denied, kw), is_cause, h₁) =
            lift-eq-ok (cause "Permission denied" target view reasons) _ u h in
          decide denied kw is_cause h₁
        where
          decide :
              (denied : Bool) (kw : Fields)
              → cause "Permission denied" target view reasons ≡ ok (denied, kw)
              → (if denied
                    then (on_world E (O.load_yaml (get "roster_file" null kw)) >>= λ roster.
                        if truthy bootstrap
                        then inject_key E O C bootstrap roster target
                        else copy_key E O C (get "ssh_options" null kw) roster target)
                    else raise e)
                  u
                ≡ (ok tt, t)
              → Access bootstrap target s t
          decide false kw p q = ground (arith, q)
          decide true kw p q =
              let (roster, v, is_roster, q₁) =
                >>=-eq-ok (on_world E (O.load_yaml (get "roster_file" null kw))) _ u q in
              keyed is_err is_some p is_roster q₁

  access_target-Access :
      (bootstrap : Json) (target : String) (s t : Session E.World)
      → access_target E O C bootstrap target s ≡ (ok tt, t)
      → Access bootstrap target s t
  unfolding access_target
  access_target-Access bootstrap target s t h =
      elim (handle-eq-ok (λ e. access_refused E O C bootstrap target e (refusal e))
        ((run E O C "uname" target nil end (raw null null) >> pure tt) s) tt t h) [
          | inl h₁ ↦
              let (res, u, is_res, h₂) =
                >>=-eq-ok (run E O C "uname" target nil end (raw null null)) _ s h₁ in
              reached (is_res ∙ ap (λ v. (ok res, v)) (ap (λ r. r.1) h₂))
          | inr (e, u, is_err, h₁) ↦
              access_refused-Access bootstrap target s u t e
                (before_pure-err (run E O C "uname" target nil end (raw null null)) tt s is_err) h₁
        ]

  -- When the access to the targets has been ensured, each of them could be reached by its turn, or
  -- had refused the key and got the one of the roster that the call had used, from the bootstrap
  -- roster where there is one.
  pub ensure_access-AllAccess :
      (targets : List String) (bootstrap : Json) (s t : Session E.World)
      → ensure_access E O C targets bootstrap s ≡ (ok tt, t)
      → AllAccess bootstrap targets s t
  unfolding ensure_access
  ensure_access-AllAccess [] bootstrap s t h = rw (ap (λ r. r.1) h) no_target
  ensure_access-AllAccess (target ∷ targets) bootstrap s t h =
      let (done, u, is_done, h₁) = >>=-eq-ok (access_target E O C bootstrap target) _ s h in
      one_more (access_target-Access bootstrap target s u is_done)
        (ensure_access-AllAccess targets bootstrap u t h₁)
