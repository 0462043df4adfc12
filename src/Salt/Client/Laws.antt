-- ===== src/Salt/Client/Laws.antt =====
-- What the errors of a salt call show, and when a call does not return.
use cortx_prvsnr.Prelude.{String, ◌≡◌, refl, sym, ◌∙◌, Bool, true, false, some, ◌⊎◌, ◌↔◌}
use cortx_prvsnr.Prelude.{Bool-cases, arith, inl, inr, if◌then◌else◌, eq_refl}
use cortx_prvsnr.Errors.{Exception, salt_cmd_run_error, salt_cmd_result_error}
use cortx_prvsnr.Exec.{ok, err}
use cortx_prvsnr.Json.{Json, null, object, Fields, end, field, get, contains_key, truthy}
use cortx_prvsnr.Json.Laws.{get-put, get-absent}
use cortx_prvsnr.Update.{wrapped}
use cortx_prvsnr.Salt.Args.{Call, as_dict, view_of, masked, secret_mask}
use cortx_prvsnr.Salt.Results.{Parsed, client_result}
use cortx_prvsnr.Salt.Results.Failed.{HasField, Failed}
use cortx_prvsnr.Salt.Results.Laws.{client_result-Failed}
use cortx_prvsnr.Salt.Client.Plain.{cmd_args, client_result-IsPlain, caller_result-IsPlain}
use cortx_prvsnr.Salt.Client.Shown.{
  Shows, IsPlain-Shows, if-Shows, wrapped-Shows, then-Shows, shown-of,
}
use cortx_prvsnr.Salt.Client.{
  Env, Session, prepared, salt_client_cmd, checked, parsed, sent, on_world,
}

abbrev pub fields_of : Json → Fields
fields_of (object fs) = fs
fields_of v = end

-- What is shown under `password` in a part of the arguments, the mask where nothing is.
abbrev pub shown_password : String → Json → Json
shown_password part view = get "password" secret_mask (fields_of (get part null (fields_of view)))

masked-get : (fs : Fields) → get "password" secret_mask (masked fs) ≡ secret_mask
unfolding masked
masked-get fs = elim (Bool-cases (contains_key "password" fs)) [
  | inl there ↦ rw there (get-put "password" "password" secret_mask secret_mask fs)
  | inr gone ↦ rw gone (get-absent "password" secret_mask fs gone)
]

masked-shown :
    (secure : Bool) (fs : Fields)
    → get "password" secret_mask (fields_of (if secure then secret_mask else object (masked fs)))
      ≡ secret_mask
unfolding get
masked-shown true fs = refl
masked-shown false fs = masked-get fs

view_of-masked :
    (local : Bool) (call : Call)
    → (shown_password "kw" (view_of local call) ≡ secret_mask)
      × (shown_password "fun_kwargs" (view_of local call) ≡ secret_mask)
unfolding view_of as_dict get
view_of-masked true call = (masked-get call.kw, masked-shown call.secure call.fun_kwargs)
view_of-masked false call = (masked-get call.kw, masked-shown call.secure call.fun_kwargs)

module _ (E : Env) where
  open E use {World}

  parsed-Shows :
      (view : Json) (local : Bool) (call : Call) (res : Json) (s : Session World)
      → Shows view (parsed E local call res s).0
  unfolding parsed
  parsed-Shows view true call res s =
      IsPlain-Shows view _ (caller_result-IsPlain call.fun res (E.retcode s.world))
  parsed-Shows view false call res s = IsPlain-Shows view _ (client_result-IsPlain call.fun res)

  checked-Shows : (view : Json) (p : Parsed) (s : Session World) → Shows view (checked E view p s).0
  unfolding checked cmd_args
  checked-Shows view p s = elim (Bool-cases (truthy (object p.fails))) [
    | inl failed ↦ rw failed (λ shown h. ground (arith, h))
    | inr fine ↦ rw fine tt
  ]

  client_cmd-Shows :
      (local : Bool) (call : Call) (s : Session World)
      → Shows (view_of local (prepared E local call)) (salt_client_cmd E local call s).0
  unfolding salt_client_cmd cmd_args
  client_cmd-Shows local call s =
      let args = prepared E local call in
      then-Shows (view_of local args)
        (wrapped (salt_cmd_run_error (view_of local args)) (sent E local args)) _ s
        (wrapped-Shows (Session World) (view_of local args) (sent E local args) s)
        λ res t.
          if-Shows (view_of local args) (truthy res) _ _ t
            (if-Shows (view_of local args) call.nowait _ _ t tt (
              then-Shows (view_of local args) (parsed E local args res) _ t
                (parsed-Shows (view_of local args) local args res t)
                λ p u. checked-Shows (view_of local args) p u))
            (λ shown h. ground (arith, h))

  -- The arguments that the error of a call shows are those of the call, with the passwords masked
  -- among the parameters of salt and among those of the function.
  pub salt_client_cmd-masked :
      (local : Bool) (call : Call) (s t : Session World) (e : Exception) (view : Json)
      → salt_client_cmd E local call s ≡ (err e, t)
      → cmd_args e ≡ some view
      → (view ≡ view_of local (prepared E local call))
        × (shown_password "kw" view ≡ secret_mask)
        × (shown_password "fun_kwargs" view ≡ secret_mask)
  salt_client_cmd-masked local call s t e view h shows =
      let args = prepared E local call in
      let same = shown-of (view_of local args) view _ e t (client_cmd-Shows local call s) h shows in
      let (kw, fun_kwargs) = view_of-masked local args in (same, rw same kw, rw same fun_kwargs)

-- Some target of a call has failed.
abbrev pub AnyFailed : String → Fields → Type 0
AnyFailed fun jobs = (key : String) × (v : Json) × HasField key v jobs × Failed fun v

fails-truthy :
    (fun : String) (jobs : Fields) (p : Parsed)
    → client_result fun (object jobs) ≡ ok p
    → (truthy (object p.fails) ≡ true) ↔ AnyFailed fun jobs
unfolding truthy contains_key
fails-truthy fun jobs p h = split p.fails (λ key. client_result-Failed fun key jobs p h)
  where
    split :
        (fails : Fields)
        → ((key : String)
            → (contains_key key fails ≡ true) ↔ ((v : Json) × HasField key v jobs × Failed fun v))
        → (truthy (object fails) ≡ true) ↔ AnyFailed fun jobs
    split end q = (
      λ t. ground (arith, t),
      λ f. let (key, v, there, bad) = f in ground (arith, (q key).1 (v, there, bad)),
    )
    split (field k v fs) q =
        (λ t. let (v, there, bad) = (q k).0 (rw (eq_refl k) refl) in (k, v, there, bad), λ f. refl)

module _ (E : Env) where
  open E use {World}

  pub client_cmd-read :
      (call : Call) (s : Session World) (jobs : Fields) (w : World) (p : Parsed)
      → call.nowait ≡ false
      → E.local_client (prepared E false call) s.world ≡ (ok (object jobs), w)
      → truthy (object jobs) ≡ true
      → client_result call.fun (object jobs) ≡ ok p
      → salt_client_cmd E false call s
        ≡ checked E (view_of false (prepared E false call)) p (record s { world = w })
  unfolding salt_client_cmd wrapped sent parsed checked prepared on_world
  client_cmd-read call s jobs w p wait answer some_jobs read =
      rw (answer, some_jobs, wait, read) refl

  -- A call of minions that waits, that the client answers with jobs, and whose answer can be read,
  -- raises the failures exactly where some target has failed, and returns the results otherwise.
  pub salt_client_cmd-failed :
      (call : Call) (s : Session World) (jobs : Fields) (w : World) (p : Parsed)
      → call.nowait ≡ false
      → E.local_client (prepared E false call) s.world ≡ (ok (object jobs), w)
      → truthy (object jobs) ≡ true
      → client_result call.fun (object jobs) ≡ ok p
      → let fails =
          salt_cmd_result_error (view_of false (prepared E false call)) (object p.fails) in
        let result = salt_client_cmd E false call s in
        let after = record s { world = w } in
        (AnyFailed call.fun jobs ↔ (result ≡ (err fails, after)))
        × ((result ≡ (err fails, after)) ⊎ (result ≡ (ok p.results, after)))
  unfolding checked
  salt_client_cmd-failed call s jobs w p wait answer some_jobs read =
      let failed = fails-truthy call.fun jobs p read in
      let same = client_cmd-read call s jobs w p wait answer some_jobs read in
      elim (Bool-cases (truthy (object p.fails))) [
        | inl bad ↦
            let raised = same ∙ rw bad refl in ((λ f. raised, λ r. failed.0 bad), inl raised)
        | inr good ↦
            let returned = same ∙ rw good refl in
            (
              (
                λ f. let told = failed.1 f in ground (arith, good, told),
                λ r. let both = sym returned ∙ r in ground (arith, both),
              ),
              inr returned,
            )
      ]
