-- ===== src/Salt/Provisioner/Laws.antt =====
-- The way of an outcome from a command at a minion to its caller, by salt.
use package.text.Mathlib.Text.{starts_with}
use cortx_prvsnr.Prelude.{String, ◌≡◌, refl, ap, ◌∙◌, Bool, true, false, List, Bool-cases}
use cortx_prvsnr.Prelude.{inl, inr, if◌then◌else◌, ◌==◌, ◌&&◌}
use cortx_prvsnr.Prelude.Text.{is_empty}
use cortx_prvsnr.Exec.{ok}
use cortx_prvsnr.Json.{Json, null, text, object, Fields, end, field, get, truthy}
use cortx_prvsnr.Serialize.{encode}
use cortx_prvsnr.Cli.{Outcome, answer, Python, output, or_empty, prepare_res, process_cli_result}
use cortx_prvsnr.Cli.RoundTrip.{CanCross, process_cli_result-output, output_is_text}
use cortx_prvsnr.Salt.Args.{Call, view_of, with_targets, pattern}
use cortx_prvsnr.Salt.Results.{Parsed, client_result, is_zero}
use cortx_prvsnr.Salt.Results.{ret_of}
use cortx_prvsnr.Salt.Client.{Env, Session, prepared, salt_client_cmd, function_run, checked}
use cortx_prvsnr.Salt.Client.{local_minion_id}
use cortx_prvsnr.Salt.Client.Laws.{client_cmd-read}
use cortx_prvsnr.Salt.Provisioner.{Arg, answered, command_call, provisioner_cmd, settled}
use cortx_prvsnr.Salt.Provisioner.{process_provisioner_cmd_res}

-- What is read of the job of one minion, whose return is the text.
unfoldable pub one_job : String → String → Bool → Parsed
one_job minion out zero_code = record {
  results = object (field minion (text out) end);
  fails = if zero_code then end else field minion (text out) end;
}

and_false : (b : Bool) → b && false ≡ false
and_false true = refl
and_false false = refl

pub client_result-one_job :
    (fun minion out : String) (job : Fields)
    → ret_of job ≡ text out
    → is_empty out ≡ false
    → client_result fun (object (field minion (object job) end))
      ≡ ok (one_job minion out (is_zero (get "retcode" null job)))
unfolding client_result one_job
client_result-one_job fun minion out job ret there =
    elim (Bool-cases (is_zero (get "retcode" null job))) [
      | inl zero_code ↦ rw (ret, zero_code) refl
      | inr code ↦ rw (ret, code, and_false (starts_with fun "state."), there) refl
    ]

module _ (E : Env) where
  local_minion_id-known :
      (s : Session E.World) → is_empty s.local_id ≡ false → local_minion_id E s ≡ (ok s.local_id, s)
  unfolding local_minion_id
  local_minion_id-known s known = rw known refl

  function_run-local :
      (call : Call) (s : Session E.World)
      → is_empty s.local_id ≡ false
      → function_run E false (pattern s.local_id) call s
        ≡ salt_client_cmd E false (with_targets (pattern s.local_id) call) s
  unfolding function_run
  function_run-local call s known = elim (Bool-cases (s.local_id == "__local__")) [
    | inl local ↦ rw (local, local_minion_id-known s known) refl
    | inr named ↦ rw named refl
  ]

  module _ (P : Python) where
    pub process_res-known :
        (s : Session E.World) (minion out : String)
        → is_empty s.local_id ≡ false
        → process_provisioner_cmd_res E P (object (field minion (text out) end)) s
          ≡ (ok (process_cli_result P out), s)
    unfolding process_provisioner_cmd_res
    process_res-known s minion out known = rw (local_minion_id-known s known) refl

    settled-one_job :
        (s : Session E.World) (minion out : String) (zero_code : Bool) (view : Json)
        → is_empty s.local_id ≡ false
        → settled E P false (checked E view (one_job minion out zero_code) s)
          ≡ (ok (answered (process_cli_result P out)), s)
    unfolding settled checked one_job
    settled-one_job s minion out true view known = rw (process_res-known s minion out known) refl
    settled-one_job s minion out false view known = rw (process_res-known s minion out known) refl

    provisioner_cmd-settled :
        (cmd : String) (args : List Arg) (kwargs : List (String × Arg)) (kw : Fields)
        (secure : Bool) (s : Session E.World)
        → is_empty s.local_id ≡ false
        → provisioner_cmd E P cmd args kwargs kw false secure s
          ≡ settled E P false (
              function_run E false
                (pattern s.local_id)
                (command_call cmd args kwargs kw false secure)
                s)
    unfolding provisioner_cmd
    provisioner_cmd-settled cmd args kwargs kw secure s known =
        rw (local_minion_id-known s known) refl

    -- Whatever a command does at the minion that runs it, return or raise, its caller gets, an empty
    -- text for `None`, where the salt client answers with a job of one minion whose return is the
    -- output of the command. The return code of the job makes no difference.
    pub provisioner_cmd-output :
        (cmd minion : String) (args : List Arg) (kwargs : List (String × Arg)) (kw : Fields)
        (secure : Bool) (s : Session E.World) (w : E.World) (job : Fields) (outcome : Outcome)
        → is_empty s.local_id ≡ false
        → let call = command_call cmd args kwargs kw false secure in
          E.local_client (prepared E false (with_targets (pattern s.local_id) call)) s.world
            ≡ (ok (object (field minion (object job) end)), w)
          → ret_of job ≡ text (output P outcome)
          → CanCross P outcome
          → P.json_loads (output P outcome) ≡ ok (encode (prepare_res (or_empty outcome)))
          → provisioner_cmd E P cmd args kwargs kw false secure s
            ≡ (ok (answered (answer (or_empty outcome))), record s { world = w })
    unfolding with_targets command_call truthy
    provisioner_cmd-output cmd minion args kwargs kw secure s w job outcome known client ret crosses
          json =
        let out = output P outcome in
        let call =
          with_targets (pattern s.local_id) (command_call cmd args kwargs kw false secure) in
        let after = record s { world = w } in
        let zero_code = is_zero (get "retcode" null job) in
        let read = client_result-one_job call.fun minion out job ret (output_is_text P outcome) in
        let ran =
          function_run-local (command_call cmd args kwargs kw false secure) s known
          ∙ client_cmd-read E call s (field minion (object job) end) w
              (one_job minion out zero_code) refl client refl read in
        provisioner_cmd-settled cmd args kwargs kw secure s known
        ∙ ap (settled E P false) ran
        ∙ settled-one_job after minion out zero_code (view_of false (prepared E false call)) known
        ∙ ap (λ a. (ok (answered a), after)) (process_cli_result-output P outcome crosses json)
