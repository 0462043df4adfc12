-- ===== src/Tests/Salt.antt =====
-- A salt client with one minion that answers and one that does not, a runner, and salt-ssh.
use cortx_prvsnr.Prelude.{◌≡◌, refl, true, false, [], ◌∷◌}
use cortx_prvsnr.Errors.{salt_cmd_result_error}
use cortx_prvsnr.Exec.{ok, err}
use cortx_prvsnr.Json.{Json, null, boolean, number, text, object, nil, cons}
use cortx_prvsnr.Json.{Fields, end, field, contains_key, truthy}
use cortx_prvsnr.Salt.Args.{Call, view_of, secret_mask, pattern}
use cortx_prvsnr.Salt.Results.{Parsed, client_result}
use cortx_prvsnr.Salt.Results.Failed.{HasField, here, later, Failed, lost}
use cortx_prvsnr.Salt.Results.Laws.{client_result-Failed}
use cortx_prvsnr.Salt.Client.{Env, Session, prepared, salt_client_cmd}
use cortx_prvsnr.Salt.Client.Laws.{salt_client_cmd-masked, salt_client_cmd-failed, shown_password}
use cortx_prvsnr.Salt.Client.Plain.{cmd_args}
use cortx_prvsnr.Salt.Ssh.Client.{Ops, SshClient}
use cortx_prvsnr.Salt.Ssh.Access.{ensure_ready}
use cortx_prvsnr.Salt.Ssh.Ready.{Ready, ensure_ready-Ready}
use cortx_prvsnr.Salt.Runner.{salt_runner_cmd}
use cortx_prvsnr.Salt.Runner.Laws.{Succeeded, salt_runner_cmd-Succeeded}
use cortx_prvsnr.Salt.Functions.{states_apply, no_keywords}
use cortx_prvsnr.Salt.Functions.Laws.{Applied, states_apply-Applied}

abbrev job : Json
job = object (field "ret" (text "done") (field "retcode" (number 0) end))

abbrev good : Fields
good = field "srvnode-1" job end

abbrev jobs : Fields
jobs = field "srvnode-1" job (field "srvnode-2" (boolean false) end)

abbrev runner_answer : Json
runner_answer = object (
    field "jid" (text "1") (
      field "fun" (text "jobs.list_jobs")
        (field "success" (boolean true) (field "return" (object end) end))))

abbrev env : Fields → Env
env answer = record {
  World = Unit;
  local_client = λ call w. (ok (object answer), w);
  caller = λ call w. (ok null, w);
  retcode = λ w. number 0;
  runner_cmd = λ call w. (ok runner_answer, w);
  runner_cmd_sync = λ call w. (ok null, w);
  grains_id = λ w. (ok "srvnode-1", w);
  auth = record { eauth = text "pam"; username = null; password = null };
}

abbrev call : Call
call = record {
  targets = "*";
  fun = "cmd.run";
  fun_args = cons (text "true") nil;
  fun_kwargs = field "password" (text "secret") end;
  kw = end;
  nowait = false;
  secure = false;
}

abbrev session : Session Unit
session = record { world = tt; local_id = "srvnode-1" }

abbrev read : Parsed
read = record {
  results = object (field "srvnode-1" (text "done") (field "srvnode-2" (boolean false) end));
  fails = field "srvnode-2" (text "no connection to minion") end;
}

jobs_read : client_result "cmd.run" (object jobs) ≡ ok read
unfolding client_result
jobs_read = refl

client_result-Failed_example : (v : Json) × HasField "srvnode-2" v jobs × Failed "cmd.run" v
unfolding contains_key
client_result-Failed_example =
    (client_result-Failed "cmd.run" "srvnode-2" jobs read jobs_read).0 refl

salt_client_cmd-failed_example : salt_client_cmd (env jobs) false call session ≡ (
  err (salt_cmd_result_error (view_of false (prepared (env jobs) false call)) (object read.fails)),
  session,
)
unfolding truthy
salt_client_cmd-failed_example =
    (salt_client_cmd-failed (env jobs) call session jobs tt read refl refl refl jobs_read).0.0
      ("srvnode-2", boolean false, later here, lost)

abbrev view : Json
view = view_of false (prepared (env jobs) false call)

salt_client_cmd-masked_example : shown_password "fun_kwargs" view ≡ secret_mask
unfolding cmd_args
salt_client_cmd-masked_example =
    (salt_client_cmd-masked (env jobs) false call session session
      (salt_cmd_result_error view (object read.fails)) view salt_client_cmd-failed_example refl).2

abbrev ops : Ops Unit
ops = record {
  ssh_cmd = λ c w. (ok (object (field c.targets (text "Linux") end)), w);
  load_yaml = λ v w. (ok (object end), w);
  copy_id = λ args w. (ok tt, w);
  str = λ v. "";
}

abbrev ssh : SshClient
ssh = record { roster_file = text "/etc/salt/roster"; ssh_options = null }

made_ready :
    ensure_ready (env good) ops ssh ("srvnode-1" ∷ "srvnode-2" ∷ []) null session ≡ (ok tt, session)
unfolding ensure_ready
made_ready = refl

ensure_ready-Ready_example :
    Ready (env good) ops ssh null ("srvnode-1" ∷ "srvnode-2" ∷ []) session session
ensure_ready-Ready_example =
    ensure_ready-Ready (env good) ops ssh ("srvnode-1" ∷ "srvnode-2" ∷ []) null session session
      made_ready

runner_ran : salt_runner_cmd (env good) call session ≡ (ok (object end), session)
unfolding salt_runner_cmd
runner_ran = refl

salt_runner_cmd-Succeeded_example : Succeeded (env good) call session session (object end)
salt_runner_cmd-Succeeded_example =
    salt_runner_cmd-Succeeded (env good) call session session (object end) runner_ran

abbrev result : Json
result = object (field "srvnode-1" (text "done") end)

states_ran :
    states_apply (env good) ("a" ∷ "b" ∷ []) (pattern "*") no_keywords session
    ≡ (ok (field "a" result (field "b" result end)), session)
unfolding states_apply
states_ran = refl

states_apply-Applied_example :
    Applied
      (env good)
      (pattern "*")
      no_keywords
      ("a" ∷ "b" ∷ [])
      end
      session
      (field "a" result (field "b" result end))
      session
states_apply-Applied_example =
    (states_apply-Applied (env good) ("a" ∷ "b" ∷ []) (pattern "*") no_keywords
      (field "a" result (field "b" result end)) session session states_ran).0
