-- ===== src/Tests/Cli.antt =====
-- An exception object crosses from a command to its caller, alone and through salt.
use cortx_prvsnr.Prelude.{String, List, ◌≡◌, refl, true, false, [], ◌∷◌}
use cortx_prvsnr.Prelude.Dict.{insert}
use cortx_prvsnr.Prelude.Text.{is_empty}
use cortx_prvsnr.Exec.{ok}
use cortx_prvsnr.Json.{null, number, text, object, Fields, end, field}
use cortx_prvsnr.Serialize.{Value, nothing, words, instance_of, no_values, and_value}
use cortx_prvsnr.Serialize.{no_entries, encode, decode, lookup, is_true}
use cortx_prvsnr.Serialize.RoundTrip.{Sendable, object_sent, none_sent, one_sent, words_sent}
use cortx_prvsnr.Serialize.RoundTrip.{no_entry_sent, decode-encode}
use cortx_prvsnr.Serialize.Lenient.{decode-lenient}
use cortx_prvsnr.Cli.{raised, answer, Python, output, or_empty, prepare_res, process_cli_result}
use cortx_prvsnr.Cli.RoundTrip.{process_cli_result-output}
use cortx_prvsnr.Cli.Call.{Auth, api_call}
use cortx_prvsnr.Cli.Call.Laws.{api_call-password}
use cortx_prvsnr.Salt.Results.{ret_of}
use cortx_prvsnr.Salt.Client.{Env, Session}
use cortx_prvsnr.Salt.Jobs.{SaltJob, provisioner_jobs, print_job, prvsnr_job_result, check_targets}
use cortx_prvsnr.Salt.Jobs.Laws.{prvsnr_job_result-output}
use cortx_prvsnr.Json.{Json, boolean, array, nil, cons, contains_key}
use cortx_prvsnr.Salt.Provisioner.{answered, provisioner_cmd}
use cortx_prvsnr.Salt.Provisioner.Laws.{provisioner_cmd-output}

abbrev salt_error : Value
salt_error =
    instance_of "provisioner.errors" "SaltError" (and_value (words "no minion") no_values)
      no_entries

-- An interpreter that knows the one class, and a `json` that prints the one tree.
abbrev python : Python
python = record {
  json_loads = λ s. ok (encode (prepare_res (raised salt_error)));
  json_dumps = λ j. "{}";
  construct = λ m c args kwargs. ok salt_error;
  is_exception = λ v. true;
}

crosses : Sendable python.construct salt_error
unfolding is_true lookup
crosses = object_sent (one_sent words_sent none_sent) no_entry_sent refl refl

decode-encode_example : decode python.construct true (encode salt_error) ≡ ok salt_error
decode-encode_example = decode-encode python.construct true salt_error crosses

decode-lenient_example : decode python.construct false (encode salt_error) ≡ ok salt_error
decode-lenient_example =
    decode-lenient python.construct (encode salt_error) salt_error decode-encode_example

process_cli_result-output_example :
    process_cli_result python (output python (raised salt_error)) ≡ answer (raised salt_error)
unfolding or_empty
process_cli_result-output_example =
    process_cli_result-output python (raised salt_error) (crosses, refl) refl

abbrev auth : Auth
auth = record { eauth = words "pam"; username = words "admin"; password = nothing }

abbrev api : Value → Value → List String
api p given =
    (api_call (λ j. "") (λ v. "") (record auth { password = p }) "pillar_get" []
      (("password", given) ∷ [])).command

api_call-password_example : api (words "first") (words "third") ≡ api (words "second") nothing
unfolding is_true insert
api_call-password_example =
    api_call-password (λ j. "") (λ v. "") auth (words "first") (words "second") (words "third")
      nothing "pillar_get" [] [] refl

abbrev job : Fields
job = field "ret" (text (output python (raised salt_error))) (field "retcode" (number 1) end)

abbrev env : Env
env = record {
  World = Unit;
  local_client = λ call w. (ok (object (field "srvnode-1" (object job) end)), w);
  caller = λ call w. (ok null, w);
  retcode = λ w. number 0;
  runner_cmd = λ call w. (ok null, w);
  runner_cmd_sync = λ call w. (ok null, w);
  grains_id = λ w. (ok "srvnode-1", w);
  auth = record { eauth = text "pam"; username = null; password = null };
}

abbrev session : Session Unit
session = record { world = tt; local_id = "srvnode-1" }

provisioner_cmd-output_example :
    provisioner_cmd env python "sw_update" [] [] end false false session
    ≡ (ok (answered (answer (raised salt_error))), session)
unfolding is_empty ret_of or_empty
provisioner_cmd-output_example =
    provisioner_cmd-output env python "sw_update" "srvnode-1" [] [] end false session tt job
      (raised salt_error) refl refl refl (crosses, refl) refl

abbrev kept : Fields
kept = field "return" (text (output python (raised salt_error))) (field "retcode" (number 1) end)

abbrev kept_jobs : Fields
kept_jobs =
    field "42"
      (object (
        field "Function" (text "provisioner.sw_update") (
          field "Minions" (array (cons (text "srvnode-1") nil))
            (field "Result" (object (field "srvnode-1" (object kept) end)) end))))
      end

abbrev runner_answer : Json
runner_answer = object (
    field "jid" (text "1") (
      field "fun" (text "jobs.list_jobs")
        (field "success" (boolean true) (field "return" (object kept_jobs) end))))

abbrev with_jobs : Env
with_jobs = record env { runner_cmd = λ call w. (ok runner_answer, w) }

abbrev sw_update_job : SaltJob
sw_update_job = record {
  function = text "provisioner.sw_update";
  minions = array (cons (text "srvnode-1") nil);
  result = object (field "srvnode-1" (object kept) end);
}

jobs_listed : provisioner_jobs with_jobs "*" session ≡ (ok kept_jobs, session)
unfolding provisioner_jobs
jobs_listed = refl

job_printed : print_job with_jobs "42" session ≡ (ok sw_update_job, session)
unfolding print_job
job_printed = refl

prvsnr_job_result-output_example :
    prvsnr_job_result with_jobs python "42" session ≡ (ok (answer (raised salt_error)), session)
unfolding contains_key is_empty check_targets ret_of or_empty
prvsnr_job_result-output_example =
    prvsnr_job_result-output with_jobs python "42" "srvnode-1" session session session kept_jobs
      kept sw_update_job (raised salt_error) jobs_listed refl job_printed refl refl refl refl
      (crosses, refl) refl
