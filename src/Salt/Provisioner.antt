-- ===== src/Salt/Provisioner.antt =====
-- Commands of the provisioner that are run by salt: `provisioner_cmd`, and the results of its jobs.
pub mod Laws
use cortx_prvsnr.Prelude.{String, ◌<>◌, ◌==◌, Bool, true, false, List, [], ◌∷◌, if◌then◌else◌}
use cortx_prvsnr.Prelude.{Option, none, some}
use cortx_prvsnr.Errors.{Exception, provisioner_error, salt_cmd_result_error}
use cortx_prvsnr.Exec.{Result, ok, err, pure, raise, handle, ◌>>=◌, ◌>>◌}
use cortx_prvsnr.Json.{Json, text, object, Items, nil, cons, Fields, end, field, truthy}
use cortx_prvsnr.Serialize.{nothing, dict, no_entries}
use cortx_prvsnr.Cli.{Answer, Python, answer_of, process_cli_result}
use cortx_prvsnr.Salt.Args.{Call, pattern}
use cortx_prvsnr.Salt.Client.{Env, Session, Command, local_minion_id, function_run}

-- What `provisioner_cmd` returns: without a wait what salt started, else what the command did.
pub data Reply : Type 0 where
  started : Json → Reply
  answered : Answer → Reply

-- An argument is a special value of values.py, known by its name, or any other.
pub data Arg : Type 0 where
  plain : Json → Arg
  special : String → Arg

-- `_value`
unfoldable pub value : Arg → Json
value (plain v) = v
value (special name) = text ("PRVSNR_" <> name)

all_values : List Arg → Items
unfolding value
all_values [] = nil
all_values (v ∷ vs) = cons (value v) (all_values vs)

all_fields : List (String × Arg) → Fields
unfolding value
all_fields [] = end
all_fields ((k, v) ∷ kvs) = field k (value v) (all_fields kvs)

-- The call that a command becomes.
unfoldable pub command_call : String → List Arg → List (String × Arg) → Fields → Bool → Bool → Call
unfolding all_values all_fields
command_call cmd args kwargs kw nowait secure = record {
  targets = "";
  fun = "provisioner." <> cmd;
  fun_args = all_values args;
  fun_kwargs = all_fields kwargs;
  kw = kw;
  nowait = nowait;
  secure = secure;
}

module _ (E : Env) (P : Python) where
  -- `process_cli_result` of what a minion has returned, which may be no text.
  unfoldable pub cli_answer : Json → Answer
  unfolding process_cli_result answer_of truthy
  cli_answer (text stdout) = process_cli_result P stdout
  cli_answer v = if truthy v then answer_of P nothing else answer_of P (dict no_entries)

  -- `process_provisioner_cmd_res`: the own minion is asked for, to warn when it is another's result.
  unfoldable pub process_provisioner_cmd_res : Json → Command E Answer
  unfolding local_minion_id cli_answer
  process_provisioner_cmd_res (object (field minion res end)) =
      local_minion_id E >> pure (cli_answer res)
  process_provisioner_cmd_res v = raise (provisioner_error "Expected a dictionary of len = 1")

  -- `exc.reason` of a `SaltCmdResultError`
  unfoldable pub failed_results : Exception → Option Json
  failed_results (salt_cmd_result_error view reasons) = some reasons
  failed_results e = none

  after_failure : Bool → Exception → Option Json → Command E Reply
  unfolding process_provisioner_cmd_res
  after_failure nowait e none = raise e
  after_failure true e (some reasons) = raise (provisioner_error "SaltCmdResultError is unexpected")
  after_failure false e (some reasons) =
      process_provisioner_cmd_res reasons >>= λ found. pure (answered found)

  after_success : Bool → Json → Command E Reply
  unfolding process_provisioner_cmd_res
  after_success true res = pure (started res)
  after_success false res = process_provisioner_cmd_res res >>= λ found. pure (answered found)

  -- `try: … except SaltCmdResultError: … else: …`
  unfoldable pub settled : Bool → Result Json × Session E.World → Result Reply × Session E.World
  unfolding after_success after_failure failed_results
  settled nowait (ok res, s) = after_success nowait res s
  settled nowait (err e, s) = after_failure nowait e (failed_results e) s

  -- `provisioner_cmd`
  unfoldable pub provisioner_cmd :
      String → List Arg → List (String × Arg) → Fields → Bool → Bool → Command E Reply
  unfolding local_minion_id function_run settled command_call
  provisioner_cmd cmd args kwargs kw nowait secure = local_minion_id E >>= λ minion s.
      let call = command_call cmd args kwargs kw nowait secure in
      settled nowait (function_run E false (pattern minion) call s)
