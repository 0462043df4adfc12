-- ===== src/Salt/Runner.antt =====
-- Calls of the runner: `_salt_runner_cmd` and the reading of its results.
pub mod Laws
use cortx_prvsnr.Prelude.{String, ◌==◌, Bool, true, false, List, [], ◌∷◌, if◌then◌else◌, ◌&&◌, ◌||◌}
use cortx_prvsnr.Prelude.Text.{lower, underscored, stripped}
use cortx_prvsnr.Errors.{Exception, salt_cmd_run_error, salt_no_return_error, type_error, reason}
use cortx_prvsnr.Errors.{salt_cmd_result_error, not_implemented_error}
use cortx_prvsnr.Exec.{Result, ok, err, pure, raise, lift, ◌>>=◌}
use cortx_prvsnr.Fallible
use cortx_prvsnr.Json.{Json, null, boolean, object, Fields, end, field}
use cortx_prvsnr.Json.{get, contains_key, put, truthy, as_dict}
use cortx_prvsnr.Update.{wrapped}
use cortx_prvsnr.Salt.Args.{Call, set_auth, runner_view}
use cortx_prvsnr.Salt.Results.{is_dict}
use cortx_prvsnr.Salt.Client.{Env, Session, Command, on_world}

-- What is used of a `SaltRunnerResult`.
pub record RunnerResult : Type 0 where
  pub success : Json
  pub result : Json

-- The names that `from_salt_res` gives to the items of the data.
unfoldable pub runner_fields : Fields → Fields → Fields
unfolding lower underscored stripped put
runner_fields done end = done
runner_fields done (field key v fs) =
    let next = if key == "return" then done else put (stripped (underscored (lower key))) v done in
    runner_fields next fs

known_field : String → Bool
known_field key =
    key == "jid"
    || key == "fun"
    || key == "success"
    || key == "result"
    || key == "stamp"
    || key == "user"
    || key == "fun_args"

all_known : Fields → Bool
unfolding known_field
all_known end = true
all_known (field key v fs) = known_field key && all_known fs

-- `from_salt_res`: the class wants four fields, and takes no other than its own.
unfoldable pub from_salt_res : Json → Result RunnerResult
unfolding as_dict runner_fields contains_key get put all_known
from_salt_res v = Fallible.◌>>=◌ (as_dict v) λ items.
    let names = runner_fields end items in
    let args =
      if contains_key "return" items then put "result" (get "return" null items) names else names in
    if contains_key "jid" args
      && contains_key "fun" args
      && contains_key "success" args
      && contains_key "result" args
      && all_known args
    then ok (record { success = get "success" null args; result = get "result" null args })
    else err (type_error "__init__() got unexpected or missing arguments")

-- `except TypeError`
unfoldable pub not_parsed : Json → Exception → Exception
not_parsed view (type_error message) =
    salt_cmd_run_error view (reason "Failed to parse salt runner result")
not_parsed view e = e

-- The arguments as the client gets them.
unfoldable pub runner_call : Env → Call → Call
unfolding set_auth contains_key put
runner_call E call =
    let kw = set_auth E.auth call.kw in
    if contains_key "username" kw then record call { kw = kw } else record call {
      kw = put "full_return" (boolean true) (put "print_event" (boolean false) kw);
    }

-- The data of a result: of one with external credentials what is under `data`.
unfoldable pub runner_data : Json → Bool → Json → Result Json
unfolding get contains_key
runner_data view eauth (object fs) =
    if eauth
    then (if contains_key "data" fs
        then ok (get "data" null fs)
        else err (salt_cmd_run_error view (reason "no data key in RunnerClient result dictionary")))
    else ok (object fs)
runner_data view eauth v =
    err (salt_cmd_run_error view (reason "RunnerClient result type is not a dictionary"))

module _ (E : Env) where
  open E use {World}

  -- What is done with the result of the client.
  unfoldable pub runner_answer : Json → Bool → Json → Command E Json
  unfolding truthy runner_data wrapped from_salt_res not_parsed
  runner_answer view eauth res =
      if truthy res
      then (lift (runner_data view eauth res) >>= λ found.
          wrapped (not_parsed view) (lift (from_salt_res found)) >>= λ r.
          if truthy r.success then pure r.result else raise (salt_cmd_result_error view r.result))
      else raise (salt_no_return_error view "Empty salt result")

  -- The call of the client; the external credentials want another one.
  unfoldable pub runner_sent : Call → Command E Json
  unfolding contains_key on_world
  runner_sent args =
      on_world E
        (if contains_key "username" args.kw then E.runner_cmd_sync args else E.runner_cmd args)

  -- `_salt_runner_cmd`, and `runner_function_run`, which logs around it.
  unfoldable pub salt_runner_cmd : Call → Command E Json
  unfolding runner_call runner_view contains_key wrapped runner_sent runner_answer
  salt_runner_cmd call =
      if call.nowait
      then raise (not_implemented_error "async calls for RunnerClient are not supported yet")
      else (let args = runner_call E call in
          let view = runner_view args in
          wrapped (salt_cmd_run_error view) (runner_sent args) >>= λ res.
          runner_answer view (contains_key "username" args.kw) res)
