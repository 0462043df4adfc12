-- ===== src/Salt/Jobs.antt =====
-- `SaltJob`, and `SaltJobsRunner`: the jobs that salt keeps, and the result of one of them.
pub mod Laws
use cortx_prvsnr.Prelude.{String, ◌<>◌, ◌==◌, Bool, true, false, if◌then◌else◌, ◌&&◌, ◌||◌}
use cortx_prvsnr.Prelude.Text.{lower, underscored}
use cortx_prvsnr.Errors.{Exception, salt_error, stop_iteration, type_error}
use cortx_prvsnr.Errors.{prvsnr_cmd_not_found_error, prvsnr_cmd_not_finished_error}
use cortx_prvsnr.Exec.{Result, ok, err, pure, raise, lift, ◌>>=◌}
use cortx_prvsnr.Fallible
use cortx_prvsnr.Json.{Json, null, text, array, object, Items, nil, cons, Fields, end, field}
use cortx_prvsnr.Json.{get, contains_key, put, truthy, as_dict}
use cortx_prvsnr.Cli.{Answer, Python}
use cortx_prvsnr.Salt.Results.{client_result}
use cortx_prvsnr.Salt.Client.{Env, Command}
use cortx_prvsnr.Salt.Runner.{salt_runner_cmd}
use cortx_prvsnr.Salt.Functions.{call_of, no_keywords}
use cortx_prvsnr.Salt.Provisioner.{process_provisioner_cmd_res}

-- What is used of a `SaltJob`.
pub record SaltJob : Type 0 where
  pub function : Json
  pub minions : Json
  pub result : Json

-- The names that `from_salt_res` gives to the items of the data.
unfoldable pub job_fields : Fields → Fields → Fields
unfolding lower underscored put
job_fields done end = done
job_fields done (field key v fs) = job_fields (put (underscored (lower key)) v done) fs

job_field : String → Bool
job_field key =
    key == "error"
    || key == "function"
    || key == "arguments"
    || key == "target"
    || key == "target_type"
    || key == "user"
    || key == "minions"
    || key == "starttime"
    || key == "result"

all_job_fields : Fields → Bool
unfolding job_field
all_job_fields end = true
all_job_fields (field key v fs) = job_field key && all_job_fields fs

-- `SaltJob.from_salt_res`: the class takes no other fields, and `jid` only once.
unfoldable pub from_salt_res : Json → Result SaltJob
unfolding as_dict job_fields all_job_fields get
from_salt_res v = Fallible.◌>>=◌ (as_dict v) λ items.
    let args = job_fields end items in
    if all_job_fields args
    then ok (record {
      function = get "function" (text "") args;
      minions = get "minions" (array nil) args;
      result = get "result" (object end) args;
    })
    else err (type_error "__init__() got an unexpected keyword argument")

-- The jobs of a list, each of which is read.
unfoldable pub all_read : Fields → Result Fields
unfolding from_salt_res
all_read end = ok end
all_read (field jid v fs) =
    Fallible.◌>>=◌ (from_salt_res v)
      λ job. Fallible.◌>>=◌ (all_read fs) λ rest. ok (field jid v rest)

-- The name of the function; only a text can start with `state.`.
unfoldable pub function_name : Json → String
function_name (text t) = t
function_name v = ""

all_texts : Items → Bool
all_texts nil = true
all_texts (cons (text t) vs) = all_texts vs
all_texts (cons v vs) = false

-- The targets of `SaltClientArgs`, which are joined where they are a list.
unfoldable pub check_targets : Json → Result (Unit {0})
unfolding all_texts
check_targets (array vs) =
    if all_texts vs then ok tt else err (type_error "sequence item: expected str instance")
check_targets v = ok tt

module _ (E : Env) where
  as_items : Json → Command E Fields
  as_items (object fs) = pure fs
  as_items v = raise (salt_error "not a dict result")

  -- `SaltJobsRunner.runner_function_run`
  unfoldable pub jobs_run : String → Items → Fields → Command E Fields
  unfolding salt_runner_cmd as_items
  jobs_run fun args kwargs = salt_runner_cmd E (call_of fun args kwargs no_keywords) >>= as_items

  first_job : Fields → Command E SaltJob
  unfolding from_salt_res
  first_job end = raise (stop_iteration "")
  first_job (field jid v fs) = lift (from_salt_res v)

  unfoldable pub print_job : String → Command E SaltJob
  unfolding jobs_run first_job
  print_job jid = jobs_run "jobs.print_job" (cons (text jid) nil) end >>= first_job

  unfoldable pub list_jobs : Json → Command E Fields
  unfolding jobs_run all_read
  list_jobs search_function =
      jobs_run "jobs.list_jobs" nil (field "search_function" search_function end) >>= λ found.
      lift (all_read found)

  unfoldable pub provisioner_jobs : String → Command E Fields
  unfolding list_jobs
  provisioner_jobs fun = list_jobs (text ("provisioner." <> fun))

  -- What is done with a job that has ended.
  unfoldable pub job_answer : Python → SaltJob → Command E Answer
  unfolding check_targets client_result function_name process_provisioner_cmd_res
  job_answer P job = lift (check_targets job.minions) >>= λ checked.
      lift (client_result (function_name job.function) job.result) >>= λ read.
      process_provisioner_cmd_res E P read.results

  -- `prvsnr_job_result`
  unfoldable pub prvsnr_job_result : Python → String → Command E Answer
  unfolding provisioner_jobs print_job contains_key truthy job_answer
  prvsnr_job_result P jid = provisioner_jobs "*" >>= λ jobs.
      if contains_key jid jobs
      then (print_job jid >>= λ job.
          if truthy job.result then job_answer P job else raise (prvsnr_cmd_not_finished_error jid))
      else raise (prvsnr_cmd_not_found_error jid)
