-- ===== src/Salt/Ssh.antt =====
-- The results of salt-ssh: `SaltSSHResultParser`, the classes it chooses from, and
-- `SaltSSHClientResult`.
pub mod Client
pub mod Access
pub mod Laws
pub mod Ready
use package.text.Mathlib.Text.{starts_with}
use cortx_prvsnr.Prelude.{String, ◌<>◌, ◌==◌, Bool, true, false, List, [], ◌∷◌, if◌then◌else◌}
use cortx_prvsnr.Prelude.{◌&&◌, ◌||◌}
use cortx_prvsnr.Prelude.Text.{lower, underscored, stripped}
use cortx_prvsnr.Exec.{Result, ok, err}
use cortx_prvsnr.Fallible.{◌>>=◌}
use cortx_prvsnr.Json.{Json, null, text, object, Fields, end, field}
use cortx_prvsnr.Json.{get, contains_key, put, truthy, is_none, as_dict}
use cortx_prvsnr.Salt.Results.{Parsed, Read, nothing_read, item, summary}

-- The properties `result` and `fail`, where `null` is no failure.
pub record SshResult : Type 0 where
  pub result : Json
  pub fail : Json

-- The classes of results.
pub data SshClass : Type 0 where
  simple_result job_result state_job_result : SshClass

-- `_sanitize_key`
unfoldable pub sanitize_key : String → String
unfolding lower underscored stripped
sanitize_key key = if key == "return" then "jresult" else stripped (underscored (lower key))

-- The dict over all items, on top of what is there.
unfoldable pub sanitized : Fields → Fields → Fields
unfolding sanitize_key put
sanitized done end = done
sanitized done (field key v fs) = sanitized (put (sanitize_key key) v done) fs

-- The fields of a class that have no default, less those of `SaltSSHResultBase`.
unfoldable pub required : SshClass → List String
required simple_result = "retcode" ∷ "stderr" ∷ "stdout" ∷ []
required job_result = "retcode" ∷ "jid" ∷ "fun" ∷ "fun_args" ∷ "jresult" ∷ []
required state_job_result = "retcode" ∷ "jid" ∷ "fun" ∷ "fun_args" ∷ "jresult" ∷ []

contains_all : List String → Fields → Bool
unfolding contains_key
contains_all [] data_fields = true
contains_all (key ∷ keys) data_fields =
    contains_key key data_fields && contains_all keys data_fields

-- `_verify`
unfoldable pub verify : SshClass → Fields → Bool
unfolding required contains_all
verify res_t data_fields = contains_all (required res_t) data_fields

-- `_get_state_results`: the tasks that succeeded and those that failed.
unfoldable pub get_state_results : Fields → Fields → Fields → Result (Fields × Fields)
unfolding item truthy as_dict summary put
get_state_results results fails end = ok (results, fails)
get_state_results results fails (field task tresult tasks) = item "result" tresult >>= λ result.
    as_dict tresult >>= λ info.
    (if truthy result
      then get_state_results (put task (summary info) results) fails tasks
      else get_state_results results (put task (summary info) fails) tasks)

-- The return code in a result that is a dict.
own_retcode : Json → Json
unfolding get
own_retcode (object fs) = get "retcode" null fs
own_retcode v = null

-- The class of a job for the function of the call.
unfoldable pub job_class : String → SshClass
job_class fun = if starts_with fun "state." then state_job_result else job_result

-- `str` is Python's, for the text of a failure.
module _ (str : Json → String) where
  -- `__attrs_post_init__` of the class, for the sanitized data.
  unfoldable pub ssh_result : SshClass → Fields → Result SshResult
  unfolding get truthy own_retcode as_dict get_state_results
  ssh_result simple_result data_fields =
      let out = get "stdout" null data_fields in
      ok (record {
        result = out;
        fail =
            if truthy (get "retcode" null data_fields)
            then text ("STDERR: " <> str (get "stderr" null data_fields) <> ", STDOUT: " <> str out)
            else null;
      })
  ssh_result job_result data_fields =
      let jresult = get "jresult" null data_fields in
      ok (record {
        result = jresult;
        fail =
            if truthy (get "retcode" null data_fields) || truthy (own_retcode jresult)
            then jresult
            else null;
      })
  ssh_result state_job_result data_fields = as_dict (get "jresult" null data_fields) >>= λ tasks.
      get_state_results end end tasks >>= λ (results, fails). ok (record {
        result = object results;
        fail = if truthy (object fails) then object fails else null;
      })

  -- `SaltSSHResultParser.from_salt_res`
  unfoldable pub from_salt_res : String → Json → Result SshResult
  unfolding sanitized verify ssh_result job_class
  from_salt_res fun (object fs) =
      let data_fields = sanitized end fs in
      if verify simple_result data_fields
      then ssh_result simple_result data_fields
      else if verify (job_class fun) data_fields
      then ssh_result (job_class fun) data_fields
      else ok (record { result = object fs; fail = null })
  from_salt_res fun v = ok (record { result = v; fail = null })

  -- `_parse_raw_dict` of `SaltSSHClientResult`
  unfoldable pub read_ssh_jobs : String → Fields → Read → Result Read
  unfolding from_salt_res put is_none
  read_ssh_jobs fun end r = ok r
  read_ssh_jobs fun (field target job jobs) r = from_salt_res fun job >>= λ res.
      read_ssh_jobs fun jobs (record {
        done = put target res.result r.done;
        failed = if is_none res.fail then r.failed else put target res.fail r.failed;
      })

  unfoldable pub ssh_client_result : String → Json → Result Parsed
  unfolding read_ssh_jobs
  ssh_client_result fun (object jobs) = read_ssh_jobs fun jobs nothing_read >>= λ r.
      ok (record { results = object r.done; fails = r.failed })
  ssh_client_result fun v = ok (record { results = v; fails = end })
