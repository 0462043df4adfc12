-- ===== src/Salt/Results.antt =====
-- `SaltClientResult` and `SaltCallerClientResult`: results and failures by target.
pub mod Failed
pub mod Tells
pub mod Laws
use package.text.Mathlib.Text.{starts_with}
use cortx_prvsnr.Prelude.{
  zero, suc, String, Bool, true, false, Option, none, some, if◌then◌else◌, not, ◌&&◌,
}
use cortx_prvsnr.Errors.{key_error, type_error}
use cortx_prvsnr.Exec.{Result, ok, err}
use cortx_prvsnr.Fallible.{◌>>=◌}
use cortx_prvsnr.Json.{Json, null, boolean, number, text, array, object, Fields, end, field}
use cortx_prvsnr.Json.{get, contains_key, put, truthy, is_none, as_dict}

-- The attributes `results` and `fails`. The failures are by target always.
pub record Parsed : Type 0 where
  pub results : Json
  pub fails : Fields

-- The same while the targets are read.
pub record Read : Type 0 where
  pub done : Fields
  pub failed : Fields

-- `v == 0`, where `False == 0`.
unfoldable pub is_zero : Json → Bool
is_zero (number zero) = true
is_zero (number (suc n)) = false
is_zero (boolean b) = not b
is_zero v = false

-- `type(v) is dict`
unfoldable pub is_dict : Json → Bool
is_dict (object fs) = true
is_dict v = false

-- `d[key]`
unfoldable pub item : String → Json → Result Json
unfolding get contains_key
item key (object fs) = if contains_key key fs then ok (get key null fs) else err (key_error key)
item key v = err (type_error "not subscriptable by a text")

-- What is kept of a task of a state.
unfoldable pub summary : Fields → Json
unfolding get
summary task =
    object
      (field "comment" (get "comment" null task) (field "changes" (get "changes" null task) end))

-- `_get_state_fails`; a task without a result, or that is no dict, raises.
unfoldable pub get_state_fails : Fields → Result Fields
unfolding item truthy as_dict summary
get_state_fails end = ok end
get_state_fails (field task tresult tasks) = item "result" tresult >>= λ result.
    (if truthy result then ok end else as_dict tresult) >>= λ info.
    get_state_fails tasks >>= λ rest.
    ok (if truthy result then rest else field task (summary info) rest)

-- The failure that a job of the target counts for: `null` is none.
unfoldable pub failure_of : String → Fields → Json → Result Json
unfolding is_zero is_dict as_dict get get_state_fails
failure_of fun job ret =
    if is_zero (get "retcode" null job)
    then ok null
    else if starts_with fun "state." && is_dict ret
    then (as_dict ret >>= λ tasks. get_state_fails tasks >>= λ fails. ok (object fails))
    else ok ret

-- `if _fails: self.fails[target] = _fails`
unfoldable pub noted : String → Json → Fields → Fields
unfolding truthy put
noted target fails failed = if truthy fails then put target fails failed else failed

-- `ret`, or `return` for the result of a job.
unfoldable pub ret_of : Fields → Json
unfolding get
ret_of job = get "ret" (get "return" null job) job

-- One turn of the loop over the targets.
unfoldable pub read_job : String → String → Json → Read → Result Read
unfolding put is_none failure_of noted ret_of
read_job fun target (object job) r =
    let ret = ret_of job in
    if is_none ret
    then ok (record r { done = put target (object job) r.done })
    else failure_of fun job ret >>= λ fails.
        ok (record { done = put target ret r.done; failed = noted target fails r.failed })
read_job fun target (boolean false) r = ok (record {
  done = put target (boolean false) r.done;
  failed = put target (text "no connection to minion") r.failed;
})
read_job fun target v r = ok (record r { done = put target v r.done })

unfoldable pub read_jobs : String → Fields → Read → Result Read
unfolding read_job
read_jobs fun end r = ok r
read_jobs fun (field target job jobs) r =
    read_job fun target job r >>= λ next. read_jobs fun jobs next

abbrev pub nothing_read : Read
nothing_read = record { done = end; failed = end }

-- `SaltClientResult(raw, …)`; a result that is no dict is taken as it is.
unfoldable pub client_result : String → Json → Result Parsed
unfolding read_jobs
client_result fun (object jobs) = read_jobs fun jobs nothing_read >>= λ r.
    ok (record { results = object r.done; fails = r.failed })
client_result fun v = ok (record { results = v; fails = end })

-- `SaltCallerClientResult(raw, …)`, with the return code that the client keeps.
unfoldable pub caller_result : String → Json → Json → Result Parsed
unfolding client_result is_dict as_dict get_state_fails noted
caller_result fun raw retcode =
    if starts_with fun "state." && is_dict raw
    then (as_dict raw >>= λ tasks. get_state_fails tasks >>= λ fails. ok (record {
      results = object (field "local" raw end);
      fails = noted "local" (object fails) end;
    }))
    else client_result fun
        (object (field "local" (object (field "ret" raw (field "retcode" retcode end))) end))
