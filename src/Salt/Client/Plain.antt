-- ===== src/Salt/Client/Plain.antt =====
-- The errors that the reading of a result raises, apart from those of a salt call.
use package.text.Mathlib.Text.{starts_with}
use cortx_prvsnr.Prelude.{String, ◌≡◌, refl, Bool, true, false, Option, none, some}
use cortx_prvsnr.Prelude.{if◌then◌else◌, ◌&&◌}
use cortx_prvsnr.Errors.{
  Exception, key_error, salt_cmd_run_error, salt_no_return_error, salt_cmd_result_error,
}
use cortx_prvsnr.Exec.{Result, ok, err}
use cortx_prvsnr.Fallible.{◌>>=◌}
use cortx_prvsnr.Json.{Json, null, boolean, number, text, array, object, Fields, end, field}
use cortx_prvsnr.Json.{get, contains_key, truthy, is_none, as_dict}
use cortx_prvsnr.Salt.Results.{Read, client_result, caller_result, item, get_state_fails}
use cortx_prvsnr.Salt.Results.{failure_of, read_job, read_jobs, is_zero, is_dict, ret_of}

-- `exc.cmd_args`
unfoldable pub cmd_args : Exception → Option Json
cmd_args (salt_cmd_result_error view exc) = some view
cmd_args (salt_cmd_run_error view exc) = some view
cmd_args (salt_no_return_error view exc) = some view
cmd_args e = none

abbrev pub IsPlain {ℓ} : {A : Type ℓ} → Result A → Type 0
IsPlain (ok a) = Unit
IsPlain (err e) = cmd_args e ≡ none

module _ {ℓ κ} {A : Type ℓ} {B : Type κ} where
  then-IsPlain :
      (r : Result A) (f : A → Result B) → IsPlain r → ((a : A) → IsPlain (f a)) → IsPlain (r >>= f)
  then-IsPlain (ok a) f p q = q a
  then-IsPlain (err e) f p q = p

if-IsPlain {ℓ} :
    {A : Type ℓ} (b : Bool) (x y : Result A) → IsPlain x → IsPlain y → IsPlain (if b then x else y)
if-IsPlain true x y p q = p
if-IsPlain false x y p q = q

item-IsPlain : (key : String) (v : Json) → IsPlain (item key v)
unfolding item cmd_args
item-IsPlain key (object fs) =
    if-IsPlain (contains_key key fs) (ok (get key null fs)) (err (key_error key)) tt refl
item-IsPlain key null = refl
item-IsPlain key (boolean b) = refl
item-IsPlain key (number n) = refl
item-IsPlain key (text t) = refl
item-IsPlain key (array vs) = refl

as_dict-IsPlain : (v : Json) → IsPlain (as_dict v)
unfolding as_dict cmd_args
as_dict-IsPlain (object fs) = tt
as_dict-IsPlain null = refl
as_dict-IsPlain (boolean b) = refl
as_dict-IsPlain (number n) = refl
as_dict-IsPlain (text t) = refl
as_dict-IsPlain (array vs) = refl

state_fails-IsPlain : (tasks : Fields) → IsPlain (get_state_fails tasks)
unfolding get_state_fails
state_fails-IsPlain end = tt
state_fails-IsPlain (field task info tasks) =
    then-IsPlain (item "result" info) _ (item-IsPlain "result" info) λ result.
      then-IsPlain (if truthy result then ok end else as_dict info) _
        (if-IsPlain (truthy result) (ok end) (as_dict info) tt (as_dict-IsPlain info))
        λ found. then-IsPlain (get_state_fails tasks) _ (state_fails-IsPlain tasks) λ rest. tt

tasks-IsPlain :
    {A : Type 0} (v : Json) (f : Fields → A)
    → IsPlain (as_dict v >>= λ tasks. get_state_fails tasks >>= λ fails. ok (f fails))
tasks-IsPlain v f =
    then-IsPlain (as_dict v) _ (as_dict-IsPlain v)
      λ tasks. then-IsPlain (get_state_fails tasks) _ (state_fails-IsPlain tasks) λ fails. tt

failure-IsPlain : (fun : String) (job : Fields) (ret : Json) → IsPlain (failure_of fun job ret)
unfolding failure_of
failure-IsPlain fun job ret = if-IsPlain (is_zero (get "retcode" null job)) (ok null) _ tt (
    if-IsPlain (starts_with fun "state." && is_dict ret) _ (ok ret)
      (tasks-IsPlain ret (λ fails. object fails)) tt)

read_job-IsPlain : (fun target : String) (v : Json) (r : Read) → IsPlain (read_job fun target v r)
unfolding read_job
read_job-IsPlain fun target (object job) r = if-IsPlain (is_none (ret_of job)) (ok _) _ tt (
    then-IsPlain (failure_of fun job (ret_of job)) _ (failure-IsPlain fun job (ret_of job))
      λ fails. tt)
read_job-IsPlain fun target (boolean false) r = tt
read_job-IsPlain fun target (boolean true) r = tt
read_job-IsPlain fun target null r = tt
read_job-IsPlain fun target (number n) r = tt
read_job-IsPlain fun target (text t) r = tt
read_job-IsPlain fun target (array vs) r = tt

read_jobs-IsPlain : (fun : String) (jobs : Fields) (r : Read) → IsPlain (read_jobs fun jobs r)
unfolding read_jobs
read_jobs-IsPlain fun end r = tt
read_jobs-IsPlain fun (field target job jobs) r =
    then-IsPlain (read_job fun target job r) _ (read_job-IsPlain fun target job r)
      λ next. read_jobs-IsPlain fun jobs next

pub client_result-IsPlain : (fun : String) (v : Json) → IsPlain (client_result fun v)
unfolding client_result
client_result-IsPlain fun (object jobs) =
    then-IsPlain (read_jobs fun jobs _) _ (read_jobs-IsPlain fun jobs _) λ r. tt
client_result-IsPlain fun null = tt
client_result-IsPlain fun (boolean b) = tt
client_result-IsPlain fun (number n) = tt
client_result-IsPlain fun (text t) = tt
client_result-IsPlain fun (array vs) = tt

pub caller_result-IsPlain :
    (fun : String) (v retcode : Json) → IsPlain (caller_result fun v retcode)
unfolding caller_result
caller_result-IsPlain fun v retcode =
    if-IsPlain (starts_with fun "state." && is_dict v) _ _ (tasks-IsPlain v _) (
      client_result-IsPlain fun
        (object (field "local" (object (field "ret" v (field "retcode" retcode end))) end)))
