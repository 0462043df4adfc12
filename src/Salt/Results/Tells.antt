-- ===== src/Salt/Results/Tells.antt =====
-- When the return of a job counts as a failure.
use package.text.Mathlib.Text.{starts_with}
use cortx_prvsnr.Prelude.{String, ◌≡◌, ◌↔◌, inl, inr, true, false, ◌&&◌}
use cortx_prvsnr.Prelude.{Bool-cases, arith, if◌then◌else◌}
use cortx_prvsnr.Exec.{ok}
use cortx_prvsnr.Fallible.{◌>>=◌, >>=-ok}
use cortx_prvsnr.Json.{Json, null, boolean, number, text, array, object, Fields, end, field}
use cortx_prvsnr.Json.{get, truthy, as_dict}
use cortx_prvsnr.Salt.Results.Failed.{HasFailedTask, this_task, later_task}
use cortx_prvsnr.Salt.Results.Failed.{Tells, failed_state, answer, Failed, failed_job}
use cortx_prvsnr.Salt.Results.{is_zero, is_dict, item, get_state_fails}
use cortx_prvsnr.Salt.Results.{failure_of, ret_of}

tail_task :
    {task : String} {info result : Json} {tasks : Fields}
    → item "result" info ≡ ok result
    → truthy result ≡ true
    → HasFailedTask (field task info tasks)
    → HasFailedTask tasks
tail_task is_result good (this_task other bad) = ground (arith, is_result, other, good, bad)
tail_task is_result good (later_task t) = t

-- The failed tasks are not empty exactly where some task has failed.
state_fails-truthy :
    (tasks fails : Fields)
    → get_state_fails tasks ≡ ok fails
    → (truthy (object fails) ≡ true) ↔ HasFailedTask tasks
unfolding get_state_fails truthy
state_fails-truthy end fails h =
    let is_end : end ≡ fails = ground arith in (λ p. ground (arith, p, is_end), λ t. elim t [ ])
state_fails-truthy (field task info tasks) fails h =
    let (result, is_result, h₁) = >>=-ok (item "result" info) _ fails h in
    let (found, is_found, h₂) =
      >>=-ok (if truthy result then ok end else as_dict info) _ fails h₁ in
    let (rest, is_rest, h₃) = >>=-ok (get_state_fails tasks) _ fails h₂ in
    let ih = state_fails-truthy tasks rest is_rest in
    elim (Bool-cases (truthy result)) [
      | inl good ↦
          let same : rest ≡ fails = ground (arith, good) in
          (λ p. later_task (ih.0 (rw same p)), λ t. rw (← same) (ih.1 (tail_task is_result good t)))
      | inr bad ↦ (λ p. this_task is_result bad, λ t. ground (arith, bad))
    ]

told_task :
    {fun : String} {tasks : Fields}
    → starts_with fun "state." && is_dict (object tasks) ≡ true
    → Tells fun (object tasks)
    → HasFailedTask tasks
told_task state (failed_state is_state t) = t
told_task state (answer other said) = ground (arith, state, other)

told_answer :
    {fun : String} {ret : Json}
    → starts_with fun "state." && is_dict ret ≡ false
    → Tells fun ret
    → truthy ret ≡ true
unfolding is_dict
told_answer other (failed_state is_state t) = ground (arith, other, is_state)
told_answer other (answer same said) = said

state_told :
    (fun : String) (ret fails : Json)
    → starts_with fun "state." && is_dict ret ≡ true
    → (as_dict ret >>= λ tasks. get_state_fails tasks >>= λ fails. ok (object fails)) ≡ ok fails
    → (truthy fails ≡ true) ↔ Tells fun ret
unfolding as_dict is_dict
state_told fun (object tasks) fails state h =
    let is_state : starts_with fun "state." ≡ true = ground (arith, state) in
    let (found, is_found, h₁) = >>=-ok (get_state_fails tasks) _ fails h in
    let same : object found ≡ fails = ground arith in
    let q = state_fails-truthy tasks found is_found in
    rw (← same) (λ p. failed_state is_state (q.0 p), λ t. q.1 (told_task state t))
state_told fun null fails state h = ground (arith, state)
state_told fun (boolean b) fails state h = ground (arith, state)
state_told fun (number n) fails state h = ground (arith, state)
state_told fun (text t) fails state h = ground (arith, state)
state_told fun (array vs) fails state h = ground (arith, state)

told :
    (fun : String) (ret fails : Json)
    → (if starts_with fun "state." && is_dict ret
        then (as_dict ret >>= λ tasks. get_state_fails tasks >>= λ fails. ok (object fails))
        else ok ret)
      ≡ ok fails
    → (truthy fails ≡ true) ↔ Tells fun ret
unfolding as_dict
told fun ret fails h = elim (Bool-cases (starts_with fun "state." && is_dict ret)) [
  | inl state ↦ state_told fun ret fails state (rw state at h)
  | inr other ↦
      let same : ret ≡ fails = ground (arith, other, h) in
      rw (← same) (answer other, λ t. told_answer other t)
]

not-Failed :
    {fun : String} {job : Fields}
    → is_zero (get "retcode" null job) ≡ true
    → Failed fun (object job)
    → true ≡ false
not-Failed zero_code (failed_job code t) = ground arith

pub tells_of : {fun : String} {job : Fields} → Failed fun (object job) → Tells fun (ret_of job)
tells_of (failed_job code t) = t

pub failure-Tells :
    (fun : String) (job : Fields) (fails : Json)
    → failure_of fun job (ret_of job) ≡ ok fails
    → (truthy fails ≡ true) ↔ Failed fun (object job)
unfolding failure_of truthy
failure-Tells fun job fails h = elim (Bool-cases (is_zero (get "retcode" null job))) [
  | inl zero_code ↦
      let is_null : null ≡ fails = ground (arith, zero_code) in
      (λ p. ground (arith, is_null, p), λ f. ground (arith, not-Failed zero_code f))
  | inr code ↦
      let q = told fun (ret_of job) fails (rw code at h) in
      (λ p. failed_job code (q.0 p), λ f. q.1 (tells_of f))
]
