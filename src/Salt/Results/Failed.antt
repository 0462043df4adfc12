-- ===== src/Salt/Results/Failed.antt =====
-- What it means that a target has failed.
use package.text.Mathlib.Text.{starts_with}
use cortx_prvsnr.Prelude.{String, ◌≡◌, true, false, ◌&&◌}
use cortx_prvsnr.Exec.{ok}
use cortx_prvsnr.Json.{Json, null, boolean, object, Fields, field, get, truthy}
use cortx_prvsnr.Salt.Results.{is_zero, is_dict, item, ret_of}

-- The dict has the value under the key.
pub data HasField (key : String) (v : Json) : Fields → Type 0 where
  here : {fs : Fields} → HasField key v (field key v fs)
  later : {k : String} {u : Json} {fs : Fields} → HasField key v fs → HasField key v (field k u fs)

-- Some task of a state has a result that is false.
pub data HasFailedTask : Fields → Type 0 where
  this_task :
      {task : String} {info result : Json} {tasks : Fields}
      → item "result" info ≡ ok result
      → truthy result ≡ false
      → HasFailedTask (field task info tasks)
  later_task :
      {task : String} {info : Json} {tasks : Fields}
      → HasFailedTask tasks
      → HasFailedTask (field task info tasks)

-- What a return tells of a failure: a failed task of a state, or anything that is not empty.
pub data Tells (fun : String) : Json → Type 0 where
  failed_state :
      {tasks : Fields}
      → starts_with fun "state." ≡ true
      → HasFailedTask tasks
      → Tells fun (object tasks)
  answer :
      {ret : Json}
      → starts_with fun "state." && is_dict ret ≡ false
      → truthy ret ≡ true
      → Tells fun ret

-- The minion has not answered, or its job has a return code and a return that tells of a failure.
pub data Failed (fun : String) : Json → Type 0 where
  lost : Failed fun (boolean false)
  failed_job :
      {job : Fields}
      → is_zero (get "retcode" null job) ≡ false
      → Tells fun (ret_of job)
      → Failed fun (object job)
