-- ===== src/Salt/Runner/Laws.antt =====
-- What a call of the runner that returns has got.
use cortx_prvsnr.Prelude.{◌≡◌, ap, ◌∙◌, true, false}
use cortx_prvsnr.Errors.{salt_cmd_run_error}
use cortx_prvsnr.Exec.{ok, lift, >>=-eq-ok, lift-eq-ok, ok_injective}
use cortx_prvsnr.Exec.{unless-eq-ok, when-eq-ok}
use cortx_prvsnr.Json.{Json}
use cortx_prvsnr.Json.{contains_key, truthy}
use cortx_prvsnr.Update.{wrapped}
use cortx_prvsnr.Update.Success.{wrapped-ok}
use cortx_prvsnr.Salt.Args.{Call, runner_view}
use cortx_prvsnr.Salt.Client.{Env, Session}
use cortx_prvsnr.Salt.Runner.{from_salt_res, not_parsed, runner_data, runner_call, runner_answer}
use cortx_prvsnr.Salt.Runner.{RunnerResult, runner_sent, salt_runner_cmd}

module _ (E : Env) where
  open E use {World}

  -- How a call of the runner came to its value.
  pub record Succeeded (call : Call) (s t : Session World) (v : Json) : Type 0 where
    pub raw : Json
    pub found : Json
    pub read : RunnerResult
    pub waited : call.nowait ≡ false
    pub answered : runner_sent E (runner_call E call) s ≡ (ok raw, t)
    pub has_data :
        runner_data
          (runner_view (runner_call E call))
          (contains_key "username" (runner_call E call).kw)
          raw
        ≡ ok found
    pub is_read : from_salt_res found ≡ ok read
    pub succeeded : truthy read.success ≡ true
    pub is_result : read.result ≡ v

  -- A call of the runner that returns was answered, and what is read of its answer has succeeded
  -- and has the value that is returned as its result.
  pub salt_runner_cmd-Succeeded :
      (call : Call) (s t : Session World) (v : Json)
      → salt_runner_cmd E call s ≡ (ok v, t)
      → Succeeded call s t v
  unfolding salt_runner_cmd runner_answer
  salt_runner_cmd-Succeeded call s t v h =
      let args = runner_call E call in
      let view = runner_view args in
      let eauth = contains_key "username" args.kw in
      let (waits, h₁) = unless-eq-ok call.nowait _ _ s h in
      let (raw, u, is_sent, h₂) =
        >>=-eq-ok (wrapped (salt_cmd_run_error view) (runner_sent E args)) _ s h₁ in
      let (not_empty, h₃) = when-eq-ok (truthy raw) _ _ u h₂ in
      let (found, is_found, h₄) = lift-eq-ok (runner_data view eauth raw) _ u h₃ in
      let (read, w, is_read, h₅) =
        >>=-eq-ok (wrapped (not_parsed view) (lift (from_salt_res found))) _ u h₄ in
      let (success, h₆) = when-eq-ok (truthy read.success) _ _ w h₅ in
      let read_ok = wrapped-ok (not_parsed view) (lift (from_salt_res found)) u w read is_read in
      record {
        raw = raw;
        found = found;
        read = read;
        waited = waits;
        answered =
            wrapped-ok (salt_cmd_run_error view) (runner_sent E args) s u raw is_sent
            ∙ ap (λ x. (ok raw, x)) (ap (λ r. r.1) read_ok ∙ ap (λ r. r.1) h₆);
        has_data = is_found;
        is_read = ap (λ r. r.0) read_ok;
        succeeded = success;
        is_result = ok_injective (ap (λ r. r.0) h₆);
      }
