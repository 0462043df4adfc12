-- ===== src/Salt/Jobs/Laws.antt =====
-- What the caller of an earlier command gets from its job.
use cortx_prvsnr.Prelude.{String, ◌≡◌, refl, ap, ◌∙◌, true, false}
use cortx_prvsnr.Prelude.Text.{is_empty}
use cortx_prvsnr.Exec.{ok}
use cortx_prvsnr.Json.{text, object, Fields, end, field, contains_key, truthy}
use cortx_prvsnr.Serialize.{encode}
use cortx_prvsnr.Cli.{Outcome, answer, Python, output, or_empty, prepare_res}
use cortx_prvsnr.Cli.RoundTrip.{CanCross, process_cli_result-output, output_is_text}
use cortx_prvsnr.Salt.Results.{ret_of}
use cortx_prvsnr.Salt.Client.{Env, Session}
use cortx_prvsnr.Salt.Provisioner.Laws.{one_job, client_result-one_job, process_res-known}
use cortx_prvsnr.Salt.Jobs.{SaltJob, check_targets, function_name, provisioner_jobs, print_job}
use cortx_prvsnr.Salt.Jobs.{job_answer, prvsnr_job_result}

module _ (E : Env) (P : Python) where
  job_answer-output :
      (s : Session E.World) (job : SaltJob) (minion : String) (found : Fields) (outcome : Outcome)
      → is_empty s.local_id ≡ false
      → check_targets job.minions ≡ ok tt
      → job.result ≡ object (field minion (object found) end)
      → ret_of found ≡ text (output P outcome)
      → CanCross P outcome
      → P.json_loads (output P outcome) ≡ ok (encode (prepare_res (or_empty outcome)))
      → job_answer E P job s ≡ (ok (answer (or_empty outcome)), s)
  unfolding job_answer one_job
  job_answer-output s job minion found outcome known targets result ret crosses json =
      let read =
        client_result-one_job (function_name job.function) minion (output P outcome) found ret
          (output_is_text P outcome) in
      rw (targets, result, read)
        (process_res-known E P s minion (output P outcome) known
          ∙ ap (λ a. (ok a, s)) (process_cli_result-output P outcome crosses json))

  -- The caller who asks for an earlier command gets what the command did, return or raise, an empty
  -- text for `None`, where salt lists its job, the job is of one minion and it has the output of the
  -- command as its return.
  pub prvsnr_job_result-output :
      (jid minion : String) (s t u : Session E.World) (jobs found : Fields) (job : SaltJob)
      (outcome : Outcome)
      → provisioner_jobs E "*" s ≡ (ok jobs, t)
      → contains_key jid jobs ≡ true
      → print_job E jid t ≡ (ok job, u)
      → is_empty u.local_id ≡ false
      → check_targets job.minions ≡ ok tt
      → job.result ≡ object (field minion (object found) end)
      → ret_of found ≡ text (output P outcome)
      → CanCross P outcome
      → P.json_loads (output P outcome) ≡ ok (encode (prepare_res (or_empty outcome)))
      → prvsnr_job_result E P jid s ≡ (ok (answer (or_empty outcome)), u)
  unfolding prvsnr_job_result truthy
  prvsnr_job_result-output jid minion s t u jobs found job outcome listed there printed known
        targets result ret crosses json =
      let answered =
        job_answer-output u job minion found outcome known targets result ret crosses json in
      let some_result : truthy job.result ≡ true = rw result refl in
      rw (listed, there, printed, some_result) answered
