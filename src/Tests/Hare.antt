-- ===== src/Tests/Hare.antt =====
-- A stop of the cluster that `pcs status` shows at once.
use cortx_prvsnr.Prelude.{String, ◌≡◌, refl, Bool, true, false, ◌==◌, if◌then◌else◌}
use cortx_prvsnr.Json.{text, null}
use cortx_prvsnr.Errors.{salt_cmd_result_error}
use cortx_prvsnr.Exec.{ok, err}
use cortx_prvsnr.Ensure.{judge, ensure}
use cortx_prvsnr.Hare.Defs.{Env, cluster_stop, r2_cluster_stop, check_cluster_is_offline}

abbrev said : String → Bool → String
said cmd up = if cmd == "pcs status" then (if up then "Online:" else "OFFLINE: a") else "done"

abbrev after : String → Bool → Bool
after cmd up = if cmd == "pcs cluster stop --all" then false else up

abbrev system : Env
system = record {
  World = Bool;
  cmd_run = λ cmd up. (ok (said cmd up), after cmd up);
  cmd_run_background = λ cmd up. (ok (said cmd up), after cmd up);
  exists = λ path up. true;
  sleep = λ n up. up;
  show = λ n. "n";
  str = λ j. elim j [ text s ↦ s | _ ↦ "" ];
}

stopped : r2_cluster_stop system 30 10 true ≡ (ok tt, false)
unfolding r2_cluster_stop ensure judge check_cluster_is_offline cluster_stop
stopped = refl

-- No command works.
abbrev broken : Env
broken = record system {
  cmd_run = λ cmd up. (err (salt_cmd_result_error null (text "no consul")), up);
}
