-- ===== src/Tests/Update.antt =====
-- Updates that succeed, and updates that fail at a component or before the transactions are known.
use cortx_prvsnr.Prelude.{String, ◌≡◌, refl, true, List, [], ◌∷◌, ◌++◌, ◌==◌}
use cortx_prvsnr.Prelude.{if◌then◌else◌, ◌<>◌}
use cortx_prvsnr.Prelude.Text.{is_empty}
use cortx_prvsnr.Json.{text, null}
use cortx_prvsnr.Errors.{Exception, salt_cmd_result_error, sw_update_error, sw_stack_update_error}
use cortx_prvsnr.Errors.{no_rollback_error}
use cortx_prvsnr.Exec.{Result, ok, err}
use cortx_prvsnr.Ensure.{judge, ensure}
use cortx_prvsnr.Check.{make_update_decision}
use cortx_prvsnr.Hare.Defs.{Env, consul_export, ensure_cluster_is_healthy, check_cluster_is_online}
use cortx_prvsnr.Hare.Defs.{cluster_maintenance_enable, cluster_maintenance_disable}
use cortx_prvsnr.Update.{Ops, run_update, update_within, prepare, get_last_txn_ids, kind_of}
use cortx_prvsnr.Update.Success.{Updated, run_update-ok}
use cortx_prvsnr.Update.Failures.{Failure, run_update-err}
use cortx_prvsnr.Update.Reversal.{Reverted, run_update-Reverted}

-- The world is the list of commands, the last first.
abbrev cluster : Env
cluster = record {
  World = List String;
  cmd_run = λ cmd w. (ok "done", cmd ∷ w);
  cmd_run_background = λ cmd w. (ok "done", cmd ∷ w);
  exists = λ path w. true;
  sleep = λ n w. w;
  show = λ n. "n";
  str = λ j. elim j [ text s ↦ s | _ ↦ "" ];
}

abbrev state_result : List String → String → Result (Unit {0})
state_result [] broken = ok tt
state_result (s ∷ ss) broken =
    if s == broken then err (salt_cmd_result_error null (text s)) else ok tt

-- The states of one name cannot be applied.
abbrev system : String → Ops
system broken = record {
  hare = cluster;
  apply_states = λ states targets w. (state_result states broken, states ++ w);
  run_checks = λ w. (ok [], w);
  config_salt_master = λ w. (ok tt, w);
  config_salt_minions = λ w. (ok true, w);
  ensure_salt_master_is_running = λ w. (ok tt, w);
  restart_salt_minions = λ w. (ok tt, "restart" ∷ w);
  yum_history = λ targets w. (ok (("srvnode-1", "12") ∷ []), w);
  yum_rollback = λ txn_id target w. (ok tt, ("rollback " <> target) ∷ w);
}

abbrev final : String → List String
final broken = (run_update (system broken) "*" []).1

updated : run_update (system "") "*" [] ≡ (ok tt, final "")
unfolding run_update prepare update_within get_last_txn_ids kind_of ensure judge
    make_update_decision consul_export ensure_cluster_is_healthy check_cluster_is_online
    cluster_maintenance_enable cluster_maintenance_disable is_empty
updated = refl

run_update-ok_example : Updated (system "") "*" [] (final "")
run_update-ok_example = run_update-ok (system "") "*" [] (final "") updated

abbrev motr_error : Exception
motr_error = sw_stack_update_error (salt_cmd_result_error null (text "motr.upgrade"))

broken_off :
    run_update (system "motr.upgrade") "*" []
    ≡ (err (sw_update_error motr_error no_rollback_error), final "motr.upgrade")
unfolding run_update prepare update_within get_last_txn_ids kind_of ensure judge
    make_update_decision consul_export ensure_cluster_is_healthy check_cluster_is_online
    cluster_maintenance_enable cluster_maintenance_disable is_empty
broken_off = refl

run_update-err_example :
    Failure
      (system "motr.upgrade")
      "*"
      []
      (final "motr.upgrade")
      (sw_update_error motr_error no_rollback_error)
run_update-err_example =
    run_update-err (system "motr.upgrade") "*" [] (final "motr.upgrade")
      (sw_update_error motr_error no_rollback_error) broken_off

run_update-Reverted_example : Reverted (system "motr.upgrade") "*" [] (final "motr.upgrade")
run_update-Reverted_example =
    run_update-Reverted (system "motr.upgrade") "*" [] (final "motr.upgrade") motr_error
      no_rollback_error broken_off

abbrev broken : List String
broken = (update_within (system "motr.upgrade") "*" []).1

within : update_within (system "motr.upgrade") "*" [] ≡ (err motr_error, broken)
unfolding run_update prepare update_within get_last_txn_ids kind_of ensure judge
    make_update_decision consul_export ensure_cluster_is_healthy check_cluster_is_online
    cluster_maintenance_enable cluster_maintenance_disable is_empty
within = refl
