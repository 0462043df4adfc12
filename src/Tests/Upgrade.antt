-- ===== src/Tests/Upgrade.antt =====
-- An upgrade from 1.0 to 2.0 of a cluster with one node, and one that a failed command breaks off.
use cortx_prvsnr.Prelude.{String, ◌≡◌, refl, true, false, some, [], ◌∷◌}
use cortx_prvsnr.Errors.{os_error, sw_upgrade_error}
use cortx_prvsnr.Exec.{ok, err}
use cortx_prvsnr.Upgrade.Interface.{Ops, upgrade_offline, local_minion}
use cortx_prvsnr.Upgrade.Cluster.{
  run, attempt, upgrade_all, completed, confirm, upgrade_here, available, prepare,
}
use cortx_prvsnr.Upgrade.Cluster.{upgrade_cluster, plan_upgrade}
use cortx_prvsnr.Upgrade.Node.{run_node}
use cortx_prvsnr.Upgrade.Laws.{Upgraded, Ended, run-Ended, upgrade_all-completed}

-- The world is the version of the release.
abbrev system : Ops
system = record {
  World = String;
  is_cluster_healthy = λ w. (ok true, w);
  cluster_standby = λ w. (ok tt, w);
  cluster_start = λ w. (ok tt, w);
  apply_states = λ states targets w. (ok tt, w);
  list_minions = λ w. (ok ("srvnode-1" ∷ []), w);
  cmd_run = λ cmd targets w. (ok "2.0.1", w);
  get_last_txn_ids = λ w. (ok [], w);
  pillar_set = λ path txns w. (ok tt, w);
  pillar_sw_list = λ w. (ok ("motr" ∷ []), w);
  pillar_sw_data = λ w. (ok (("provisioner", "provisioner") ∷ ("motr", "motr") ∷ []), w);
  CheckResult = Unit;
  run_checks = λ w. (ok tt, w);
  make_decision = λ res w. (ok tt, w);
  hook = λ h targets w. (ok tt, w);
  cortx_version = λ w. (ok w, w);
  iso_version = λ w. (ok (some "2.0"), w);
  swupgrade_version = λ w. (ok "2.0", w);
  set_release = λ v w. (ok tt, v);
  own_version = "2.0.1";
}

abbrev broken : Ops
broken = record system { cluster_standby = λ w. (err (os_error "standby"), w) }

upgraded : run system true false "1.0" ≡ (ok completed, "2.0")
unfolding run attempt upgrade_all confirm upgrade_here available prepare upgrade_cluster
    plan_upgrade run_node
upgraded = refl

broken_off : run broken true true "1.0" ≡ (err (sw_upgrade_error (os_error "standby")), "1.0")
unfolding run attempt upgrade_all upgrade_here available plan_upgrade
broken_off = refl

run-Ended_example : Ended broken true true "1.0" "1.0" (err (sw_upgrade_error (os_error "standby")))
run-Ended_example =
    run-Ended broken true true "1.0" "1.0" (err (sw_upgrade_error (os_error "standby"))) broken_off

all_done : upgrade_all system upgrade_offline "1.0" "2.0" "1.0" ≡ (ok completed, "2.0")
unfolding upgrade_all upgrade_here upgrade_cluster plan_upgrade run_node
all_done = refl

upgrade_all-completed_example :
    (w₁ : String) × (system.cmd_run "provisioner --version" local_minion "1.0" ≡ (ok "2.0.1", w₁))
    × Upgraded system upgrade_offline "1.0" "2.0" w₁ "2.0"
upgrade_all-completed_example =
    upgrade_all-completed system upgrade_offline "1.0" "2.0" "1.0" "2.0" all_done
