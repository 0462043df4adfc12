-- ===== src/Upgrade/Cluster.antt =====
-- `SWUpgrade` of commands/upgrade/sw_upgrade.py.
use cortx_prvsnr.Prelude.{String, ◌<>◌, Bool, true, false, Option, none, some, List, [], ◌∷◌, ◌==◌}
use cortx_prvsnr.Prelude.{if◌then◌else◌}
use cortx_prvsnr.Prelude.Text.{is_empty}
use cortx_prvsnr.Errors.{Exception, not_implemented_error, reason, sw_upgrade_error}
use cortx_prvsnr.Exec.{err, Exec, pure, raise, handle, ◌>>=◌, ◌>>◌}
use cortx_prvsnr.Upgrade.Interface.{
  Ops, Flow, upgrade, upgrade_offline, Hook, HookName, pre_upgrade,
}
use cortx_prvsnr.Upgrade.Interface.{post_upgrade, cluster, all_targets, local_minion, nodes}
use cortx_prvsnr.Upgrade.Node.{run_node}

-- What an upgrade returns: the output of the command that it was delegated to, or nothing.
pub data Outcome : Type 0 where
  delegated : String → Outcome
  completed : Outcome

module _ (O : Ops) where
  open O use {World, is_cluster_healthy, cluster_standby, cluster_start, apply_states, list_minions}
  open O use {cmd_run, get_last_txn_ids, pillar_set, run_checks, make_decision, hook}
  open O use {cortx_version, iso_version, set_release, own_version}

  require : Bool → Exception → Exec World (Unit {0})
  require true e = pure tt
  require false e = raise e

  checks : Exec World O.CheckResult
  checks w = handle (λ e. raise (sw_upgrade_error e)) (run_checks w)

  unfoldable pub validate : Exec World (Unit {0})
  unfolding require checks
  validate = do
    healthy ← is_cluster_healthy
    require healthy (sw_upgrade_error (reason "cluster is not healthy"))
    apply_states ("repos.upgrade" ∷ []) local_minion
    check_res ← checks
    make_decision check_res

  unfoldable pub backup : String → Exec World (Unit {0})
  backup version = do
    txn_ids_dict ← get_last_txn_ids
    pillar_set ("upgrade/yum_snapshots/" <> version) txn_ids_dict

  unfoldable pub self_upgrade : Flow → Exec World (Unit {0})
  self_upgrade flow = do
    run_node O flow (some ("provisioner" ∷ [])) true all_targets
    cmd_run "salt-call saltutil.sync_all" all_targets
    pure tt

  unfoldable pub prepare : String → Flow → Exec World (Unit {0})
  unfolding validate backup self_upgrade
  prepare version flow = validate >> backup version >> self_upgrade flow

  delegate_cmd : Flow → String
  delegate_cmd upgrade = "provisioner sw_upgrade --noprepare"
  delegate_cmd upgrade_offline = "provisioner sw_upgrade --noprepare --offline"

  unfoldable pub delegate : Flow → Exec World Outcome
  unfolding delegate_cmd
  delegate flow = do ret ← cmd_run (delegate_cmd flow) local_minion; pure (delegated ret)

  unfoldable pub plan_upgrade : Flow → Exec World (List (List String))
  plan_upgrade upgrade = raise (not_implemented_error "Not considered for the current moment")
  plan_upgrade upgrade_offline = do minions ← list_minions; pure (minions ∷ [])

  upgrade_groups : Flow → List (List String) → Exec World (Unit {0})
  upgrade_groups flow [] = pure tt
  upgrade_groups flow (group ∷ groups) =
      run_node O flow none false (nodes group) >> upgrade_groups flow groups

  -- The stop and the start of the cluster stand under `if False` in the code.
  unfoldable pub upgrade_cluster :
      List (List String) → Flow → String → String → Exec World (Unit {0})
  unfolding upgrade_groups
  upgrade_cluster groups flow from_ver to_ver = do
    let h = λ (name : HookName).
        let r : Hook = record {
          name = name;
          flow = flow;
          level = cluster;
          from_ver = from_ver;
          to_ver = to_ver;
        } in
        r
    hook (h pre_upgrade) local_minion
    upgrade_groups flow groups
    hook (h post_upgrade) local_minion

  -- The upgrade without delegation.
  unfoldable pub upgrade_here : Flow → String → String → Exec World Outcome
  upgrade_here flow from_ver to_ver = do
    groups ← plan_upgrade flow
    cluster_standby
    upgrade_cluster groups flow from_ver to_ver
    cluster_start
    set_release to_ver
    pure completed

  unfoldable pub upgrade_all : Flow → String → String → Exec World Outcome
  upgrade_all flow from_ver to_ver = do
    new_prvsnr_version ← cmd_run "provisioner --version" local_minion
    (if new_prvsnr_version == own_version then upgrade_here flow from_ver to_ver else delegate flow)

  unfoldable pub available : Option String → Exec World String
  unfolding is_empty
  available none = raise (sw_upgrade_error (reason "no upgrade release is available"))
  available (some v) =
      if is_empty v
      then raise (sw_upgrade_error (reason "no upgrade release is available"))
      else pure v

  -- The final check of the version.
  unfoldable pub confirm : String → Outcome → Exec World Outcome
  confirm upgrade_version ret = do
    version ← cortx_version
    (if version == upgrade_version
        then pure ret
        else raise (sw_upgrade_error (reason "Upgraded to not expected version")))

  -- The body of the `try`.
  unfoldable pub attempt : Bool → Flow → Exec World Outcome
  attempt noprepare flow = do
    version ← cortx_version
    found ← iso_version
    upgrade_version ← available found
    if noprepare then pure tt else prepare version flow
    ret ← upgrade_all flow version upgrade_version
    confirm upgrade_version ret

  -- `run(offline, noprepare)`
  unfoldable pub run : Bool → Bool → Exec World Outcome
  run false noprepare w =
      (err (not_implemented_error "Rolling upgrade is not considered for the current moment"), w)
  run true noprepare w =
      handle (λ e. raise (sw_upgrade_error e)) (attempt noprepare upgrade_offline w)
