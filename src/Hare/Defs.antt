-- ===== src/Hare/Defs.antt =====
-- The functions of hare.py.
use cortx_prvsnr.Prelude.{ℕ, String, ◌<>◌, Bool, true, false, Option, none, some, List, [], ◌∷◌}
use cortx_prvsnr.Prelude.{if◌then◌else◌}
use cortx_prvsnr.Prelude.Text.{contains, is_empty}
use cortx_prvsnr.Json.{Json}
use cortx_prvsnr.Errors.{Exception, salt_cmd_result_error, runtime_error}
use cortx_prvsnr.Exec.{Result, ok, err, Exec, pure, raise, handle, ◌>>=◌, ◌>>◌}
use cortx_prvsnr.Ensure.{Settings, ensure}

-- `salt.cmd_run` with the answer of the first minion, in the foreground and in the background, the existence of a script under the root of
-- the provisioner, `time.sleep`, and numbers as texts.
pub record Env : Type 1 where
  pub World : Type 0
  pub cmd_run : String → Exec World String
  pub cmd_run_background : String → Exec World String
  pub exists : String → World → Bool
  pub sleep : ℕ → World → World
  pub show : ℕ → String
  pub str : Json → String

module _ (E : Env) where
  open E use {World, cmd_run, cmd_run_background, exists, sleep, show, str}

  -- `_export_consul(consul)`, for a directory and a file name made from the time and the pid.
  unfoldable pub export_consul : String → String → Exec World String
  export_consul out_file consul =
      cmd_run
        ("mkdir -p /var/lib/hare/prvsnr_generated && " <> consul <> " kv export >" <> out_file)

  -- The inner `except`: only a failed command that was not found is tried again.
  fallback : String → Exception → Exec World String
  unfolding export_consul
  fallback out_file (salt_cmd_result_error args reason) =
      if contains (str reason) "consul: command not found"
      then export_consul out_file "/usr/bin/consul"
      else raise (salt_cmd_result_error args reason)
  fallback out_file exc = raise exc

  unfoldable pub exported : Bool → Result String × World → Result (Option String) × World
  exported no_fail (ok out, w) = (ok (some out), w)
  exported true (err e, w) = (ok none, w)
  exported false (err e, w) = (err e, w)

  unfoldable pub consul_export : String → Bool → Exec World (Option String)
  unfolding export_consul fallback exported
  consul_export out_file no_fail w =
      exported no_fail (handle (fallback out_file) (export_consul out_file "consul" w))

  unfoldable pub cluster_status : Exec World String
  cluster_status = cmd_run "pcs status"

  unfoldable pub cluster_stop : Exec World String
  cluster_stop = cmd_run "pcs cluster stop --all"

  unfoldable pub cluster_start : Exec World String
  cluster_start = cmd_run "pcs cluster start --all"

  -- `cmd.insert(1, '--verbose')` puts the flag behind `hctl node`.
  unfoldable pub maintenance_cmd : Bool → ℕ → Bool → String
  maintenance_cmd enable timeout verbose =
      "hctl node"
      <> (if verbose then " --verbose" else "")
      <> (if enable then " maintenance" else " unmaintenance")
      <> " --all"
      <> " --timeout-sec="
      <> show timeout

  unfoldable pub cluster_maintenance : Bool → ℕ → Bool → Bool → Exec World String
  unfolding maintenance_cmd
  cluster_maintenance enable timeout verbose background =
      (if background then cmd_run_background else cmd_run) (maintenance_cmd enable timeout verbose)

  unfoldable pub cluster_maintenance_enable : Exec World String
  unfolding cluster_maintenance
  cluster_maintenance_enable = cluster_maintenance true 600 false false

  unfoldable pub cluster_maintenance_disable : Bool → Exec World String
  unfolding cluster_maintenance
  cluster_maintenance_disable background = cluster_maintenance false 600 false background

  unfoldable pub check_cluster_is_offline : Exec World Bool
  unfolding cluster_status
  check_cluster_is_offline = do ret ← cluster_status; pure (contains ret "OFFLINE:")

  first_existing : List String → World → Option String
  first_existing [] w = none
  first_existing (p ∷ ps) w = if exists p w then some p else first_existing ps w

  run_healthy : Option String → Exec World Bool
  unfolding is_empty
  run_healthy none = raise (runtime_error "Utility scripts are not found")
  run_healthy (some script) = do
    res ← cmd_run ("bash -c '. " <> script <> "; ensure_healthy_cluster false'")
    pure (if is_empty res then false else true)

  -- The output of the script, as the truth value that `ensure` takes it for.
  unfoldable pub check_cluster_is_online : Exec World Bool
  unfolding first_existing run_healthy
  check_cluster_is_online w =
      run_healthy
        (first_existing
          ("cli/common_utils/utility_scripts.sh" ∷ "cli/src/common_utils/utility_scripts.sh" ∷ [])
          w)
        w

  abbrev pub settings : String → ℕ → ℕ → Settings
  settings name tries wait = record { name = name; tries = tries; wait = wait; expected_exc = none }

  unfoldable pub ensure_cluster_is_stopped : ℕ → ℕ → Exec World (Unit {0})
  ensure_cluster_is_stopped tries wait =
      cluster_stop
      >> ensure sleep (settings "check_cluster_is_offline" tries wait) check_cluster_is_offline

  unfoldable pub ensure_cluster_is_started : ℕ → ℕ → Exec World (Unit {0})
  ensure_cluster_is_started tries wait =
      cluster_start
      >> ensure sleep (settings "check_cluster_is_online" tries wait) check_cluster_is_online

  unfoldable pub ensure_cluster_is_healthy : ℕ → ℕ → Exec World (Unit {0})
  ensure_cluster_is_healthy tries wait =
      ensure sleep (settings "check_cluster_is_online" tries wait) check_cluster_is_online

  -- The wrappers for release 2.
  unfoldable pub r2_check_cluster_health_status : Exec World (Unit {0})
  unfolding ensure_cluster_is_healthy
  r2_check_cluster_health_status = ensure_cluster_is_healthy 1 10

  unfoldable pub r2_cluster_stop : ℕ → ℕ → Exec World (Unit {0})
  unfolding ensure_cluster_is_stopped
  r2_cluster_stop tries wait = ensure_cluster_is_stopped tries wait

  unfoldable pub r2_cluster_start : ℕ → ℕ → Exec World (Unit {0})
  unfolding ensure_cluster_is_started
  r2_cluster_start tries wait = ensure_cluster_is_started tries wait
