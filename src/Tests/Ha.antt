-- ===== src/Tests/Ha.antt =====
-- A cluster with `pcs` only, and a system with all three interfaces where one fails.
use cortx_prvsnr.Prelude.{String, ◌≡◌, refl, Bool, true, false, none, some}
use cortx_prvsnr.Prelude.{List, [], ◌∷◌, ◌++◌, arith, if◌then◌else◌, ◌==◌}
use cortx_prvsnr.Errors.{os_error, value_error}
use cortx_prvsnr.Exec.{Result, ok, err, Exec}
use cortx_prvsnr.Ensure.{ensure, judge}
use cortx_prvsnr.Json.{Json, text, object, Fields, field, end}
use cortx_prvsnr.Ha.Managers.{Env, Manager, offline, stop}
use cortx_prvsnr.Ha.Managers.{perform, cluster_status}
use cortx_prvsnr.Ha.Managers.{check_status}
use cortx_prvsnr.Ha.Broker.{
  State, fresh, made, missed, active_interfaces, broker_perform, is_offline,
}
use cortx_prvsnr.Ha.Broker.{delegate, on_world}
use cortx_prvsnr.Ha.Broker.Active.{IsSound, IsActive, active_interfaces-IsActive}
use cortx_prvsnr.Ha.Broker.Delegate.{Skips, delegate-eq-ok}
use cortx_prvsnr.Ha.Cluster.{cluster_stop}
use cortx_prvsnr.Ha.Cluster.Laws.{Reported, cluster_call-confirmed}

abbrev answer : Fields
answer =
    field "status" (text "Succeeded") (field "output" (text "done") (field "error" (text "") end))

abbrev loads : String → Result Json
loads s = if s == "{}" then ok (object answer) else err (value_error "no JSON")

-- The world is whether the cluster runs.
abbrev said : String → Bool → String
said cmd up =
    if cmd == "pcs status"
    then (if up then "Online: [ srvnode-1 ]" else "OFFLINE: [ srvnode-1 ]")
    else "{}"

abbrev after : String → Bool → Bool
after cmd up = if cmd == "pcs cluster stop --all --force" then false else up

abbrev only_pcs : Env
only_pcs = record {
  World = Bool;
  cmd_run = λ cmd up. (ok (said cmd up), after cmd up);
  run_subprocess_cmd = λ cmd up. (err (os_error "cortx"), up);
  cluster_manager = none;
  controller = λ api up. (ok (text "{}"), up);
  loads = loads;
  str = λ j. elim j [ text s ↦ s | _ ↦ "" ];
  sleep = λ n up. up;
}

-- The Python API is there, the `cortx` tool is not.
abbrev with_api : Env
with_api = record only_pcs { cluster_manager = some (λ up. (ok tt, up)) }

abbrev pcs_broker : Bool → State only_pcs
pcs_broker up = record (fresh up) { pcs = made; cortx_cmd = missed }

stopped : cluster_stop only_pcs (fresh true) ≡ (ok tt, pcs_broker false)
unfolding cluster_stop broker_perform is_offline delegate perform cluster_status check_status ensure
    judge
stopped = refl

cluster_call-confirmed_example :
    (u : State only_pcs) × (broker_perform only_pcs stop (fresh true) ≡ (ok tt, u))
    × Reported only_pcs (offline ∷ []) false
cluster_call-confirmed_example =
    cluster_call-confirmed only_pcs stop (fresh true) (pcs_broker false) stopped

stop_all : broker_perform only_pcs stop (fresh true) ≡ (ok tt, pcs_broker false)
unfolding broker_perform delegate perform
stop_all = refl

-- The call that the broker delegates.
abbrev stop_by : Manager → Exec Bool (Unit {0})
stop_by cm = perform only_pcs cm stop

delegated : delegate only_pcs stop_by (fresh true) ≡ (ok tt, pcs_broker false)
unfolding delegate perform
delegated = refl

delegate-eq-ok_example :
    (pre : List Manager) × (cm : Manager) × (post : List Manager) × (u : State only_pcs)
    × ((active_interfaces only_pcs (fresh true)).0 ≡ pre ++ cm ∷ post)
    × Skips only_pcs stop_by pre (active_interfaces only_pcs (fresh true)).1 u
    × (on_world only_pcs (stop_by cm) u ≡ (ok tt, pcs_broker false))
delegate-eq-ok_example =
    (delegate-eq-ok only_pcs stop_by (fresh true) (pcs_broker false) tt).0 delegated

active_interfaces-IsActive_example :
    IsActive (active_interfaces with_api (fresh true)).0
    × IsSound (active_interfaces with_api (fresh true)).1
active_interfaces-IsActive_example =
    active_interfaces-IsActive with_api (fresh true)
      (λ e. ground (arith, e), λ e. ground (arith, e))
