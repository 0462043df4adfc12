-- ===== src/Ha/Managers.antt =====
-- The three managers over an HA interface: the `pcs` tool, the `cortx` tool and the Python API.
pub mod Laws
use cortx_prvsnr.Prelude.{ℕ, String, ◌<>◌, Bool, true, false, ◌||◌, Option, List, [], ◌∷◌, ◌==◌}
use cortx_prvsnr.Prelude.{if◌then◌else◌}
use cortx_prvsnr.Prelude.Text.{lower, contains}
use cortx_prvsnr.Errors.{Exception, attribute_error, value_error, provisioner_error}
use cortx_prvsnr.Errors.{not_implemented_error, salt_cmd_result_error}
use cortx_prvsnr.Exec.{Result, ok, err, Exec, pure, raise, lift, handle, ◌>>=◌, ◌>>◌}
use cortx_prvsnr.Json.{Json, text, load_json_str}
use cortx_prvsnr.Ha.Response.{HaResponse, parse_ret}

-- What lies outside: `cmd_run` on the local minion (the answer of that minion), local processes,
-- `json.loads`, `time.sleep`, and the package of `CortxClusterManager`, which may be absent.
-- A call of `controller` is one of the attribute of `cluster_controller` with that name.
pub record Env : Type 1 where
  pub World : Type 0
  pub cmd_run : String → Exec World String
  pub run_subprocess_cmd : String → Exec World (Unit {0})
  pub cluster_manager : Option (Exec World (Unit {0}))
  pub controller : String → Exec World Json
  pub loads : String → Result Json
  pub str : Json → String
  pub sleep : ℕ → World → World

-- `HAClusterStatus`
pub data HaClusterStatus : Type 0 where
  online offline standby degraded : HaClusterStatus

unfoldable pub status_eq : HaClusterStatus → HaClusterStatus → Bool
status_eq online online = true
status_eq offline offline = true
status_eq standby standby = true
status_eq degraded degraded = true
status_eq _ _ = false

-- `HAClusterStatus(value)`
unfoldable pub to_status : Json → Result HaClusterStatus
to_status (text s) =
    if s == "online"
    then ok online
    else if s == "offline"
    then ok offline
    else if s == "standby"
    then ok standby
    else if s == "degraded"
    then ok degraded
    else err (value_error "not a valid HAClusterStatus")
to_status _ = err (value_error "not a valid HAClusterStatus")

-- The classes that derive from `ClusterManagerBase`, the broker apart.
pub data Manager : Type 0 where
  manager_pcs manager_cortx_cmd manager_cortx_api : Manager

-- The methods that change the cluster.
pub data Action : Type 0 where
  stop go_standby start unstandby : Action

unfoldable pub api_name : Action → String
api_name stop = "stop"
api_name go_standby = "standby"
api_name start = "start"
api_name unstandby = "unstandby"

unfoldable pub pcs_command : Action → String
pcs_command stop = "pcs cluster stop --all --force"
pcs_command go_standby = "pcs cluster standby --all"
pcs_command start = "pcs cluster start --all"
pcs_command unstandby = "pcs cluster unstandby --all"

-- The tests on the output of `pcs status`, in the order of the code.
unfoldable pub read_pcs_status : String → Result HaClusterStatus
unfolding lower
read_pcs_status res =
    if contains (lower res) "online:"
    then ok online
    else if contains (lower res) "standby"
    then ok standby
    else if contains (lower res) "offline:"
    then ok offline
    else err (provisioner_error ("Unknown cluster status: '" <> res <> "'"))

-- The `except` clause of the same method.
unfoldable pub read_pcs_failure : (Json → String) → Exception → Result HaClusterStatus
read_pcs_failure str (salt_cmd_result_error args reason) =
    if contains (str reason) "cluster is not currently running on this node"
    then ok offline
    else err (salt_cmd_result_error args reason)
read_pcs_failure str exc = err exc

module _ (E : Env) where
  open E use {World, cmd_run, controller, loads, str}

  pcs_cluster_status_of : Result String × World → Result HaClusterStatus × World
  unfolding read_pcs_status read_pcs_failure
  pcs_cluster_status_of (ok res, w) = (read_pcs_status res, w)
  pcs_cluster_status_of (err exc, w) = (read_pcs_failure str exc, w)

  unfoldable pub pcs_cluster_status : Exec World HaClusterStatus
  unfolding pcs_cluster_status_of
  pcs_cluster_status w = pcs_cluster_status_of (cmd_run "pcs status" w)

  -- `ClusterManagerCortxCmd._run_api`: the output is decoded by `_run_cmd(json=True)`.
  unfoldable pub cortx_cmd_run_api : String → Exec World HaResponse
  unfolding load_json_str
  cortx_cmd_run_api api = do
    ret ← cmd_run ("cortx cluster " <> api)
    decoded ← lift (load_json_str loads (text ret))
    lift (parse_ret loads decoded)

  -- `ClusterManagerCortxAPI._run_api`
  unfoldable pub cortx_api_run_api : String → Exec World HaResponse
  cortx_api_run_api api = do ret ← controller api; lift (parse_ret loads ret)

  unavailable {ℓ} : {A : Type ℓ} → Exception → Exec World A
  unavailable (attribute_error e) w = (err (not_implemented_error "api is not available"), w)
  unavailable exc w = (err exc, w)

  -- `_call_ha_api_carefully`
  unfoldable pub call_ha_api_carefully {ℓ} : {A : Type ℓ} → Exec World A → Exec World A
  unfolding unavailable
  call_ha_api_carefully api w = handle unavailable (api w)

  -- `cluster_status` of each class.
  unfoldable pub cluster_status : Manager → Exec World HaClusterStatus
  unfolding pcs_cluster_status cortx_api_run_api call_ha_api_carefully to_status
  cluster_status manager_pcs = pcs_cluster_status
  cluster_status manager_cortx_cmd = raise (not_implemented_error "'status' is not supported")
  cluster_status manager_cortx_api =
      call_ha_api_carefully (do status ← cortx_api_run_api "status"; lift (to_status status.output))

  -- `cluster_stop`, `cluster_standby`, `cluster_start` and `cluster_unstandby` of each class.
  -- `cluster_stop` of the Python API is the inherited one, without the careful wrapper.
  unfoldable pub perform : Manager → Action → Exec World (Unit {0})
  unfolding api_name pcs_command cortx_cmd_run_api cortx_api_run_api call_ha_api_carefully
  perform manager_pcs a = do cmd_run (pcs_command a); pure tt
  perform manager_cortx_cmd go_standby = raise (not_implemented_error "'standby' is not supported")
  perform manager_cortx_cmd unstandby = raise (not_implemented_error "'unstandby' is not supported")
  perform manager_cortx_cmd stop = do cortx_cmd_run_api "stop"; pure tt
  perform manager_cortx_cmd start = do cortx_cmd_run_api "start"; pure tt
  perform manager_cortx_api stop = do cortx_api_run_api "stop"; pure tt
  perform manager_cortx_api a = call_ha_api_carefully (do cortx_api_run_api (api_name a); pure tt)

-- `ret in status`
unfoldable pub is_one_of : HaClusterStatus → List HaClusterStatus → Bool
unfolding status_eq
is_one_of ret [] = false
is_one_of ret (s ∷ status) = status_eq s ret || is_one_of ret status

-- `check_status`, of a manager or of the broker, by the `cluster_status` of that object.
unfoldable pub check_status {ℓ} :
    {W : Type ℓ} → Exec W HaClusterStatus → List HaClusterStatus → Exec W Bool
unfolding is_one_of
check_status cluster_status status = do ret ← cluster_status; pure (is_one_of ret status)
