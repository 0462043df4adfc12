-- ===== src/Ha/Broker.antt =====
-- `ClusterManagerBroker`: which managers are usable, and the first of them that supports a call.
pub mod Active
pub mod Delegate
use cortx_prvsnr.Prelude.{Bool, Option, none, some, List, [], ◌∷◌}
use cortx_prvsnr.Errors.{provisioner_error, not_implemented_error}
use cortx_prvsnr.Exec.{Result, ok, err, Exec}
use cortx_prvsnr.Ha.Managers.{Env, Manager, manager_pcs, manager_cortx_cmd, manager_cortx_api}
use cortx_prvsnr.Ha.Managers.{HaClusterStatus, online, offline, standby, Action, cluster_status}
use cortx_prvsnr.Ha.Managers.{perform, check_status}

-- A class attribute: `None`, `MISSED` or an instance.
pub data Slot : Type 0 where
  unset missed made : Slot

-- The attributes `_pcs`, `_cortx_cmd` and `_cortx_api`, and the world that the managers act on.
pub record Broker (W : Type 0) : Type 0 where
  pub world : W
  pub pcs : Slot
  pub cortx_cmd : Slot
  pub cortx_api : Slot

-- The attributes as the class declares them.
abbrev pub fresh : {W : Type 0} → W → Broker W
fresh w = record { world = w; pcs = unset; cortx_cmd = unset; cortx_api = unset }

module _ (E : Env) where
  open E use {World, run_subprocess_cmd, cluster_manager}

  abbrev pub State : Type 0
  State = Broker World

  abbrev pub on_world {ℓ} : {A : Type ℓ} → Exec World A → Exec State A
  on_world m b = let (r, w) = m b.world in (r, record b { world = w })

  unfoldable pub cm_pcs : State → State
  cm_pcs b = elim b.pcs [ unset ↦ record b { pcs = made } | _ ↦ b ]

  -- After `cortx --help`.
  probed : Result (Unit {0}) → Slot
  probed (ok _) = made
  probed (err exc) = missed

  probe : State → State
  unfolding probed
  probe b =
      let (r, w) = run_subprocess_cmd "cortx --help" b.world in
      record b { world = w; cortx_cmd = probed r }

  usable : Slot → Manager → Option Manager
  usable made cm = some cm
  usable _ cm = none

  unfoldable pub cm_cortx_cmd : State → Option Manager × State
  unfolding probe usable
  cm_cortx_cmd b =
      let b' : State = elim b.cortx_cmd [ unset ↦ probe b | _ ↦ b ] in
      (usable b'.cortx_cmd manager_cortx_cmd, b')

  -- `ClusterManagerCortxAPI()` within its `try`. A failure marks `_cortx_cmd`, as the code does.
  created : Result (Unit {0}) × World → State → State
  created (ok _, w) b = record b { world = w; cortx_api = made }
  created (err exc, w) b = record b { world = w; cortx_cmd = missed }

  create_api : Option (Exec World (Unit {0})) → State → State
  unfolding created
  create_api none b = record b { cortx_cmd = missed }
  create_api (some make) b = created (make b.world) b

  unfoldable pub cm_cortx_api : State → Option Manager × State
  unfolding create_api usable
  cm_cortx_api b =
      let b' : State = elim b.cortx_api [ unset ↦ create_api cluster_manager b | _ ↦ b ] in
      (elim b'.cortx_cmd [ missed ↦ none | _ ↦ usable b'.cortx_api manager_cortx_api ], b')

  present : Option Manager → List Manager → List Manager
  present none cms = cms
  present (some cm) cms = cm ∷ cms

  unfoldable pub active_interfaces : State → List Manager × State
  unfolding cm_cortx_api cm_cortx_cmd cm_pcs present
  active_interfaces b =
      let (api, b₁) = cm_cortx_api b in
      let (cmd, b₂) = cm_cortx_cmd b₁ in (present api (present cmd (manager_pcs ∷ [])), cm_pcs b₂)

  module _ {ℓ} {A : Type ℓ} (api : Manager → Exec World A) where
    or_else : Result A × State → Exec State A → Result A × State
    or_else (ok a, b) next = (ok a, b)
    or_else (err (not_implemented_error e), b) next = next b
    or_else (err exc, b) next = (err exc, b)

    -- The loop of `_delegate`.
    unfoldable pub try_each : List Manager → Exec State A
    unfolding or_else
    try_each [] b = (err (not_implemented_error "not supported by any of the interfaces"), b)
    try_each (cm ∷ cms) b = or_else (on_world (api cm) b) (try_each cms)

    delegate_to : List Manager → Exec State A
    unfolding try_each
    delegate_to [] b = (err (provisioner_error "no active HA interfaces found"), b)
    delegate_to (cm ∷ cms) b = try_each (cm ∷ cms) b

    -- `_delegate(api)`
    unfoldable pub delegate : Exec State A
    unfolding active_interfaces delegate_to
    delegate b = let (ha_api, b') = active_interfaces b in delegate_to ha_api b'

  -- The attributes that `__init__` sets.
  unfoldable pub broker_cluster_status : Exec State HaClusterStatus
  broker_cluster_status = delegate (cluster_status E)

  unfoldable pub broker_perform : Action → Exec State (Unit {0})
  broker_perform a = delegate (λ cm. perform E cm a)

  unfoldable pub is_offline : Exec State Bool
  is_offline = delegate (λ cm. check_status (cluster_status E cm) (offline ∷ []))

  unfoldable pub is_online : Exec State Bool
  is_online = delegate (λ cm. check_status (cluster_status E cm) (online ∷ []))

  -- Not delegated: the methods of the base class, over the `cluster_status` above.
  unfoldable pub broker_check_status : List HaClusterStatus → Exec State Bool
  broker_check_status = check_status broker_cluster_status

  unfoldable pub is_standby : Exec State Bool
  is_standby = broker_check_status (standby ∷ [])
