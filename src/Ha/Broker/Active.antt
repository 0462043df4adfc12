-- ===== src/Ha/Broker/Active.antt =====
-- `ClusterManagerBroker.active_interfaces` (cortx_ha.py), by the state of the class attributes.
use cortx_prvsnr.Prelude.{◌≡◌, ◌≢◌, ◌⊎◌, none, some, List, [], ◌∷◌, arith}
use cortx_prvsnr.Errors.{Exception}
use cortx_prvsnr.Exec.{ok, err, Exec}
use cortx_prvsnr.Ha.Managers.{Env, Manager, manager_pcs, manager_cortx_cmd, manager_cortx_api}
use cortx_prvsnr.Ha.Broker.{Broker, missed, made, fresh, State}
use cortx_prvsnr.Ha.Broker.{active_interfaces}

-- The `cortx` tool has been found usable only beside the Python API, whose own attribute is never
-- `MISSED`.
abbrev pub IsSound : {W : Type 0} → Broker W → Type 0
IsSound b = (b.cortx_cmd ≡ made → b.cortx_api ≡ made) × (b.cortx_api ≢ missed)

-- The lists of interfaces that occur.
abbrev pub IsActive : List Manager → Type 0
IsActive cms =
    (cms ≡ manager_pcs ∷ [])
    ⊎ (cms ≡ manager_cortx_api ∷ manager_pcs ∷ [])
    ⊎ (cms ≡ manager_cortx_api ∷ manager_cortx_cmd ∷ manager_pcs ∷ [])

module _ (E : Env) where
  open E use {World, run_subprocess_cmd, cluster_manager}

  -- From every state that keeps the invariant, the interfaces are `pcs` alone, or the Python API
  -- before `pcs` with or without the `cortx` tool between: never the tool without the Python API.
  -- The invariant is kept.
  pub active_interfaces-IsActive :
      (b : State E)
      → IsSound b
      → IsActive (active_interfaces E b).0 × IsSound (active_interfaces E b).1
  unfolding active_interfaces
  active_interfaces-IsActive b h = ground arith

  -- Without the Python API the `cortx` tool is never tried: `pcs` is the only interface, no command
  -- is run to find that out, and a second look finds the same.
  active_without_api :
      (w : World)
      → cluster_manager ≡ none
      → ((active_interfaces E (fresh w)).0 ≡ manager_pcs ∷ [])
        × ((active_interfaces E (fresh w)).1.world ≡ w)
        × (active_interfaces E (active_interfaces E (fresh w)).1 ≡ active_interfaces E (fresh w))
  unfolding active_interfaces
  active_without_api w absent = ground arith

  -- Where the Python API works and the `cortx` tool does not, the first look has the API and
  -- `pcs`; from the second look on the API is gone too.
  active_loses_api :
      (w u v : World) (make : Exec World (Unit {0})) (e : Exception)
      → cluster_manager ≡ some make
      → make w ≡ (ok tt, u)
      → run_subprocess_cmd "cortx --help" u ≡ (err e, v)
      → ((active_interfaces E (fresh w)).0 ≡ manager_cortx_api ∷ manager_pcs ∷ [])
        × ((active_interfaces E (active_interfaces E (fresh w)).1).0 ≡ manager_pcs ∷ [])
  unfolding active_interfaces
  active_loses_api w u v make e found works fails = ground arith
