-- ===== src/Ha/Cluster.antt =====
-- The module's functions: an action on the cluster, and the wait for its effect.
pub mod Laws
use cortx_prvsnr.Prelude.{String, ℕ, Bool, true, false, none, [], ◌∷◌}
use cortx_prvsnr.Errors.{no_more_tries_error}
use cortx_prvsnr.Exec.{Result, ok, err, Exec, ◌>>◌}
use cortx_prvsnr.Ensure.{Settings, ensure}
use cortx_prvsnr.Ha.Managers.{Env, online, standby, stop, go_standby}
use cortx_prvsnr.Ha.Managers.{start, unstandby}
use cortx_prvsnr.Ha.Broker.{State, broker_perform, is_offline, is_online, is_standby}
use cortx_prvsnr.Ha.Broker.{broker_check_status}

-- `ensure(…, tries=20, wait=10)`, and `tries=1` with the default wait for the health check.
abbrev pub waiting : String → Settings
waiting name = record { name = name; tries = 20; wait = 10; expected_exc = none }

abbrev pub once : Settings
once = record { name = "_api_f"; tries = 1; wait = 1; expected_exc = none }

module _ (E : Env) where
  abbrev pub pause : ℕ → State E → State E
  pause n b = record b { world = E.sleep n b.world }

  healthy : Result (Unit {0}) × State E → Result Bool × State E
  healthy (ok _, b) = (ok true, b)
  healthy (err (no_more_tries_error e), b) = (ok false, b)
  healthy (err exc, b) = (err exc, b)

  unfoldable pub is_cluster_healthy : Exec (State E) Bool
  unfolding healthy
  is_cluster_healthy b = healthy (ensure pause once (is_online E) b)

  unfoldable pub cluster_stop : Exec (State E) (Unit {0})
  cluster_stop = do broker_perform E stop; ensure pause (waiting "_api_f") (is_offline E)

  unfoldable pub cluster_standby : Exec (State E) (Unit {0})
  cluster_standby = do
    broker_perform E go_standby
    ensure pause (waiting "is_standby") (is_standby E)

  unfoldable pub cluster_start : Exec (State E) (Unit {0})
  cluster_start = do
    broker_perform E start
    ensure pause (waiting "_check") (broker_check_status E (standby ∷ online ∷ []))

  unfoldable pub cluster_unstandby : Exec (State E) (Unit {0})
  cluster_unstandby = do broker_perform E unstandby; ensure pause (waiting "_api_f") (is_online E)
