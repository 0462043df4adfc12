-- ===== src/Ha/Cluster/Laws.antt =====
-- The calls on the cluster at the end of cortx_ha.py, and the status that they wait for.
use cortx_prvsnr.Prelude.{◌≡◌, ap, Bool, true, false, List, [], ◌∷◌, arith}
use cortx_prvsnr.Errors.{no_more_tries_error}
use cortx_prvsnr.Exec.{Result, ok, err, Exec, >>=-eq-ok}
use cortx_prvsnr.Ensure.{Settings, ensure, ensure_loop, judge, give_up}
use cortx_prvsnr.Ensure.Laws.{ensure-eq-ok, state_at}
use cortx_prvsnr.Ha.Managers.{Env, Manager, HaClusterStatus, online, offline, standby, Action}
use cortx_prvsnr.Ha.Managers.{stop, go_standby, start, unstandby, cluster_status, check_status}
use cortx_prvsnr.Ha.Managers.{is_one_of}
use cortx_prvsnr.Ha.Broker.{State, on_world, broker_perform, is_offline, is_online, is_standby}
use cortx_prvsnr.Ha.Broker.{broker_check_status, broker_cluster_status, delegate}
use cortx_prvsnr.Ha.Broker.Delegate.{delegate-eq-ok}
use cortx_prvsnr.Ha.Cluster.{waiting, pause, cluster_stop, cluster_standby, cluster_start}
use cortx_prvsnr.Ha.Cluster.{cluster_unstandby, is_cluster_healthy}

-- The four calls, by the action that each one starts with.
abbrev pub cluster_call : (E : Env) → Action → Exec (State E) (Unit {0})
cluster_call E stop = cluster_stop E
cluster_call E go_standby = cluster_standby E
cluster_call E start = cluster_start E
cluster_call E unstandby = cluster_unstandby E

-- The statuses that end the wait after an action.
abbrev pub goal : Action → List HaClusterStatus
goal stop = offline ∷ []
goal go_standby = standby ∷ []
goal start = standby ∷ online ∷ []
goal unstandby = online ∷ []

-- `NoMoreTriesError` counts as unhealthy.
abbrev pub demoted : Result Bool → Result Bool
demoted (err (no_more_tries_error e)) = ok false
demoted r = r

module _ (E : Env) where
  -- Some HA interface, asked for the status, gives one of these and leaves this world.
  abbrev pub Reported : List HaClusterStatus → E.World → Type 0
  Reported goals w =
      (cm : Manager) × (v : E.World) × (status : HaClusterStatus) × (cluster_status E cm v
        ≡ (ok status, w))
      × (is_one_of status goals ≡ true)

  ensure-passed :
      (o : Settings) (check : Exec (State E) Bool) (b t : State E)
      → ensure (pause E) o check b ≡ (ok tt, t)
      → (u : State E) × (check u ≡ (ok true, t))
  ensure-passed o check b t h =
      let (k, w, r, p) = (ensure-eq-ok (pause E) o check b t).0 h in
      (state_at (pause E) o check k b, p)

  check_status-passed :
      {W : Type 0} (m : Exec W HaClusterStatus) (goals : List HaClusterStatus) (s t : W)
      → check_status m goals s ≡ (ok true, t)
      → (status : HaClusterStatus) × (m s ≡ (ok status, t)) × (is_one_of status goals ≡ true)
  unfolding check_status
  check_status-passed m goals s t h =
      let (status, u, asked, said) = >>=-eq-ok m _ s h in
      (status, cc, ap (λ (r : Result Bool × _). elim r.0 [ ok x ↦ x | err e ↦ true ]) said)

  on_world-ok {ℓ} :
      {A : Type ℓ} (m : Exec E.World A) (b t : State E) (a : A)
      → on_world E m b ≡ (ok a, t)
      → m b.world ≡ (ok a, t.world)
  on_world-ok m b t a h = cc

  delegated-Reported :
      (goals : List HaClusterStatus) (b t : State E)
      → delegate E (λ cm. check_status (cluster_status E cm) goals) b ≡ (ok true, t)
      → Reported goals t.world
  delegated-Reported goals b t h =
      let (pre, cm, post, u, e, s, answer) =
        (delegate-eq-ok E (λ cm. check_status (cluster_status E cm) goals) b t true).0 h in
      let (status, asked, said) =
        check_status-passed (cluster_status E cm) goals u.world t.world
          (on_world-ok (check_status (cluster_status E cm) goals) u t true answer) in
      (cm, u.world, status, asked, said)

  broker-Reported :
      (goals : List HaClusterStatus) (b t : State E)
      → broker_check_status E goals b ≡ (ok true, t)
      → Reported goals t.world
  unfolding broker_check_status broker_cluster_status
  broker-Reported goals b t h =
      let (status, asked, said) = check_status-passed (delegate E (cluster_status E)) goals b t h in
      let (pre, cm, post, u, e, s, answer) =
        (delegate-eq-ok E (cluster_status E) b t status).0 asked in
      (cm, u.world, status, on_world-ok (cluster_status E cm) u t status answer, said)

  -- A call that returns has done its action, and ends in a state of the cluster that some HA
  -- interface has just reported: offline after a stop, standby after a standby, standby or online
  -- after a start, online after an unstandby.
  pub cluster_call-confirmed :
      (a : Action) (b t : State E)
      → cluster_call E a b ≡ (ok tt, t)
      → (u : State E) × (broker_perform E a b ≡ (ok tt, u)) × Reported (goal a) t.world
  unfolding cluster_stop cluster_standby cluster_start cluster_unstandby is_offline is_online
      is_standby
  cluster_call-confirmed stop b t h =
      let (x, u, done, wait) = >>=-eq-ok (broker_perform E stop) _ b h in
      (
        u,
        done,
        delegated-Reported _ _ t (ensure-passed (waiting "_api_f") (is_offline E) u t wait).1,
      )
  cluster_call-confirmed go_standby b t h =
      let (x, u, done, wait) = >>=-eq-ok (broker_perform E go_standby) _ b h in
      (
        u,
        done,
        broker-Reported _ _ t (ensure-passed (waiting "is_standby") (is_standby E) u t wait).1,
      )
  cluster_call-confirmed start b t h =
      let (x, u, done, wait) = >>=-eq-ok (broker_perform E start) _ b h in
      (u, done, broker-Reported _ _ t (ensure-passed (waiting "_check") _ u t wait).1)
  cluster_call-confirmed unstandby b t h =
      let (x, u, done, wait) = >>=-eq-ok (broker_perform E unstandby) _ b h in
      (
        u,
        done,
        delegated-Reported _ _ t (ensure-passed (waiting "_api_f") (is_online E) u t wait).1,
      )

  -- The health check asks once: it is true exactly when `is_online` is, and false exactly when
  -- `is_online` returns false or raises a `NoMoreTriesError`; any other exception goes through.
  pub is_cluster_healthy_lem :
      (b : State E) → is_cluster_healthy E b ≡ (demoted (is_online E b).0, (is_online E b).1)
  unfolding is_cluster_healthy ensure ensure_loop judge give_up
  is_cluster_healthy_lem b = ground arith
