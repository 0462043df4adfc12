-- ===== src/Upgrade/Laws.antt =====
-- The steps, the final version and the exceptions of `SWUpgrade.run` (sw_upgrade.py).
use cortx_prvsnr.Prelude.{
  String, ◌≡◌, ◌≢◌, refl, Bool, true, false, Option, none, some, List, [], ◌∷◌, arith,
}
use cortx_prvsnr.Prelude.{◌==◌, eq_iff, if◌then◌else◌, Bool-cases, inl, inr, ap}
use cortx_prvsnr.Prelude.Text.{is_empty}
use cortx_prvsnr.Errors.{Exception, sw_upgrade_error, not_implemented_error}
use cortx_prvsnr.Exec.{Result, ok, err, pure, raise, handle, >>=-eq-ok}
use cortx_prvsnr.Upgrade.Interface.{Ops, Flow, upgrade, upgrade_offline, local_minion}
use cortx_prvsnr.Upgrade.Cluster.{Outcome, completed, run, attempt, upgrade_all, upgrade_here}
use cortx_prvsnr.Upgrade.Cluster.{
  upgrade_cluster, prepare, available, confirm, plan_upgrade, delegate,
}

module _ (O : Ops) where
  open O use {
    World, cluster_standby, cluster_start, cmd_run, list_minions, cortx_version, iso_version,
  }
  open O use {set_release, own_version}

  run-attempt :
      (offline noprepare : Bool) (w t : World) (r : Outcome)
      → run O offline noprepare w ≡ (ok r, t)
      → attempt O noprepare upgrade_offline w ≡ (ok r, t)
  unfolding run
  run-attempt false noprepare w t r h = ground arith
  run-attempt true noprepare w t r h = split (attempt O noprepare upgrade_offline w) h
    where
      split :
          (q : Result Outcome × World)
          → handle (λ x. raise (sw_upgrade_error x)) q ≡ (ok r, t)
          → q ≡ (ok r, t)
      split (ok x, u) p = p
      split (err x, u) p = ground arith

  available-ok :
      (found : Option String) (v : String) (w t : World)
      → available O found w ≡ (ok v, t)
      → (found ≡ some v) × (is_empty v ≡ false)
  unfolding available
  available-ok none v w t h = ground arith
  available-ok (some s) v w t h = elim (Bool-cases (is_empty s)) [
    | inl empty ↦ ground arith
    | inr full ↦ let e : s ≡ v = ground arith in (ap some e, rw e at full)
  ]

  confirm-ok :
      (v : String) (ret r : Outcome) (w t : World)
      → confirm O v ret w ≡ (ok r, t)
      → cortx_version w ≡ (ok v, t)
  unfolding confirm
  confirm-ok v ret r w t h =
      let (x, u, asked, h₁) = >>=-eq-ok cortx_version _ w h in
      elim (Bool-cases (x == v)) [
        | inl same ↦ ground (arith, eq_iff x v)
        | inr other ↦ ground arith
      ]

  plan_upgrade-ok :
      (flow : Flow) (groups : List (List String)) (w t : World)
      → plan_upgrade O flow w ≡ (ok groups, t)
      → (flow ≡ upgrade_offline)
        × (minions : List String) × (list_minions w ≡ (ok minions, t))
        × (groups ≡ minions ∷ [])
  unfolding plan_upgrade
  plan_upgrade-ok upgrade groups w t h = ground arith
  plan_upgrade-ok upgrade_offline groups w t h =
      let (minions, u, listed, h₁) = >>=-eq-ok list_minions _ w h in
      (refl, minions, ground arith, ground arith)

  not-delegate : (flow : Flow) (w t : World) → delegate O flow w ≢ (ok completed, t)
  unfolding delegate
  not-delegate flow w t h =
      let (x, u, ran, h₁) = >>=-eq-ok (cmd_run _ local_minion) _ w h in ground arith

  -- The steps of an upgrade without delegation, with the state after each.
  pub record Upgraded (flow : Flow) (from_ver to_ver : String) (w t : World) : Type 0 where
    pub offline : flow ≡ upgrade_offline
    pub minions : List String
    pub planned : World
    pub standing : World
    pub upgraded : World
    pub started : World
    pub plan_step : list_minions w ≡ (ok minions, planned)
    pub standby_step : cluster_standby planned ≡ (ok tt, standing)
    pub upgrade_step :
        upgrade_cluster O (minions ∷ []) flow from_ver to_ver standing ≡ (ok tt, upgraded)
    pub start_step : cluster_start upgraded ≡ (ok tt, started)
    pub release_step : set_release to_ver started ≡ (ok tt, t)

  -- An upgrade that returns is one to the version of the upgrade ISO, which is not empty, and this
  -- is the version that the last query before the return gives.
  run-version :
      (offline noprepare : Bool) (w t : World) (r : Outcome)
      → run O offline noprepare w ≡ (ok r, t)
      → (v : String) × (w₁ : World) × (w₂ : World) × (u : World) × (iso_version w₁
          ≡ (ok (some v), w₂))
        × (is_empty v ≡ false)
        × (cortx_version u ≡ (ok v, t))
  unfolding attempt
  run-version offline noprepare w t r h =
      let (version, a, asked, h₁) =
        >>=-eq-ok cortx_version _ w (run-attempt offline noprepare w t r h) in
      let (found, b, iso, h₂) = >>=-eq-ok iso_version _ a h₁ in
      let (v, c, there, h₃) = >>=-eq-ok (available O found) _ b h₂ in
      let (x, d, prepared, h₄) =
        >>=-eq-ok (if noprepare then pure tt else prepare O version upgrade_offline) _ c h₃ in
      let (ret, u, upgraded, h₅) = >>=-eq-ok (upgrade_all O upgrade_offline version v) _ d h₄ in
      let (is_found, not_empty) = available-ok found v b c there in
      (v, a, b, u, rw is_found at iso, not_empty, confirm-ok v ret r u t h₅)

  -- How a run ends.
  pub data Ended (offline noprepare : Bool) (w t : World) : Result Outcome → Type 0 where
    refused :
        offline ≡ false
        → t ≡ w
        → Ended offline noprepare w t
            (err (not_implemented_error "Rolling upgrade is not considered for the current moment"))
    confirmed :
        {ret : Outcome} (v : String) (w₁ w₂ u : World)
        → offline ≡ true
        → iso_version w₁ ≡ (ok (some v), w₂)
        → is_empty v ≡ false
        → cortx_version u ≡ (ok v, t)
        → Ended offline noprepare w t (ok ret)
    broken_off :
        {e : Exception}
        → offline ≡ true
        → attempt O noprepare upgrade_offline w ≡ (err e, t)
        → Ended offline noprepare w t (err (sw_upgrade_error e))

  attempted-Ended :
      (noprepare : Bool) (w t : World) (r : Result Outcome) (q : Result Outcome × World)
      → attempt O noprepare upgrade_offline w ≡ q
      → handle (λ x. raise (sw_upgrade_error x)) q ≡ (r, t)
      → run O true noprepare w ≡ (r, t)
      → Ended true noprepare w t r
  attempted-Ended noprepare w t r (ok x, u) done p h =
      let is_r : ok x ≡ r = ground arith in
      let (v, w₁, w₂, u₁, iso, full, asked) = run-version true noprepare w t x (rw (← is_r) at h) in
      rw (← is_r) (confirmed v w₁ w₂ u₁ refl iso full asked)
  attempted-Ended noprepare w t r (err x, u) failed p h =
      let is_r : err (sw_upgrade_error x) ≡ r = ground arith in
      let is_t : u ≡ t = ground arith in rw (← is_r) (broken_off refl (rw is_t at failed))

  -- A run of the upgrade ends in one of three ways. A rolling upgrade is always refused with a
  -- `NotImplementedError`, before anything is done. An offline upgrade that returns has found the
  -- version of the upgrade ISO, which is not empty, and this is the version that the last query
  -- before the return gives. Any other exception that breaks an offline upgrade off is raised
  -- again as an `SWUpgradeError` from it, in the state where it broke off.
  pub run-Ended :
      (offline noprepare : Bool) (w t : World) (r : Result Outcome)
      → run O offline noprepare w ≡ (r, t)
      → Ended offline noprepare w t r
  unfolding run
  run-Ended false noprepare w t r h =
      let is_r : err
            (not_implemented_error "Rolling upgrade is not considered for the current moment")
          ≡ r =
        ground arith in
      rw (← is_r) (refused refl (ground arith))
  run-Ended true noprepare w t r h =
      attempted-Ended noprepare w t r (attempt O noprepare upgrade_offline w) refl h h

  upgrade_here-completed :
      (flow : Flow) (from_ver to_ver : String) (w t : World)
      → upgrade_here O flow from_ver to_ver w ≡ (ok completed, t)
      → Upgraded flow from_ver to_ver w t
  unfolding upgrade_here
  upgrade_here-completed flow from_ver to_ver w t h =
      let (groups, b, planned, h₁) = >>=-eq-ok (plan_upgrade O flow) _ w h in
      let (x, c, stood, h₂) = >>=-eq-ok cluster_standby _ b h₁ in
      let (y, d, upgraded, h₃) = >>=-eq-ok (upgrade_cluster O groups flow from_ver to_ver) _ c h₂ in
      let (z, e, started, h₄) = >>=-eq-ok cluster_start _ d h₃ in
      let (u, f, released, h₅) = >>=-eq-ok (set_release to_ver) _ e h₄ in
      let (offline, minions, listed, one_group) = plan_upgrade-ok flow groups w b planned in
      record {
        offline = offline;
        minions = minions;
        planned = b;
        standing = c;
        upgraded = d;
        started = e;
        plan_step = listed;
        standby_step = stood;
        upgrade_step = rw one_group at upgraded;
        start_step = started;
        release_step = ground (arith, released);
      }

  -- An upgrade that was not delegated and has returned was offline, ran in the version that the
  -- installed provisioner has, and did, in this order and each with success: the list of all
  -- minions, the standby of the cluster, the upgrade of these minions as one group between the
  -- hooks, the start of the cluster, and the update of the release.
  pub upgrade_all-completed :
      (flow : Flow) (from_ver to_ver : String) (w t : World)
      → upgrade_all O flow from_ver to_ver w ≡ (ok completed, t)
      → (w₁ : World) × (cmd_run "provisioner --version" local_minion w ≡ (ok own_version, w₁))
        × Upgraded flow from_ver to_ver w₁ t
  unfolding upgrade_all
  upgrade_all-completed flow from_ver to_ver w t h =
      let (v, a, asked, h₁) = >>=-eq-ok (cmd_run "provisioner --version" local_minion) _ w h in
      elim (Bool-cases (v == own_version)) [
        | inl same ↦ (
          a,
          rw ((eq_iff v own_version).0 same) at asked,
          upgrade_here-completed flow from_ver to_ver a t (rw same at h₁),
        )
        | inr other ↦ absurd (not-delegate flow a t (rw other at h₁))
      ]
