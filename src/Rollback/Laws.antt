-- ===== src/Rollback/Laws.antt =====
-- The steps of `SWRollback.run` (sw_rollback.py), by the form of the software list.
use cortx_prvsnr.Prelude.{String, ◌≡◌, ◌≢◌, refl, false, Option, none, some, List, [], ◌∷◌}
use cortx_prvsnr.Prelude.{Bool-cases, inl, inr, arith}
use mathlib.Core.List.{reverse}
use cortx_prvsnr.Prelude.Text.{is_empty}
use cortx_prvsnr.Prelude.Dict.{Dict, lookup}
use cortx_prvsnr.Errors.{sw_rollback_error}
use cortx_prvsnr.Exec.{Result, ok, err, raise, handle, >>=-eq-ok}
use cortx_prvsnr.Rollback.{Ops, UpgradeData, SwList, components, a_list, values_of, rollback_nodes}
use cortx_prvsnr.Rollback.{
  rollback_packages, rollback_components, rollback_all, run_rollback, to_version,
}
use cortx_prvsnr.Rollback.{restore}

-- Every node has a transaction id.
abbrev pub AllKnown : Dict String → Type 0
AllKnown [] = Unit
AllKnown ((target, txn_id) ∷ d) = (is_empty txn_id ≡ false) × AllKnown d

module _ (O : Ops) where
  open O use {
    World, upgrade_data, config_salt_master, config_salt_minions, apply_provisioner_config,
  }

  nodes-ok : (d : Dict String) (w t : World) → rollback_nodes O d w ≡ (ok tt, t) → AllKnown d
  unfolding rollback_nodes
  nodes-ok [] w t h = tt
  nodes-ok ((target, txn_id) ∷ d) w t h = elim (Bool-cases (is_empty txn_id)) [
    | inl empty ↦ ground arith
    | inr known ↦
        let (x, u, done, rest) = >>=-eq-ok (O.yum_rollback txn_id target) _ w (rw known at h) in
        (known, nodes-ok d u t rest)
  ]

  -- The version is there, with a transaction id for each of its nodes.
  rollback_packages-AllKnown :
      (version : String) (snapshots : Dict (Dict String)) (w t : World)
      → is_empty version ≡ false
      → rollback_packages O (some version) snapshots w ≡ (ok tt, t)
      → (ids : Dict String) × (lookup version snapshots ≡ some ids) × AllKnown ids
  unfolding rollback_packages
  rollback_packages-AllKnown version [] w t full h = ground arith
  rollback_packages-AllKnown version (s ∷ ss) w t full h =
      split (lookup version (s ∷ ss)) refl (rw full at h)
    where
      split :
          (o : Option (Dict String))
          → lookup version (s ∷ ss) ≡ o
          → to_version O (lookup version (s ∷ ss)) w ≡ (ok tt, t)
          → (ids : Dict String) × (lookup version (s ∷ ss) ≡ some ids) × AllKnown ids
      split none e done = unfold to_version in ground arith
      split (some ids) e done = (ids, e, nodes-ok ids w t (unfold to_version in rw e at done))

  restore-ok :
      (targets : String) (l : Option SwList) (w t : World)
      → restore O targets (values_of l) w ≡ (ok tt, t)
      → (cs : List String) × (l ≡ some (components cs))
        × (rollback_components O (reverse cs) targets w ≡ (ok tt, t))
  unfolding restore values_of
  restore-ok targets none w t h = ground arith
  restore-ok targets (some (components cs)) w t h = (cs, refl, h)
  restore-ok targets (some (a_list cs)) w t h = ground arith

  -- The steps of a rollback that returns, each with the state that it leads to.
  pub record RolledBack (version : Option String) (targets : String) (w t : World) : Type 0 where
    pub upgrade_dict : UpgradeData
    pub cs : List String
    pub asked : World
    pub older : World
    pub master : World
    pub minions : World
    pub configured : World
    pub data_step : upgrade_data w ≡ (ok upgrade_dict, asked)
    pub dict_step : upgrade_dict.sw_list ≡ some (components cs)
    pub packages_step :
        rollback_packages O version upgrade_dict.yum_snapshots asked ≡ (ok tt, older)
    pub master_step : config_salt_master older ≡ (ok tt, master)
    pub minions_step : config_salt_minions master ≡ (ok tt, minions)
    pub config_step : apply_provisioner_config targets minions ≡ (ok tt, configured)
    pub components_step : rollback_components O (reverse cs) targets configured ≡ (ok tt, t)

  unwrapped :
      (r : Result (Unit {0}) × World) (t : World)
      → handle (λ e. raise (sw_rollback_error e)) r ≡ (ok tt, t)
      → r ≡ (ok tt, t)
  unwrapped (ok x, u) t h = h
  unwrapped (err e, u) t h = ground arith

  -- A rollback that returns has done, in this order and each with success: the rollback of the
  -- packages, the configuration of the salt master, of the minions and of the provisioner, and the
  -- rollback of the components, the last one first. The software list it has read is a dict.
  pub run_rollback-ok :
      (version : Option String) (targets : String) (w t : World)
      → run_rollback O version targets w ≡ (ok tt, t)
      → RolledBack version targets w t
  unfolding run_rollback rollback_all
  run_rollback-ok version targets w t h =
      let (u, a, asked, h₁) = >>=-eq-ok upgrade_data _ w h in
      let all = unwrapped (rollback_all O version targets u a) t h₁ in
      let (x, b, packages, h₂) = >>=-eq-ok (rollback_packages O version u.yum_snapshots) _ a all in
      let (y, c, master, h₃) = >>=-eq-ok config_salt_master _ b h₂ in
      let (z, d, minions, h₄) = >>=-eq-ok config_salt_minions _ c h₃ in
      let (v, e, configured, h₅) = >>=-eq-ok (apply_provisioner_config targets) _ d h₄ in
      let (cs, is_dict, restored) = restore-ok targets u.sw_list e t h₅ in
      record {
        upgrade_dict = u;
        cs = cs;
        asked = a;
        older = b;
        master = c;
        minions = d;
        configured = e;
        data_step = asked;
        dict_step = is_dict;
        packages_step = packages;
        master_step = master;
        minions_step = minions;
        config_step = configured;
        components_step = restored;
      }

  -- Where the pillar has the software as a list, no rollback returns, whatever the version, the
  -- targets and the rest of the system.
  run_rollback-a_list :
      (version : Option String) (targets : String) (w v t : World) (u : UpgradeData)
      (cs : List String)
      → upgrade_data w ≡ (ok u, v)
      → u.sw_list ≡ some (a_list cs)
      → run_rollback O version targets w ≢ (ok tt, t)
  run_rollback-a_list version targets w v t u cs asked is_list h =
      let r = run_rollback-ok version targets w t h in ground (arith, r.data_step, r.dict_step)
