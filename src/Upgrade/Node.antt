-- ===== src/Upgrade/Node.antt =====
-- `SWUpgradeNode` of commands/upgrade/sw_upgrade_node.py.
use cortx_prvsnr.Prelude.{String, ◌<>◌, Bool, true, false, Option, none, some, List, [], ◌∷◌, ◌==◌}
use cortx_prvsnr.Prelude.{if◌then◌else◌}
use cortx_prvsnr.Prelude.Dict.{Dict}
use cortx_prvsnr.Errors.{value_error, sw_update_error, no_rollback_error}
use cortx_prvsnr.Exec.{Exec, pure, raise, handle, ◌>>=◌, ◌>>◌}
use cortx_prvsnr.Upgrade.Interface.{Ops, Flow, Hook, HookName, pre_upgrade, post_upgrade, node}
use cortx_prvsnr.Upgrade.Interface.{Targets}

unfoldable pub contains : String → List String → Bool
contains x [] = false
contains x (y ∷ ys) = if y == x then true else contains x ys

has_key : String → Dict String → Bool
has_key k [] = false
has_key k ((j, v) ∷ d) = if j == k then true else has_key k d

-- `set(sw_list) - set(sw_data)` is empty.
unfoldable pub all_known : List String → Dict String → Bool
unfolding has_key
all_known [] sw_data = true
all_known (sw ∷ sws) sw_data = if has_key sw sw_data then all_known sws sw_data else false

-- The entries of `sw_data` for the listed software, in the order of `sw_data`.
unfoldable pub select : List String → Dict String → Dict String
unfolding contains
select sw_list [] = []
select sw_list ((sw, base_sls) ∷ d) =
    let rest = select sw_list d in if contains sw sw_list then (sw, base_sls) ∷ rest else rest

module _ (O : Ops) where
  open O use {World, apply_states, pillar_sw_list, pillar_sw_data, hook, cortx_version}
  open O use {swupgrade_version}

  listed : Option (List String) → Exec World (List String)
  listed none = pillar_sw_list
  listed (some sw_list) = pure sw_list

  -- The data of a software is its `base_sls`.
  unfoldable pub plan_upgrade : Option (List String) → Exec World (Dict String)
  unfolding listed all_known select
  plan_upgrade sw = do
    sw_list ← listed sw
    sw_data ← pillar_sw_data
    (if all_known sw_list sw_data
        then pure (select sw_list sw_data)
        else raise (value_error "Unexpected sw to upgrade"))

  unfoldable pub upgrade_sw : String → Targets → Exec World (Unit {0})
  upgrade_sw base_sls targets = apply_states ((base_sls <> ".install") ∷ []) targets

  upgrade_each : Dict String → Targets → Exec World (Unit {0})
  unfolding upgrade_sw
  upgrade_each [] targets = pure tt
  upgrade_each ((sw, base_sls) ∷ d) targets = upgrade_sw base_sls targets >> upgrade_each d targets

  fire : Bool → Hook → Targets → Exec World (Unit {0})
  fire no_hooks h targets = if no_hooks then pure tt else hook h targets

  unfoldable pub upgrade_node : Dict String → Flow → Bool → Targets → Exec World (Unit {0})
  unfolding upgrade_each fire
  upgrade_node sw_data flow no_hooks targets = do
    from_ver ← cortx_version
    to_ver ← swupgrade_version
    let h = λ (name : HookName).
        let r : Hook = record {
          name = name;
          flow = flow;
          level = node;
          from_ver = from_ver;
          to_ver = to_ver;
        } in
        r
    fire no_hooks (h pre_upgrade) targets
    upgrade_each sw_data targets
    fire no_hooks (h post_upgrade) targets

  -- `run`. `validate` and `backup` do nothing in the code.
  unfoldable pub run_node : Flow → Option (List String) → Bool → Targets → Exec World (Unit {0})
  unfolding plan_upgrade upgrade_node
  run_node flow sw no_hooks targets w =
      handle (λ e. raise (sw_update_error e no_rollback_error))
        ((do sw_data ← plan_upgrade sw; upgrade_node sw_data flow no_hooks targets) w)
