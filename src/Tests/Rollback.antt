-- ===== src/Tests/Rollback.antt =====
-- A rollback on a system where the software list is a dict, and on one where it is a list.
use cortx_prvsnr.Prelude.{String, ◌≡◌, refl, some, List, [], ◌∷◌, ◌++◌}
use cortx_prvsnr.Prelude.Text.{is_empty}
use cortx_prvsnr.Prelude.Dict.{Dict}
use cortx_prvsnr.Exec.{ok}
use cortx_prvsnr.Rollback.{
  Ops, UpgradeData, SwList, components, values_of, run_rollback, rollback_all,
}
use cortx_prvsnr.Rollback.{rollback_packages}
use cortx_prvsnr.Rollback.Laws.{RolledBack, run_rollback-ok}

abbrev snapshots : Dict (Dict String)
snapshots = ("1.0", ("srvnode-1", "12") ∷ []) ∷ []

abbrev data_of : SwList → UpgradeData
data_of l = record { yum_snapshots = snapshots; sw_list = some l }

-- The world is what was restored, the last first.
abbrev with_list : SwList → Ops
with_list l = record {
  World = List String;
  upgrade_data = λ w. (ok (data_of l), w);
  yum_rollback = λ txn_id target w. (ok tt, target ∷ w);
  config_salt_master = λ w. (ok tt, w);
  config_salt_minions = λ w. (ok tt, w);
  apply_provisioner_config = λ targets w. (ok tt, w);
  apply_states = λ states targets w. (ok tt, states ++ w);
}

abbrev a_dict : SwList
a_dict = components ("motr" ∷ "hare" ∷ [])

abbrev restored : List String
restored = "motr.rollback" ∷ "hare.rollback" ∷ "srvnode-1" ∷ []

done : run_rollback (with_list a_dict) (some "1.0") "*" [] ≡ (ok tt, restored)
unfolding run_rollback rollback_all rollback_packages is_empty values_of
done = refl

run_rollback-ok_example : RolledBack (with_list a_dict) (some "1.0") "*" [] restored
run_rollback-ok_example = run_rollback-ok (with_list a_dict) (some "1.0") "*" [] restored done

packages_done :
    rollback_packages (with_list a_dict) (some "1.0") snapshots [] ≡ (ok tt, "srvnode-1" ∷ [])
unfolding rollback_packages is_empty
packages_done = refl
