-- ===== src/Tests/Certs.antt =====
-- New certificates whose backup or whose states fail.
use cortx_prvsnr.Prelude.{String, ◌≡◌, refl, Bool, true, false, List, [], ◌∷◌, ◌==◌, inr}
use cortx_prvsnr.Prelude.{if◌then◌else◌}
use cortx_prvsnr.Json.{text, null}
use cortx_prvsnr.Errors.{Exception, RollbackError, os_error, salt_cmd_result_error}
use cortx_prvsnr.Errors.{ssl_certs_update_error, no_rollback_error}
use cortx_prvsnr.Exec.{Result, ok, err}
use cortx_prvsnr.Hare.Defs.{Env, cluster_maintenance_enable, cluster_maintenance_disable}
use cortx_prvsnr.Certs.{Ops, Paths, run_certs, set_certs, kind_of, recover}
use cortx_prvsnr.Certs.Laws.{CopyFails, run_certs-left}
use cortx_prvsnr.Certs.Failures.{Broken, run_certs-err}

-- The world is the list of what was done, the last first.
abbrev cluster : Env
cluster = record {
  World = List String;
  cmd_run = λ cmd w. (ok "done", cmd ∷ w);
  cmd_run_background = λ cmd w. (ok "done", cmd ∷ w);
  exists = λ path w. true;
  sleep = λ n w. w;
  show = λ n. "n";
  str = λ j. elim j [ text s ↦ s | _ ↦ "" ];
}

abbrev paths : Paths
paths = record { ssl_certs_file = "/etc/ssl/stx.pem"; dest = "stx.pem"; backup = "old_stx.pem" }

-- The states fail right after the backup.
abbrev broken : List String → Result (Unit {0})
broken [] = ok tt
broken (last ∷ w) =
    if last == "/etc/ssl/stx.pem" then err (salt_cmd_result_error null (text "states")) else ok tt

-- One file cannot be copied, and the states fail the first time or never.
abbrev system : String → Bool → Ops
system unreadable fails = record {
  hare = cluster;
  is_file = λ path w. true;
  copy_to_file_roots = λ source dest w.
      if source == unreadable then (err (os_error source), w) else (ok dest, source ∷ w);
  apply_states = λ states targets w. if fails then (broken w, w) else (ok tt, w);
}

abbrev enabled : List String
enabled = (cluster_maintenance_enable cluster []).1

is_enabled : cluster_maintenance_enable cluster [] ≡ (ok "done", enabled)
unfolding cluster_maintenance_enable
is_enabled = refl

no_backup :
    CopyFails
      (system "/etc/ssl/stx.pem" false)
      paths
      "*"
      "new.pem"
      enabled
      ("new.pem" ∷ enabled)
      (os_error "/etc/ssl/stx.pem")
unfolding CopyFails
no_backup = inr ("stx.pem", "new.pem" ∷ enabled, refl, refl)

run_certs-left_example :
    (x : Exception) × (r : RollbackError) × (run_certs
        (system "/etc/ssl/stx.pem" false)
        paths
        "*"
        "new.pem"
        false
        []
      ≡ (err (ssl_certs_update_error x r), "new.pem" ∷ enabled))
run_certs-left_example =
    run_certs-left (system "/etc/ssl/stx.pem" false) paths "*" "new.pem" [] enabled
      ("new.pem" ∷ enabled) "done" (os_error "/etc/ssl/stx.pem") refl is_enabled no_backup
      (unfold kind_of in refl)

abbrev states_error : Exception
states_error =
    ssl_certs_update_error
      (ssl_certs_update_error (salt_cmd_result_error null (text "states")) no_rollback_error)
      no_rollback_error

abbrev final : List String
final = (run_certs (system "" true) paths "*" "new.pem" false []).1

not_applied : run_certs (system "" true) paths "*" "new.pem" false [] ≡ (err states_error, final)
unfolding run_certs set_certs kind_of recover cluster_maintenance_enable cluster_maintenance_disable
not_applied = refl

run_certs-err_example : Broken (system "" true) paths "*" "new.pem" [] final states_error
run_certs-err_example =
    run_certs-err (system "" true) paths "*" "new.pem" [] final states_error refl not_applied
