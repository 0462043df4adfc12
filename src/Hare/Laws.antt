-- ===== src/Hare/Laws.antt =====
-- `r2_cluster_stop` and `consul_export` (hare.py).
use cortx_prvsnr.Prelude.{ℕ, String, Option, none, some, refl, ◌≡◌, true, arith}
use cortx_prvsnr.Prelude.Text.{contains}
use cortx_prvsnr.Exec.{Result, ok, err, >>=-eq-ok}
use cortx_prvsnr.Ensure.Laws.{ensure-eq-ok, state_at}
use cortx_prvsnr.Hare.Defs.{Env, cluster_stop, check_cluster_is_offline, settings}
use cortx_prvsnr.Hare.Defs.{r2_cluster_stop, consul_export, exported}

module _ (E : Env) where
  open E use {World, cmd_run}

  offline-true :
      (u t : World)
      → check_cluster_is_offline E u ≡ (ok true, t)
      → (out : String) × (cmd_run "pcs status" u ≡ (ok out, t)) × (contains out "OFFLINE:" ≡ true)
  unfolding check_cluster_is_offline
  offline-true u t h =
      let (out, v, asked, said) = >>=-eq-ok (cmd_run "pcs status") _ u h in
      (out, ground (arith, asked), ground arith)

  -- A stop of the cluster that returns has given the stop command, and ends with a `pcs status`
  -- whose output says `OFFLINE:`, whatever the number of tries.
  r2_cluster_stop-offline :
      (tries wait : ℕ) (w t : World)
      → r2_cluster_stop E tries wait w ≡ (ok tt, t)
      → (stopped u : World) × (said out : String) × (cmd_run "pcs cluster stop --all" w
          ≡ (ok said, stopped))
        × (cmd_run "pcs status" u ≡ (ok out, t))
        × (contains out "OFFLINE:" ≡ true)
  unfolding r2_cluster_stop cluster_stop
  r2_cluster_stop-offline tries wait w t h =
      let (said, stopped, done, waited) = >>=-eq-ok (cmd_run "pcs cluster stop --all") _ w h in
      let o = settings E "check_cluster_is_offline" tries wait in
      let (k, bound, retried, passed) =
        (ensure-eq-ok E.sleep o (check_cluster_is_offline E) stopped t).0 waited in
      let u = state_at E.sleep o (check_cluster_is_offline E) k stopped in
      let (out, asked, offline) = offline-true u t passed in
      (stopped, u, said, out, done, asked, offline)

  exported-no_fail :
      (r : Result String × World) → (x : Option String) × ((exported E true r).0 ≡ ok x)
  unfolding exported
  exported-no_fail (ok out, w) = (some out, refl)
  exported-no_fail (err e, w) = (none, refl)

  -- With `no_fail` the export of the consul store never raises, whatever the commands do.
  pub consul_export-no_fail :
      (out_file : String) (w : World)
      → (r : Option String) × ((consul_export E out_file true w).0 ≡ ok r)
  unfolding consul_export
  consul_export-no_fail out_file w = exported-no_fail _
