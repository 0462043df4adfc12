-- ===== src/Ha/Managers/Laws.antt =====
-- `ClusterManagerCortxCmd` (cortx_ha.py): the answer of the `cortx` tool.
use cortx_prvsnr.Prelude.{String, ◌≡◌}
use cortx_prvsnr.Errors.{type_error}
use cortx_prvsnr.Exec.{ok, err}
use cortx_prvsnr.Json.{object, Fields}
use cortx_prvsnr.Ha.Response.{parse_ret}
use cortx_prvsnr.Ha.Managers.{Env, manager_cortx_cmd, stop}
use cortx_prvsnr.Ha.Managers.{perform}

module _ (E : Env) where
  open E use {World, cmd_run, loads}

  -- The `cortx` tool answers with a JSON object, as `from_raw` wants it: then each action that the
  -- manager over this tool supports raises a `TypeError` after the command, since the answer is
  -- decoded twice.
  perform-decodes_twice :
      (w u : World) (out : String) (fs : Fields)
      → cmd_run "cortx cluster stop" w ≡ (ok out, u)
      → loads out ≡ ok (object fs)
      → perform E manager_cortx_cmd stop w
        ≡ (err (type_error "the JSON object must be str, bytes or bytearray"), u)
  unfolding perform parse_ret
  perform-decodes_twice w u out fs ran decoded = rw (ran, decoded)
