-- ===== src/Salt/Ssh/Client.antt =====
-- `SaltClientBase` and `SaltSSHClient`: a call of salt-ssh.
use cortx_prvsnr.Prelude.{String, ◌==◌, Bool, true, false, if◌then◌else◌}
use cortx_prvsnr.Errors.{salt_cmd_run_error, salt_no_return_error}
use cortx_prvsnr.Exec.{Exec, pure, raise, lift, ◌>>=◌}
use cortx_prvsnr.Json.{Json, null, boolean, text, Items, nil, cons}
use cortx_prvsnr.Json.{Fields, end, field, put, truthy, is_none}
use cortx_prvsnr.Update.{wrapped}
use cortx_prvsnr.Salt.Args.{Call, Targets, pattern, with_targets}
use cortx_prvsnr.Salt.Args as Args
use cortx_prvsnr.Salt.Client.{Env, Command, local_minion_id, on_world, checked}
use cortx_prvsnr.Salt.Ssh.{ssh_client_result}

-- The client of salt-ssh, the rosters, `copy_id` of ssh.py, and Python's `str`.
pub record Ops (W : Type 0) : Type 0 where
  pub ssh_cmd : Call → Exec W Json
  pub load_yaml : Json → Exec W Json
  pub copy_id : Fields → Exec W (Unit {0})
  pub str : Json → String

-- The attributes of a client.
pub record SshClient : Type 0 where
  pub roster_file : Json
  pub ssh_options : Json

-- The own parameters of a run; `null` is `None`.
pub record Options : Type 0 where
  pub roster : Json
  pub options : Json
  pub raw_shell : Bool

abbrev pub raw : Json → Json → Options
raw roster options = record { roster = roster; options = options; raw_shell = true }

abbrev pub with_roster : Json → Options
with_roster roster = record { roster = roster; options = null; raw_shell = false }

module _ (E : Env) (O : Ops E.World) (C : SshClient) where
  open O use {ssh_cmd, str}

  abbrev pub path_text : Json → Json
  path_text (text t) = text t
  path_text v = text (str v)

  -- The parameters of `run` with those of the client where they are not given.
  unfoldable pub chosen : Options → Fields
  unfolding truthy is_none put
  chosen o =
      let roster = if is_none o.roster then C.roster_file else o.roster in
      let options = if is_none o.options then C.ssh_options else o.options in
      let raw = if o.raw_shell then field "raw_shell" (boolean true) end else end in
      let given = if truthy roster then put "roster_file" (path_text roster) raw else raw in
      if truthy options then put "ssh_options" options given else given

  -- `run` of `SaltClientBase`
  unfoldable pub base_run : Call → Command E Json
  unfolding local_minion_id on_world wrapped truthy ssh_client_result checked Args.as_dict
  base_run call =
      (if call.targets == "__local__" then local_minion_id E else pure call.targets) >>= λ targets.
      let args = record call { targets = targets } in
      let view = Args.as_dict (text targets) end args in
      wrapped (salt_cmd_run_error view) (on_world E (ssh_cmd args)) >>= λ res.
      if truthy res
      then (lift (ssh_client_result str call.fun res) >>= λ p. checked E view p)
      else raise (salt_no_return_error view "Empty salt result")

  -- `run`
  unfoldable pub run : String → String → Items → Fields → Options → Command E Json
  unfolding chosen base_run
  run fun target args kwargs o = base_run (record {
    targets = target;
    fun = fun;
    fun_args = args;
    fun_kwargs = kwargs;
    kw = chosen o;
    nowait = false;
    secure = false;
  })

  unfoldable pub state_apply : String → String → Options → Command E Json
  unfolding run
  state_apply state target o = run "state.apply" target (cons (text state) nil) end o

  unfoldable pub cmd_run : String → String → Options → Command E Json
  unfolding run
  cmd_run cmd target o = run "cmd.run" target (cons (text cmd) nil) end o

  unfoldable pub state_single : String → String → Items → Fields → Options → Command E Json
  unfolding run
  state_single state_fun target args kwargs o =
      run "state.single" target (cons (text state_fun) args) kwargs o
