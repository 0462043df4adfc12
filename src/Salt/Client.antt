-- ===== src/Salt/Client.antt =====
-- The calls of the local client, of the caller and of the runner, and the functions over them.
pub mod Plain
pub mod Shown
pub mod Laws
use cortx_prvsnr.Prelude.{String, ◌<>◌, Bool, true, false, Option, none, some, List, [], ◌∷◌}
use cortx_prvsnr.Prelude.{if◌then◌else◌, ◌==◌}
use cortx_prvsnr.Prelude.Text.{is_empty}
use cortx_prvsnr.Errors.{Exception, salt_error, salt_cmd_run_error, salt_no_return_error}
use cortx_prvsnr.Errors.{salt_cmd_result_error, type_error, reason, not_implemented_error}
use cortx_prvsnr.Exec.{Result, ok, err, Exec, pure, raise, lift, handle, ◌>>=◌, ◌>>◌}
use cortx_prvsnr.Json.{Json, null, boolean, number, text, array, object, Items, nil, cons}
use cortx_prvsnr.Json.{Fields, end, field, get, contains_key, put, truthy}
use cortx_prvsnr.Update.{wrapped}
use cortx_prvsnr.Salt.Args.{Call, Targets, pattern, minions, with_targets, view_of, Auth, set_auth}
use cortx_prvsnr.Salt.Results.{Parsed, client_result, caller_result}

-- The salt clients, the runner without and with external credentials, the return code that the caller keeps, the query for the own minion, the
-- credentials of the module.
pub record Env : Type 1 where
  pub World : Type 0
  pub local_client : Call → Exec World Json
  pub caller : Call → Exec World Json
  pub retcode : World → Json
  pub runner_cmd : Call → Exec World Json
  pub runner_cmd_sync : Call → Exec World Json
  pub grains_id : Exec World String
  pub auth : Auth

-- The world and `_local_minion_id`, empty until it is known.
pub record Session (W : Type 0) : Type 0 where
  pub world : W
  pub local_id : String

module _ (E : Env) where
  open E use {World, local_client, caller, retcode, grains_id, auth}

  abbrev pub Command {ℓ} : Type ℓ → Type ℓ
  Command A = Exec (Session World) A

  unfoldable pub on_world {ℓ} : {A : Type ℓ} → Exec World A → Command A
  on_world m s = let (r, w) = m s.world in (r, record s { world = w })

  remembered : String → Command String
  unfolding is_empty
  remembered id s =
      if is_empty id
      then (err (salt_error "Failed to get local minion id"), s)
      else (ok id, record s { local_id = id })

  -- `local_minion_id()`
  unfoldable pub local_minion_id : Command String
  unfolding on_world remembered is_empty
  local_minion_id s =
      if is_empty s.local_id then (on_world grains_id >>= remembered) s else (ok s.local_id, s)

  -- The arguments as the client gets them; the caller has neither targets nor own parameters.
  unfoldable pub prepared : Bool → Call → Call
  unfolding set_auth put
  prepared true call = record call { targets = ""; kw = end; nowait = false }
  prepared false call = record call {
    kw = put "full_return" (boolean true) (set_auth auth call.kw);
  }

  sent : Bool → Call → Command Json
  unfolding on_world
  sent true call = on_world (caller call)
  sent false call = on_world (local_client call)

  parsed : Bool → Call → Json → Command Parsed
  unfolding client_result caller_result
  parsed true call res s = (caller_result call.fun res (retcode s.world), s)
  parsed false call res s = (client_result call.fun res, s)

  unfoldable pub checked : Json → Parsed → Command Json
  unfolding truthy
  checked view p =
      if truthy (object p.fails)
      then raise (salt_cmd_result_error view (object p.fails))
      else pure p.results

  -- `_salt_client_cmd`
  unfoldable pub salt_client_cmd : Bool → Call → Command Json
  unfolding prepared view_of wrapped sent truthy parsed checked
  salt_client_cmd local call =
      let args = prepared local call in
      let view = view_of local args in
      wrapped (salt_cmd_run_error view) (sent local args) >>= λ res.
      if truthy res
      then (if call.nowait then pure res else parsed local args res >>= λ p. checked view p)
      else raise (salt_no_return_error view "Empty salt result")

  -- `function_run` for the targets as they are given.
  unfoldable pub function_run : Bool → Targets → Call → Command Json
  unfolding local_minion_id salt_client_cmd with_targets
  function_run local (pattern t) call =
      (if t == "__local__" then local_minion_id else pure t) >>= λ target.
      salt_client_cmd local (with_targets (pattern target) call)
  function_run local (minions ts) call = salt_client_cmd local (with_targets (minions ts) call)
