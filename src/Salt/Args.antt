-- ===== src/Salt/Args.antt =====
-- The arguments of a salt call: `SaltArgsMixin` and its classes, and their view for errors and logs.
use cortx_prvsnr.Prelude.{String, ◌<>◌, Bool, true, false, List, [], ◌∷◌, if◌then◌else◌}
use cortx_prvsnr.Json.{Json, null, text, boolean, array, object, Items, Fields, end, field}
use cortx_prvsnr.Json.{get, contains_key, put, remove, truthy}

-- `targets` as it is given: a text or a sequence of minions.
pub data Targets : Type 0 where
  pattern : String → Targets
  minions : List String → Targets

-- `SaltClientArgs`, and `SaltRunnerArgs` without the targets.
pub record Call : Type 0 where
  pub targets : String
  pub fun : String
  pub fun_args : Items
  pub fun_kwargs : Fields
  pub kw : Fields
  pub nowait : Bool
  pub secure : Bool

-- `'|'.join(targets)`
joined : List String → String
joined [] = ""
joined (t ∷ []) = t
joined (t ∷ u ∷ ts) = t <> "|" <> joined (u ∷ ts)

-- `__attrs_post_init__` of `SaltClientArgsBase`.
unfoldable pub with_targets : Targets → Call → Call
unfolding joined put
with_targets (pattern t) call = record call { targets = t }
with_targets (minions ts) call = record call {
  targets = joined ts;
  kw = put "tgt_type" (text "pcre") call.kw;
}

abbrev pub secret_mask : Json
secret_mask = text "*******"

-- `if 'password' in d: d['password'] = SECRET_MASK`
unfoldable pub masked : Fields → Fields
unfolding contains_key put
masked fs = if contains_key "password" fs then put "password" secret_mask fs else fs

-- `_as_dict()`, without the targets, and with the further fields that the class has.
abbrev pub shown_fields : Fields → Call → Fields
unfolding masked
shown_fields own call = field "fun" (text call.fun) (
    field "fun_args" (if call.secure then secret_mask else array call.fun_args) (
      field "fun_kwargs" (if call.secure then secret_mask else object (masked call.fun_kwargs))
        (field "kw" (object (masked call.kw)) (field "secure" (boolean call.secure) own))))

unfoldable pub as_dict : Json → Fields → Call → Json
unfolding masked
as_dict targets own call = object (field "targets" targets (shown_fields own call))

-- `_as_dict()` of `SaltRunnerArgs`.
unfoldable pub runner_view : Call → Json
unfolding masked
runner_view call = object (shown_fields (field "nowait" (boolean call.nowait) end) call)

-- `_as_dict()` of `SaltCallerArgs`, that has no targets, and of `SaltClientArgs`.
unfoldable pub view_of : Bool → Call → Json
unfolding as_dict
view_of true call = as_dict null end call
view_of false call = as_dict (text call.targets) (field "nowait" (boolean call.nowait) end) call

-- The module's `_eauth`, `_username` and `_password`.
pub record Auth : Type 0 where
  pub eauth : Json
  pub username : Json
  pub password : Json

-- `_set_auth`
unfoldable pub set_auth : Auth → Fields → Fields
unfolding get remove put truthy
set_auth auth kw =
    let eauth = get "eauth" auth.eauth kw in
    let username = get "username" auth.username kw in
    let password = get "password" auth.password kw in
    let rest = remove "password" (remove "username" (remove "eauth" kw)) in
    if truthy username
    then put "password" password (put "username" username (put "eauth" eauth rest))
    else rest
