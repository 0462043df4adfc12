-- ===== src/Cli/Call.antt =====
-- The command line that a call of the API becomes in _api_cli.py.
pub mod Laws
use cortx_prvsnr.Prelude.{String, ◌<>◌, Bool, true, false, List, [], ◌∷◌, ◌++◌, Option, none, some}
use cortx_prvsnr.Prelude.{if◌then◌else◌, ◌&&◌}
use cortx_prvsnr.Prelude.Text.{dashed}
use cortx_prvsnr.Prelude.Dict.{Dict, insert, delete}
use cortx_prvsnr.Json.{Json}
use cortx_prvsnr.Serialize.{Value, nothing, flag, count, words, list, dict, instance_of}
use cortx_prvsnr.Serialize.{encode, is_true}

-- The module's `_eauth`, `_username` and `_password`.
pub record Auth : Type 0 where
  pub eauth : Value
  pub username : Value
  pub password : Value

-- The arguments of `subprocess.run`: the command and its input.
pub record Process : Type 0 where
  pub command : List String
  pub input : Option Value

-- `json.dumps`, and Python's `str` of the values that are no texts or containers.
module _ (json_dumps : Json → String) (str : Value → String) where
  unfoldable pub value_to_str : Value → String
  unfolding encode
  value_to_str nothing = "PRVSNR_NONE"
  value_to_str (words s) = s
  value_to_str (list vs) = json_dumps (encode (list vs))
  value_to_str (dict es) = json_dumps (encode (dict es))
  value_to_str v = str v

  -- What a keyword becomes: a flag that is not set is left out.
  unfoldable pub option_args : String → Value → List String
  unfolding value_to_str dashed
  option_args key (flag b) = if b then ("--" <> dashed key) ∷ [] else []
  option_args key v = ("--" <> dashed key <> "=" <> value_to_str v) ∷ []

  all_options : Dict Value → List String
  unfolding option_args
  all_options [] = []
  all_options ((key, v) ∷ kwargs) = option_args key v ++ all_options kwargs

  positional : List Value → List String
  unfolding value_to_str
  positional [] = []
  positional (v ∷ vs) = value_to_str v ∷ positional vs

  -- `api_args_to_cli`
  unfoldable pub api_args_to_cli : String → List Value → Dict Value → List String
  unfolding all_options positional
  api_args_to_cli fun args kwargs = fun ∷ (all_options kwargs ++ positional args)

  -- The credentials of the module stand for those that are given: the password goes by the input.
  unfoldable pub with_auth : Auth → Dict Value → Dict Value
  unfolding delete insert is_true
  with_auth auth kwargs =
      let rest = delete "eauth" (delete "username" (delete "password" kwargs)) in
      if is_true auth.username && is_true auth.password
      then insert "eauth" auth.eauth
          (insert "password" (words "-") (insert "username" auth.username rest))
      else rest

  log_options : Dict Value → Dict Value
  unfolding insert
  log_options kwargs = insert "rsyslog-formatter" (words "full") (
      insert "rsyslog-level" (words "DEBUG")
        (insert "rsyslog" (flag true) (insert "noconsole" (flag true) kwargs)))

  -- `_api_call`, up to the run of the process
  unfoldable pub api_call : Auth → String → List Value → Dict Value → Process
  unfolding with_auth log_options api_args_to_cli is_true
  api_call auth fun args kwargs = record {
    command = "provisioner" ∷ api_args_to_cli fun args (log_options (with_auth auth kwargs));
    input = if is_true auth.username && is_true auth.password then some auth.password else none;
  }
