-- ===== src/Salt/Functions.antt =====
-- The functions of salt that the program calls, each as a call of `function_run`.
pub mod Laws
use package.text.Mathlib.Text.{starts_with}
use cortx_prvsnr.Prelude.{String, ◌<>◌, ◌==◌, zero, suc, Bool, true, false, List, [], ◌∷◌}
use cortx_prvsnr.Prelude.{Option, none, some, if◌then◌else◌, ◌&&◌}
use cortx_prvsnr.Errors.{Exception, type_error, value_error}
use cortx_prvsnr.Exec.{Result, ok, err, pure, raise, lift, ◌>>=◌, ◌>>◌}
use cortx_prvsnr.Fallible
use cortx_prvsnr.Json.{Json, null, boolean, number, text, array, object, Items, nil, cons}
use cortx_prvsnr.Json.{Fields, end, field, put, as_dict}
use cortx_prvsnr.Validator.Paths.{join}
use cortx_prvsnr.Salt.Args.{Call, Targets, pattern}
use cortx_prvsnr.Salt.Client.{Env, Session, Command, function_run}
use cortx_prvsnr.Salt.Runner.{salt_runner_cmd}

-- The keywords that a function passes on to `function_run`.
pub record Keywords : Type 0 where
  pub local : Bool
  pub nowait : Bool
  pub secure : Bool
  pub kw : Fields

abbrev pub call_of : String → Items → Fields → Keywords → Call
call_of fun args kwargs k = record {
  targets = "";
  fun = fun;
  fun_args = args;
  fun_kwargs = kwargs;
  kw = k.kw;
  nowait = k.nowait;
  secure = k.secure;
}

abbrev pub no_keywords : Keywords
no_keywords = record { local = false; nowait = false; secure = false; kw = end }

-- `v == True`, of what can be in a set; a dict or a list cannot.
unfoldable pub member_true : Json → Result Bool
member_true (boolean b) = ok b
member_true (number (suc zero)) = ok true
member_true (array vs) = err (type_error "unhashable type: 'list'")
member_true (object fs) = err (type_error "unhashable type: 'dict'")
member_true v = ok false

all_true : Fields → Result Bool
unfolding member_true
all_true end = ok true
all_true (field target v fs) =
    Fallible.◌>>=◌ (member_true v) λ first. Fallible.◌>>=◌ (all_true fs) λ rest. ok (first && rest)

-- `set(res.values()) == {True}`
unfoldable pub only_true : Fields → Result Bool
unfolding all_true
only_true end = ok false
only_true (field target v fs) = all_true (field target v fs)

module _ (E : Env) where
  unfoldable pub pillar_get : Targets → Keywords → Command E Json
  unfolding function_run
  pillar_get targets k = function_run E k.local targets (call_of "pillar.items" nil end k)

  unfoldable pub pillar_refresh : Targets → Keywords → Command E Json
  unfolding function_run
  pillar_refresh targets k =
      function_run E k.local targets (call_of "saltutil.refresh_pillar" nil end k)

  unfoldable pub ping : Targets → Keywords → Command E Json
  unfolding function_run
  ping targets k = function_run E k.local targets (call_of "test.ping" nil end k)

  -- `cmd_run`: whether it goes on in the background is an argument of the function, the timeout
  -- one of salt.
  unfoldable pub cmd_run : String → Targets → Bool → Json → Fields → Keywords → Command E Json
  unfolding function_run put
  cmd_run cmd targets background timeout kwargs k = function_run E k.local targets (
      call_of "cmd.run" (cons (text cmd) nil) (put "bg" (boolean background) kwargs)
        (record k { kw = put "timeout" timeout k.kw }))

  -- `sls_exists`, with its summary
  unfoldable pub sls_exists : String → Targets → Keywords → Command E Bool
  unfolding function_run as_dict only_true
  sls_exists state targets k =
      function_run E k.local targets (call_of "state.sls_exists" (cons (text state) nil) end k)
      >>= λ res. lift (as_dict res) >>= λ found. lift (only_true found)

  unfoldable pub state_apply : String → Targets → Keywords → Command E Json
  unfolding function_run
  state_apply state targets k =
      function_run E k.local targets (call_of "state.apply" (cons (text state) nil) end k)

  -- The loop of `states_apply`, with the results so far.
  unfoldable pub states_applied : List String → Targets → Keywords → Fields → Command E Fields
  unfolding state_apply put
  states_applied [] targets k ret = pure ret
  states_applied (state ∷ states) targets k ret =
      state_apply state targets k >>= λ res. states_applied states targets k (put state res ret)

  -- `states_apply`
  unfoldable pub states_apply : List String → Targets → Keywords → Command E Fields
  unfolding states_applied
  states_apply states targets k = states_applied states targets k end

  -- `StatesApplier.apply`: `None` where there is nothing to do.
  unfoldable pub apply : List String → Targets → Keywords → Command E (Option Fields)
  unfolding states_apply
  apply [] targets k = pure none
  apply (state ∷ states) targets k =
      states_apply (state ∷ states) targets k >>= λ ret. pure (some ret)

  -- `state_fun_execute`, and `StateFunExecuter.execute`
  unfoldable pub state_fun_execute : String → Targets → Items → Fields → Keywords → Command E Json
  unfolding function_run
  state_fun_execute state_fun targets args kwargs k =
      function_run E k.local targets
        (call_of "state.single" (cons (text state_fun) args) kwargs (record k { nowait = false }))

  -- `copy_to_file_roots`, with the queries of a path and `pathlib`'s `parent`, for a destination
  -- that is relative to the file root.
  unfoldable pub copy_to_file_roots :
      (String → Bool)
      → (String → Bool)
      → (String → String)
      → String
      → String
      → String
      → Command E String
  unfolding join state_fun_execute salt_runner_cmd
  copy_to_file_roots exists is_dir parent source sub_path file_root =
      let dest = join file_root sub_path in
      if exists source
      then ((if is_dir source
            then state_fun_execute "cmd.run" (pattern "__local__") nil
                (field "name"
                  (text (
                    "mkdir -p "
                    <> parent dest
                    <> " && rm -rf "
                    <> dest
                    <> " && cp -R "
                    <> source
                    <> " "
                    <> dest))
                  end)
                no_keywords
            else state_fun_execute "file.managed" (pattern "__local__") nil
                (field "source" (text source)
                  (field "name" (text dest) (field "makedirs" (boolean true) end)))
                no_keywords)
          >> salt_runner_cmd E (
              call_of "fileserver.clear_file_list_cache" nil (field "backend" (text "roots") end)
                no_keywords)
          >> pure dest)
      else raise (value_error (source <> " not found"))
