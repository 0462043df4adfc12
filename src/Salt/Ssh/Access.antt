-- ===== src/Salt/Ssh/Access.antt =====
-- The access to targets by their keys, and their python: `ensure_access`, `ensure_python3` and
-- `ensure_ready` of `SaltSSHClient`.
use cortx_prvsnr.Prelude.{String, ◌==◌, Bool, true, false, List, [], ◌∷◌, if◌then◌else◌}
use cortx_prvsnr.Prelude.{Option, none, some}
use cortx_prvsnr.Prelude.Text.{contains}
use cortx_prvsnr.Errors.{Exception, type_error, salt_cmd_result_error}
use cortx_prvsnr.Exec.{Result, ok, err, pure, raise, lift, handle, ◌>>=◌, ◌>>◌}
use cortx_prvsnr.Fallible
use cortx_prvsnr.Json.{Json, null, boolean, number, text, array, object, Items, nil, cons}
use cortx_prvsnr.Json.{Fields, end, field, get, contains_key, truthy, as_dict}
use cortx_prvsnr.Salt.Client.{Env, Command, on_world}
use cortx_prvsnr.Salt.Ssh.Client.{Ops, SshClient, raw, with_roster, run}

-- `k in v`, for a text `k`.
unfoldable pub contains_in : String → Json → Result Bool
unfolding contains_key
contains_in k (text t) = ok (contains t k)
contains_in k (object fs) = ok (contains_key k fs)
contains_in k (array vs) = ok (among vs)
  where
    among : Items → Bool
    among nil = false
    among (cons (text t) vs) = if t == k then true else among vs
    among (cons v vs) = among vs
contains_in k v = err (type_error "argument is not iterable")

-- `exc.cmd_args` and `exc.reason` of a `SaltCmdResultError`.
unfoldable pub refusal : Exception → Option (Json × Json)
refusal (salt_cmd_result_error view reasons) = some (view, reasons)
refusal e = none

-- Whether the reason for the target has the words and the call had a roster, and the `kw` of the
-- call: the reads of the error that both handlers start with.
unfoldable pub cause : String → String → Json → Json → Result (Bool × Fields)
unfolding as_dict get truthy contains_in
cause words target view reasons = Fallible.◌>>=◌ (as_dict reasons) λ by_target.
    Fallible.◌>>=◌ (as_dict view) λ args. Fallible.◌>>=◌ (as_dict (get "kw" null args)) λ kw.
      Fallible.◌>>=◌
        (if truthy (get "roster_file" null kw)
          then contains_in words (get target null by_target)
          else ok false)
        λ found. ok (found, kw)

module _ (E : Env) (O : Ops E.World) (C : SshClient) where
  open O use {load_yaml, copy_id}

  -- `roster.get(target, {})`
  unfoldable pub of_target : Json → String → Command E Fields
  unfolding as_dict get
  of_target roster target =
      lift (as_dict roster) >>= λ targets. lift (as_dict (get target (object end) targets))

  -- The access by the key of the bootstrap roster.
  unfoldable pub inject_key : Json → Json → String → Command E (Unit {0})
  unfolding run of_target get
  inject_key bootstrap roster target =
      run E O C "state.single" target (cons (text "file.directory") nil)
        (field "name" (text "~/.ssh") (field "mode" (number 700) end)) (with_roster bootstrap)
      >> of_target roster target
      >>= λ entry.
          run E O C "state.single" target (cons (text "ssh_auth.present") nil)
            (field "name" null (
              field "user" (get "user" (text "root") entry) (
                field "source" (text "salt://provisioner/files/minions/all/id_rsa_prvsnr.pub")
                  end)))
            (with_roster bootstrap)
          >> pure tt

  -- The access by the key of the roster.
  unfoldable pub copy_key : Json → Json → String → Command E (Unit {0})
  unfolding of_target get on_world
  copy_key options roster target = of_target roster target >>= λ entry. on_world E (
      copy_id (
        field "host" (get "host" null entry) (
          field "user" (get "user" null entry) (
            field "port" (get "port" null entry) (
              field "priv_key_path" (get "priv" null entry) (
                field "ssh_options" options
                  (field "force" (boolean true) (field "target" (text target) end))))))))

  -- `except SaltCmdResultError` of `ensure_access`, for the arguments and the reason of the error.
  unfoldable pub access_refused :
      Json → String → Exception → Option (Json × Json) → Command E (Unit {0})
  unfolding cause get as_dict truthy on_world inject_key copy_key
  access_refused bootstrap target e none = raise e
  access_refused bootstrap target e (some (view, reasons)) =
      lift (cause "Permission denied" target view reasons) >>= λ (denied, kw).
      if denied
      then (on_world E (load_yaml (get "roster_file" null kw)) >>= λ roster.
          if truthy bootstrap
          then inject_key bootstrap roster target
          else copy_key (get "ssh_options" null kw) roster target)
      else raise e

  -- One target of `ensure_access`.
  unfoldable pub access_target : Json → String → Command E (Unit {0})
  unfolding run access_refused refusal
  access_target bootstrap target s =
      handle (λ e. access_refused bootstrap target e (refusal e))
        ((run E O C "uname" target nil end (raw null null) >> pure tt) s)

  unfoldable pub ensure_access : List String → Json → Command E (Unit {0})
  unfolding access_target
  ensure_access [] bootstrap = pure tt
  ensure_access (target ∷ targets) bootstrap =
      access_target bootstrap target >> ensure_access targets bootstrap

  -- `except SaltCmdResultError` of `ensure_python3`: the roster of the call is kept for the targets
  -- that follow.
  unfoldable pub python3_refused : String → Exception → Option (Json × Json) → Command E Json
  unfolding cause get as_dict run
  python3_refused target e none = raise e
  python3_refused target e (some (view, reasons)) =
      lift (cause "not found" target view reasons) >>= λ (missing, kw).
      let roster_file = get "roster_file" null kw in
      if missing
      then (run E O C "yum install -y python3" target nil end
            (raw roster_file (get "ssh_options" null kw))
          >> pure roster_file)
      else raise e

  -- One target of `ensure_python3`, and the roster for the next.
  unfoldable pub python3_target : Json → String → Command E Json
  unfolding run python3_refused refusal
  python3_target roster target s =
      handle (λ e. python3_refused target e (refusal e))
        ((run E O C "python3 --version" target nil end (raw roster null) >> pure roster) s)

  unfoldable pub ensure_python3 : List String → Json → Command E (Unit {0})
  unfolding python3_target
  ensure_python3 [] roster = pure tt
  ensure_python3 (target ∷ targets) roster =
      python3_target roster target >>= λ next. ensure_python3 targets next

  -- `ensure_ready`
  unfoldable pub ensure_ready : List String → Json → Command E (Unit {0})
  unfolding truthy ensure_access ensure_python3
  ensure_ready targets bootstrap =
      (if truthy bootstrap then ensure_python3 targets bootstrap else pure tt)
      >> ensure_access targets bootstrap
      >> (if truthy bootstrap then pure tt else ensure_python3 targets null)
