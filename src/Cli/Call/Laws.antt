-- ===== src/Cli/Call/Laws.antt =====
-- What the command line shows.
use cortx_prvsnr.Prelude.{String, ◌≡◌, refl, List, [], ◌∷◌, eq_iff, eq_refl, arith}
use cortx_prvsnr.Prelude.Dict.{Dict, insert, delete}
use cortx_prvsnr.Json.{Json}
use cortx_prvsnr.Serialize.{Value, is_true}
use cortx_prvsnr.Cli.Call.{Auth, with_auth, api_call}

delete-insert : (k : String) (v : Value) (d : Dict Value) → delete k (insert k v d) ≡ delete k d
unfolding delete insert
delete-insert k v [] = rw (eq_refl k) refl
delete-insert k v ((j, w) ∷ d) = ground (arith, eq_iff j k, delete-insert k v d)

module _ (json_dumps : Json → String) (str : Value → String) where
  -- The command line is the same for any two passwords that are both set or both not, of the module
  -- and among the arguments of the call: it tells nothing of them.
  pub api_call-password :
      (auth : Auth) (p q given other : Value) (fun : String) (args : List Value)
      (kwargs : Dict Value)
      → is_true p ≡ is_true q
      → let call =
          api_call json_dumps str
            (record auth { password = p })
            fun
            args
            (insert "password" given kwargs) in
        let call_too =
          api_call json_dumps str
            (record auth { password = q })
            fun
            args
            (insert "password" other kwargs) in
        call.command ≡ call_too.command
  unfolding api_call with_auth
  api_call-password auth p q given other fun args kwargs same =
      rw (same, delete-insert "password" given kwargs, delete-insert "password" other kwargs) refl
