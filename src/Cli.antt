-- ===== src/Cli.antt =====
-- The output of a command in __main__.py, and its caller in _api_cli.py, who reads it.
pub mod RoundTrip
pub mod Call
use cortx_prvsnr.Prelude.{
  String, ◌<>◌, ◌==◌, Bool, true, false, List, [], ◌∷◌, ◌++◌, Option, none, some,
}
use cortx_prvsnr.Prelude.{if◌then◌else◌}
use cortx_prvsnr.Prelude.Text.{is_empty}
use cortx_prvsnr.Errors.{Exception, provisioner_error, type_error, prvsnr_type_decode_error}
use cortx_prvsnr.Exec.{Result, ok, err}
use cortx_prvsnr.Fallible.{◌>>=◌}
use cortx_prvsnr.Json.{Json}
use cortx_prvsnr.Serialize.{Value, nothing, flag, count, words, list, dict, instance_of}
use cortx_prvsnr.Serialize.{Entries, no_entries, entry, Construct, encode, decode, lookup}

-- What a command does: it returns a value, or it raises an exception object.
pub data Outcome : Type 0 where
  returned : Value → Outcome
  raised : Value → Outcome

-- What its caller gets: the same, or an error of the reading itself.
pub data Answer : Type 0 where
  answer : Outcome → Answer
  failed : Exception → Answer

-- Python's `json`, as text, the objects that the interpreter builds, and which of its values are
-- exceptions.
pub record Python : Type 0 where
  pub json_loads : String → Result Json
  pub json_dumps : Json → String
  pub construct : Construct
  pub is_exception : Value → Bool

-- `prepare_res('json', …)`
unfoldable pub prepare_res : Outcome → Value
prepare_res (returned v) = dict (entry "ret" v no_entries)
prepare_res (raised e) = dict (entry "exc" e no_entries)

-- `if ret is None: ret = ''`
unfoldable pub or_empty : Outcome → Outcome
or_empty (returned nothing) = returned (words "")
or_empty outcome = outcome

-- `key in d`
unfoldable pub contains_entry : String → Entries → Bool
contains_entry key no_entries = false
contains_entry key (entry k v es) =
    let rest = contains_entry key es in if k == key then true else rest

module _ (P : Python) where
  open P use {json_loads, json_dumps, construct, is_exception}

  -- What `main` prints: `print` ends the line.
  unfoldable pub output : Outcome → String
  unfolding encode prepare_res or_empty
  output outcome = json_dumps (encode (prepare_res (or_empty outcome))) <> "\n"

  -- `serialize.loads`
  unfoldable pub loads : Bool → String → Result Value
  unfolding decode
  loads strict s = json_loads s >>= λ tree. decode construct strict tree

  -- `except errors.PrvsnrTypeDecodeError`: what is not known is read as a dict.
  again : String → Result Value → Result Value
  unfolding loads
  again stdout (ok v) = ok v
  again stdout (err (prvsnr_type_decode_error message)) = loads false stdout
  again stdout (err e) = err e

  -- `except Exception`: what cannot be read at all is left `None`.
  value_of : Result Value → Value
  value_of (ok v) = v
  value_of (err e) = nothing

  -- The value in the output.
  unfoldable pub read_output : String → Value
  unfolding loads again is_empty value_of
  read_output stdout =
      value_of (if is_empty stdout then ok (dict no_entries) else again stdout (loads true stdout))

  -- `raise res['exc']`
  thrown : Value → Answer
  thrown e =
      if is_exception e
      then answer (raised e)
      else failed (type_error "exceptions must derive from BaseException")

  unfoldable pub answer_of : Value → Answer
  unfolding lookup contains_entry thrown
  answer_of (dict es) =
      if contains_entry "exc" es
      then thrown (lookup "exc" nothing es)
      else if contains_entry "ret" es
      then answer (returned (lookup "ret" nothing es))
      else failed (provisioner_error "No return data found")
  answer_of v = failed (provisioner_error "Unexpected result")

  -- `process_cli_result`
  unfoldable pub process_cli_result : String → Answer
  unfolding read_output answer_of
  process_cli_result stdout = answer_of (read_output stdout)
