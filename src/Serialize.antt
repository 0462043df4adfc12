-- ===== src/Serialize.antt =====
-- serialize.py: values as JSON trees and back.
pub mod Data
pub mod RoundTrip
pub mod Lenient
pub use Data.{Value, nothing, flag, count, words, list, dict, instance_of}
pub use Data.{Values, no_values, and_value, Entries, no_entries, entry}
use cortx_prvsnr.Prelude.{String, ◌==◌, zero, suc, Bool, true, false, if◌then◌else◌}
use cortx_prvsnr.Prelude.Text.{is_empty}
use cortx_prvsnr.Errors.{value_error, prvsnr_type_decode_error}
use cortx_prvsnr.Exec.{Result, ok, err}
use cortx_prvsnr.Fallible.{◌>>=◌}
use cortx_prvsnr.Json.{Json, null, boolean, number, text, array, object, Items, nil, cons}
use cortx_prvsnr.Json.{Fields, end, field}

abbrev pub type_key : String
type_key = "_prvsnr_type_"

-- `if args: res['args'] = args`
given_args : Values → Items → Fields → Fields
given_args no_values items rest = rest
given_args (and_value v vs) items rest = field "args" (array items) rest

given_kwargs : Entries → Fields → Fields
given_kwargs no_entries fs = end
given_kwargs (entry k v es) fs = field "kwargs" (object fs) end

-- `PrvsnrJSONEncoder`: what is no JSON value becomes a dict that names its class.
unfoldable mutual
  unfolding given_args given_kwargs

  pub encode : Value → Json
  encode nothing = null
  encode (flag b) = boolean b
  encode (count n) = number n
  encode (words s) = text s
  encode (list vs) = array (encode_all vs)
  encode (dict es) = object (encode_entries es)
  encode (instance_of m c args kwargs) = object (
      field type_key (array (cons (text m) (cons (text c) nil)))
        (given_args args (encode_all args) (given_kwargs kwargs (encode_entries kwargs))))

  pub encode_all : Values → Items
  encode_all no_values = nil
  encode_all (and_value v vs) = cons (encode v) (encode_all vs)

  pub encode_entries : Entries → Fields
  encode_entries no_entries = end
  encode_entries (entry k v es) = field k (encode v) (encode_entries es)

-- `d.get(key, default)`
unfoldable pub lookup : String → Value → Entries → Value
lookup key default no_entries = default
lookup key default (entry k v es) = lookup key (if k == key then v else default) es

-- `bool(v)`, where an object is true.
unfoldable pub is_true : Value → Bool
unfolding is_empty
is_true nothing = false
is_true (flag b) = b
is_true (count zero) = false
is_true (count (suc n)) = true
is_true (words s) = if is_empty s then false else true
is_true (list no_values) = false
is_true (list (and_value v vs)) = true
is_true (dict no_entries) = false
is_true (dict (entry k v es)) = true
is_true (instance_of m c args kwargs) = true

-- `m_name, cls_name = prvsnr_type`: what can be iterated over and has two items.
unfoldable pub pair : Value → Result (Value × Value)
pair (list (and_value m (and_value c no_values))) = ok (m, c)
pair (dict (entry m v (entry c w no_entries))) = ok (words m, words c)
pair (words (String.◌∷◌ m (String.◌∷◌ c String.[]))) =
    ok (words (String.◌∷◌ m String.[]), words (String.◌∷◌ c String.[]))
pair v = err (value_error "value for _prvsnr_type_ should be an iterable with 2 items")

-- What Python does with the names of a module and of a class in it: it imports the module, looks
-- the class up, and calls its `from_args` with `*args` and `**kwargs`.
abbrev pub Construct : Type 0
Construct = Value → Value → Value → Value → Result Value

module _ (construct : Construct) where
  -- `except Exception`: only the strict hook raises.
  decoded : Bool → Entries → Result Value → Result Value
  decoded strict es (ok v) = ok v
  decoded true es (err e) = err (prvsnr_type_decode_error "failed to decode")
  decoded false es (err e) = ok (dict es)

  -- `json_prvsnr_type_hook`
  unfoldable pub json_prvsnr_type_hook : Bool → Entries → Result Value
  unfolding lookup is_true pair decoded
  json_prvsnr_type_hook strict es =
      let prvsnr_type = lookup type_key nothing es in
      if is_true prvsnr_type
      then decoded strict es (
          pair prvsnr_type >>= λ (m, c).
          construct m c (lookup "args" (list no_values) es) (lookup "kwargs" (dict no_entries) es))
      else ok (dict es)

  -- The tree as `json.loads` goes through it with the hook.
  unfoldable mutual
    unfolding json_prvsnr_type_hook

    pub decode : Bool → Json → Result Value
    decode strict null = ok nothing
    decode strict (boolean b) = ok (flag b)
    decode strict (number n) = ok (count n)
    decode strict (text s) = ok (words s)
    decode strict (array vs) = decode_all strict vs >>= λ found. ok (list found)
    decode strict (object fs) = decode_fields strict fs >>= λ es. json_prvsnr_type_hook strict es

    pub decode_all : Bool → Items → Result Values
    decode_all strict nil = ok no_values
    decode_all strict (cons v vs) =
        decode strict v >>= λ first. decode_all strict vs >>= λ rest. ok (and_value first rest)

    pub decode_fields : Bool → Fields → Result Entries
    decode_fields strict end = ok no_entries
    decode_fields strict (field k v fs) =
        decode strict v >>= λ first. decode_fields strict fs >>= λ rest. ok (entry k first rest)
