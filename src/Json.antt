-- ===== src/Json.antt =====
-- JSON values as Python holds them: answers of SaltStack and of HA interfaces, and metadata of lock
-- files.
pub mod Values
pub mod Laws
pub use Values.{Json, null, boolean, number, text, array, object, Items, nil, cons}
pub use Values.{Fields, end, field}
use cortx_prvsnr.Prelude.{ℕ, zero, suc, String, Bool, true, false, ◌==◌, if◌then◌else◌}
use cortx_prvsnr.Prelude.Text.{is_empty}
use cortx_prvsnr.Errors.{attribute_error, type_error}
use cortx_prvsnr.Exec.{Result, ok, err}

-- `d.get(key, default)`; a repeated key has its last value.
unfoldable pub get : String → Json → Fields → Json
get key default end = default
get key default (field k v fs) = get key (if k == key then v else default) fs

-- `key in d`
unfoldable pub contains_key : String → Fields → Bool
contains_key key end = false
contains_key key (field k v fs) = let rest = contains_key key fs in if k == key then true else rest

-- `del d[key]`
unfoldable pub remove : String → Fields → Fields
remove key end = end
remove key (field k u fs) = let rest = remove key fs in if k == key then rest else field k u rest

-- `d[key] = v`: a key that is there keeps its place, and is there once.
unfoldable pub put : String → Json → Fields → Fields
unfolding remove
put key v end = field key v end
put key v (field k u fs) =
    let rest = put key v fs in if k == key then field k v (remove key fs) else field k u rest

-- `bool(v)`
unfoldable pub truthy : Json → Bool
unfolding is_empty
truthy null = false
truthy (boolean b) = b
truthy (number zero) = false
truthy (number (suc n)) = true
truthy (text s) = if is_empty s then false else true
truthy (array nil) = false
truthy (array (cons v vs)) = true
truthy (object end) = false
truthy (object (field k v fs)) = true

-- `v is None`
unfoldable pub is_none : Json → Bool
is_none null = true
is_none (boolean b) = false
is_none (number n) = false
is_none (text s) = false
is_none (array vs) = false
is_none (object fs) = false

-- The receiver of a call of `.get`.
unfoldable pub as_dict : Json → Result Fields
as_dict (object fs) = ok fs
as_dict _ = err (attribute_error "'get'")

-- The receiver of a call of `.lower`.
unfoldable pub as_str : Json → Result String
as_str (text s) = ok s
as_str _ = err (attribute_error "'lower'")

-- `load_json_str(data)`: `json.loads` takes a text, which `loads` decodes, and refuses other types.
unfoldable pub load_json_str : (String → Result Json) → Json → Result Json
load_json_str loads (text s) = loads s
load_json_str loads _ = err (type_error "the JSON object must be str, bytes or bytearray")
