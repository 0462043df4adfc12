-- ===== src/Ha/Response.antt =====
-- `HAResponse.from_raw` and `ClusterManagerCortxBase.parse_ret`.
pub mod Laws
use cortx_prvsnr.Prelude.{String, ◌<>◌, Bool, ◌||◌, ◌==◌}
use cortx_prvsnr.Prelude.{if◌then◌else◌}
use cortx_prvsnr.Prelude.Text.{lower, contains}
use cortx_prvsnr.Errors.{Exception, attribute_error, value_error, provisioner_error}
use cortx_prvsnr.Errors.{not_implemented_error}
use cortx_prvsnr.Exec.{Result, ok, err}
use cortx_prvsnr.Fallible.{◌>>=◌}
use cortx_prvsnr.Json.{Json, null, text, Fields, get, truthy, is_none, as_dict, as_str}
use cortx_prvsnr.Json.{load_json_str}

pub record HaResponse : Type 0 where
  pub status : String
  pub output : Json
  pub error : Json

-- `converter_str_lower`
converter_str_lower : Json → Result String
unfolding lower as_str
converter_str_lower value = do s ← as_str value; ok (lower s)

-- The fields of an answer, an absent one as `None`; older versions have `msg` and no `error`.
status_field : Fields → Json
unfolding get
status_field res = get "status" null res

output_field : Fields → Json
unfolding get
output_field res = get "output" (get "msg" null res) res

error_field : Fields → Json
unfolding get
error_field res = get "error" (text "") res

-- Some value is missed. A status that is no `HACmdResult` is only logged.
incomplete : Fields → Bool
unfolding is_none status_field output_field error_field
incomplete res =
    is_none (status_field res) || is_none (output_field res) || is_none (error_field res)

-- `cls(**_res)`, once the values are there.
respond : Fields → Result HaResponse
unfolding incomplete converter_str_lower
respond res =
    if incomplete res then err (value_error "keys are missed in Cortx HA response") else do
      status ← converter_str_lower (status_field res)
      ok (record { status = status; output = output_field res; error = error_field res })

unfoldable pub from_raw : (String → Result Json) → Json → Result HaResponse
unfolding load_json_str as_dict respond
from_raw loads raw = do loaded ← load_json_str loads raw; res ← as_dict loaded; respond res

-- What `parse_ret` raises for a failed command: `error.lower()` needs a text.
failure : Json → Exception
unfolding lower
failure (text error) =
    if contains (lower error) "is not implemented"
    then not_implemented_error error
    else provisioner_error ("HA command failed with error: '" <> error <> "'")
failure _ = attribute_error "'lower'"

check_failed : HaResponse → Result HaResponse
unfolding failure truthy
check_failed resp =
    if resp.status == "failed"
    then err (failure (if truthy resp.error then resp.error else resp.output))
    else ok resp

unfoldable pub parse_ret : (String → Result Json) → Json → Result HaResponse
unfolding from_raw check_failed
parse_ret loads ret = do resp ← from_raw loads ret; check_failed resp
