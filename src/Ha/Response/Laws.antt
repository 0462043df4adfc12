-- ===== src/Ha/Response/Laws.antt =====
-- `ClusterManagerCortxBase.parse_ret` (cortx_ha.py) and the answers that it accepts.
use cortx_prvsnr.Prelude.{String, ◌≡◌, ◌≢◌, refl, ◌==◌, eq_iff, Bool-cases, inl, inr, ap, ◌∙◌}
use cortx_prvsnr.Prelude.Text.{lower}
use cortx_prvsnr.Exec.{Result, ok}
use cortx_prvsnr.Fallible.{>>=-ok}
use cortx_prvsnr.Json.{Json, null, text, object, Fields, get, as_dict, as_str, load_json_str}
use cortx_prvsnr.Ha.Response.{HaResponse, from_raw, parse_ret, check_failed}
use cortx_prvsnr.Ha.Response.{converter_str_lower, status_field, incomplete, respond}

-- The status of an answer: its text under the key `status`, in lower case.
abbrev pub HasStatus : Fields → String → Type 0
HasStatus fs s = (raw : String) × (get "status" null fs ≡ text raw) × (s ≡ lower raw)

load-ok :
    (loads : String → Result Json) (ret v : Json)
    → load_json_str loads ret ≡ ok v
    → (raw : String) × (ret ≡ text raw) × (loads raw ≡ ok v)
unfolding load_json_str
load-ok loads (text raw) v h = (raw, refl, h)
load-ok loads _ v h = cc

dict-ok : (v : Json) (fs : Fields) → as_dict v ≡ ok fs → v ≡ object fs
unfolding as_dict
dict-ok (object fs) gs h = cc
dict-ok _ gs h = cc

lower-ok :
    (v : Json) (s : String)
    → converter_str_lower v ≡ ok s
    → (raw : String) × (v ≡ text raw) × (s ≡ lower raw)
unfolding converter_str_lower as_str
lower-ok (text raw) s h = (raw, refl, cc)
lower-ok _ s h = cc

fields-ok : (fs : Fields) (r : HaResponse) → respond fs ≡ ok r → HasStatus fs r.status
unfolding respond status_field
fields-ok fs r h = elim (Bool-cases (incomplete fs)) [
  | inl yes_incomplete ↦ cc (rw yes_incomplete at h)
  | inr complete ↦
      let (s, low, made) =
        >>=-ok (converter_str_lower (get "status" null fs)) _ _ (rw complete at h) in
      let (raw, is_text, e) = lower-ok _ s low in (raw, is_text, cc)
]

from_raw-ok :
    (loads : String → Result Json) (ret : Json) (r : HaResponse)
    → from_raw loads ret ≡ ok r
    → (raw : String) × (fs : Fields) × (ret ≡ text raw)
      × (loads raw ≡ ok (object fs))
      × HasStatus fs r.status
unfolding from_raw
from_raw-ok loads ret r h =
    let (v, loaded, rest) = >>=-ok (load_json_str loads ret) _ _ h in
    let (fs, is_dict, made) = >>=-ok (as_dict v) _ _ rest in
    let (raw, is_text, e) = load-ok loads ret v loaded in
    (raw, fs, is_text, cc (dict-ok v fs is_dict), fields-ok fs r made)

checked-ok :
    (r resp : HaResponse) → check_failed r ≡ ok resp → (r ≡ resp) × (resp.status ≢ "failed")
unfolding check_failed
checked-ok r resp h = elim (Bool-cases (r.status == "failed")) [
  | inl failed ↦ cc (rw failed at h)
  | inr fine ↦
      let same : r ≡ resp = cc (rw fine at h) in
      (same, λ e. cc ((eq_iff r.status "failed").1 (ap (λ (x : HaResponse). x.status) same ∙ e)))
]

parse-ok :
    (loads : String → Result Json) (ret : Json) (resp : HaResponse)
    → parse_ret loads ret ≡ ok resp
    → (r : HaResponse) × (from_raw loads ret ≡ ok r) × (check_failed r ≡ ok resp)
unfolding parse_ret
parse-ok loads ret resp h = >>=-ok (from_raw loads ret) _ _ h

-- What `parse_ret` accepts is the text of a JSON object with a status that is no failure.
pub parse_ret-accepts :
    (loads : String → Result Json) (ret : Json) (resp : HaResponse)
    → parse_ret loads ret ≡ ok resp
    → (raw : String) × (fs : Fields) × (ret ≡ text raw)
      × (loads raw ≡ ok (object fs))
      × HasStatus fs resp.status
      × (resp.status ≢ "failed")
parse_ret-accepts loads ret resp h =
    let (r, made, checked) = parse-ok loads ret resp h in
    let (raw, fs, is_text, loaded, status) = from_raw-ok loads ret r made in
    let (same, fine) = checked-ok r resp checked in
    (raw, fs, is_text, loaded, rw same at status, fine)
