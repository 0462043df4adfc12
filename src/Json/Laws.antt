-- ===== src/Json/Laws.antt =====
-- The keys of a dict after its changes.
use cortx_prvsnr.Prelude.{String, ◌≡◌, refl, true, false, ◌==◌, if◌then◌else◌, arith, eq_iff}
use cortx_prvsnr.Json.{Json, Fields, end, field, get, contains_key, put, remove}

pub contains_key-remove :
    (k j : String) (fs : Fields)
    → contains_key j (remove k fs) ≡ (if k == j then false else contains_key j fs)
unfolding contains_key remove
contains_key-remove k j end = ground arith
contains_key-remove k j (field i u fs) =
    ground (arith, eq_iff k j, eq_iff i k, eq_iff i j, contains_key-remove k j fs)

pub contains_key-put :
    (k j : String) (v : Json) (fs : Fields)
    → contains_key j (put k v fs) ≡ (if k == j then true else contains_key j fs)
unfolding contains_key put
contains_key-put k j v end = refl
contains_key-put k j v (field i u fs) = ground (
  arith,
  eq_iff k j,
  eq_iff i k,
  eq_iff i j,
  contains_key-put k j v fs,
  contains_key-remove k j fs,
)

pub get-remove :
    (k j : String) (d : Json) (fs : Fields)
    → get j d (remove k fs) ≡ (if k == j then d else get j d fs)
unfolding get remove
get-remove k j d end = ground arith
get-remove k j d (field i u fs) =
    ground (arith, eq_iff k j, eq_iff i k, eq_iff i j, get-remove k j d fs, get-remove k j u fs)

pub get-put :
    (k j : String) (v d : Json) (fs : Fields)
    → get j d (put k v fs) ≡ (if k == j then v else get j d fs)
unfolding get put
get-put k j v d end = refl
get-put k j v d (field i u fs) = ground (
  arith,
  eq_iff k j,
  eq_iff i k,
  eq_iff i j,
  get-put k j v d fs,
  get-put k j v u fs,
  get-remove k j v fs,
  get-remove k j u fs,
  get-remove k j d fs,
)

pub get-absent : (k : String) (d : Json) (fs : Fields) → contains_key k fs ≡ false → get k d fs ≡ d
unfolding get contains_key
get-absent k d end h = refl
get-absent k d (field i u fs) h = ground (arith, get-absent k d fs)
