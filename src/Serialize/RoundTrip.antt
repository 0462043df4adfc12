-- ===== src/Serialize/RoundTrip.antt =====
-- Values that can be sent, and their way through the encoder and the hook.
use cortx_prvsnr.Prelude.{ℕ, String, ◌≡◌, refl, Bool, false}
use cortx_prvsnr.Exec.{ok}
use cortx_prvsnr.Serialize.{Value, nothing, flag, count, words, list, dict, instance_of}
use cortx_prvsnr.Serialize.{Values, no_values, and_value, Entries, no_entries, entry}
use cortx_prvsnr.Serialize.{encode, encode_all, encode_entries, decode, decode_all, decode_fields}
use cortx_prvsnr.Serialize.{Construct, type_key, lookup, is_true, pair, json_prvsnr_type_hook}

-- A dict that does not look like an object.
abbrev pub Unmarked : Entries → Type 0
Unmarked es = is_true (lookup type_key nothing es) ≡ false

module _ (construct : Construct) where
  -- Every object in the value is built again from its arguments, and no dict looks like one.
  mutual
    pub data Sendable : Value → Type 0 where
      nothing_sent : Sendable nothing
      flag_sent : {b : Bool} → Sendable (flag b)
      count_sent : {n : ℕ} → Sendable (count n)
      words_sent : {s : String} → Sendable (words s)
      list_sent : {vs : Values} → AllSendable vs → Sendable (list vs)
      dict_sent : {es : Entries} → EntriesSendable es → Unmarked es → Sendable (dict es)
      object_sent :
          {m c : String} {args : Values} {kwargs : Entries}
          → AllSendable args
          → EntriesSendable kwargs
          → Unmarked kwargs
          → construct (words m) (words c) (list args) (dict kwargs)
            ≡ ok (instance_of m c args kwargs)
          → Sendable (instance_of m c args kwargs)

    pub data AllSendable : Values → Type 0 where
      none_sent : AllSendable no_values
      one_sent :
          {v : Value} {vs : Values} → Sendable v → AllSendable vs → AllSendable (and_value v vs)

    pub data EntriesSendable : Entries → Type 0 where
      no_entry_sent : EntriesSendable no_entries
      entry_sent :
          {k : String} {v : Value} {es : Entries}
          → Sendable v
          → EntriesSendable es
          → EntriesSendable (entry k v es)

  mutual
    unfolding decode encode json_prvsnr_type_hook pair

    value_arrives :
        (strict : Bool) (v : Value) → Sendable v → decode construct strict (encode v) ≡ ok v
    value_arrives strict v nothing_sent = refl
    value_arrives strict v flag_sent = refl
    value_arrives strict v count_sent = refl
    value_arrives strict v words_sent = refl
    value_arrives strict (list vs) (list_sent p) = rw (values_arrive strict vs p) refl
    value_arrives strict (dict es) (dict_sent p q) = rw (entries_arrive strict es p, q) refl
    value_arrives strict (instance_of m c no_values no_entries) (object_sent p q r built) =
        rw built refl
    value_arrives strict (instance_of m c (and_value v vs) no_entries) (object_sent p q r built) =
        rw (values_arrive strict (and_value v vs) p, built) refl
    value_arrives strict (instance_of m c no_values (entry k v es)) (object_sent p q r built) =
        rw (entries_arrive strict (entry k v es) q, r, built) refl
    value_arrives strict (instance_of m c (and_value v vs) (entry k w es))
          (object_sent p q r built) =
        rw
          (
            values_arrive strict (and_value v vs) p,
            entries_arrive strict (entry k w es) q,
            r,
            built,
          )
          refl

    values_arrive :
        (strict : Bool) (vs : Values)
        → AllSendable vs
        → decode_all construct strict (encode_all vs) ≡ ok vs
    values_arrive strict no_values none_sent = refl
    values_arrive strict (and_value v vs) (one_sent p q) =
        rw (value_arrives strict v p, values_arrive strict vs q) refl

    entries_arrive :
        (strict : Bool) (es : Entries)
        → EntriesSendable es
        → decode_fields construct strict (encode_entries es) ≡ ok es
    entries_arrive strict no_entries no_entry_sent = refl
    entries_arrive strict (entry k v es) (entry_sent p q) =
        rw (value_arrives strict v p, entries_arrive strict es q) refl

  -- What can be sent is decoded to itself, by the strict hook and by the other.
  pub decode-encode :
      (strict : Bool) (v : Value) → Sendable v → decode construct strict (encode v) ≡ ok v
  decode-encode = value_arrives
