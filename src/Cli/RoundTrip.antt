-- ===== src/Cli/RoundTrip.antt =====
-- The way of an outcome from a command to its caller, by the output of the command.
use Prim.Native.String.append
use cortx_prvsnr.Prelude.{String, ◌<>◌, ◌≡◌, refl, ap, ◌∙◌, true, false}
use cortx_prvsnr.Prelude.Text.{is_empty}
use cortx_prvsnr.Exec.{ok}
use cortx_prvsnr.Json.{Json}
use cortx_prvsnr.Serialize.{
  nothing, flag, count, words, list, dict, instance_of, encode, decode, lookup, is_true, Value,
}
use cortx_prvsnr.Serialize.RoundTrip.{Sendable, dict_sent, entry_sent, no_entry_sent, words_sent}
use cortx_prvsnr.Serialize.RoundTrip.{decode-encode}
use cortx_prvsnr.Cli.{Outcome, returned, raised, answer, Python, prepare_res, or_empty}
use cortx_prvsnr.Cli.{output, loads, read_output, answer_of, process_cli_result}

line_is_text : (s : String) → is_empty (s <> "\n") ≡ false
unfolding is_empty
line_is_text String.[] = refl
line_is_text (String.◌∷◌ c s) = ap is_empty (append.cons c s "\n")

-- The value of an outcome can be sent, and what is raised is an exception.
abbrev pub CanCross : Python → Outcome → Type 0
CanCross P (returned v) = Sendable P.construct v
CanCross P (raised e) = Sendable P.construct e × (P.is_exception e ≡ true)

module _ (P : Python) where
  pub output_is_text : (outcome : Outcome) → is_empty (output P outcome) ≡ false
  unfolding output
  output_is_text outcome = line_is_text _

  or_empty-CanCross : (outcome : Outcome) → CanCross P outcome → CanCross P (or_empty outcome)
  unfolding or_empty
  or_empty-CanCross (raised e) p = p
  or_empty-CanCross (returned nothing) p = words_sent
  or_empty-CanCross (returned (flag b)) p = p
  or_empty-CanCross (returned (count n)) p = p
  or_empty-CanCross (returned (words s)) p = p
  or_empty-CanCross (returned (list vs)) p = p
  or_empty-CanCross (returned (dict es)) p = p
  or_empty-CanCross (returned (instance_of m c args kwargs)) p = p

  prepare_res-Sendable :
      (outcome : Outcome) → CanCross P outcome → Sendable P.construct (prepare_res outcome)
  unfolding prepare_res lookup is_true
  prepare_res-Sendable (returned v) p = dict_sent (entry_sent p no_entry_sent) refl
  prepare_res-Sendable (raised e) (p, q) = dict_sent (entry_sent p no_entry_sent) refl

  answer_of-prepare_res :
      (outcome : Outcome) → CanCross P outcome → answer_of P (prepare_res outcome) ≡ answer outcome
  unfolding answer_of prepare_res
  answer_of-prepare_res (returned v) p = refl
  answer_of-prepare_res (raised e) (p, q) = rw q refl

  read_output-decoded :
      (s : String) (tree : Json) (v : Value)
      → is_empty s ≡ false
      → P.json_loads s ≡ ok tree
      → decode P.construct true tree ≡ ok v
      → read_output P s ≡ v
  unfolding read_output loads
  read_output-decoded s tree v there json found = rw (there, json, found) refl

  -- What a command returns or raises its caller gets from the output of the command, an empty text
  -- for `None`, where the JSON that is printed is read back as the tree that it was.
  pub process_cli_result-output :
      (outcome : Outcome)
      → CanCross P outcome
      → P.json_loads (output P outcome) ≡ ok (encode (prepare_res (or_empty outcome)))
      → process_cli_result P (output P outcome) ≡ answer (or_empty outcome)
  unfolding process_cli_result
  process_cli_result-output outcome p json =
      let sent = or_empty outcome in
      let crosses = or_empty-CanCross outcome p in
      let arrives =
        decode-encode P.construct true (prepare_res sent) (prepare_res-Sendable sent crosses) in
      ap (answer_of P) (read_output-decoded _ _ _ (output_is_text outcome) json arrives)
      ∙ answer_of-prepare_res sent crosses
