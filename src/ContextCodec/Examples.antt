-- ===== src/ContextCodec/Examples.antt =====
-- The theorems of the context codec at concrete texts.
use commitment_workbench.Prelude.{
  ◌≤◌, ◌≡◌, refl, arith, true, some, List, [], ◌∷◌, flatten, Text, codes, text_eq,
}
use commitment_workbench.Audit.Hash.{decimal, decimal_on}
use commitment_workbench.ContextCodec.{Result, fail, error, ok, index_serialized_bytes}
use commitment_workbench.ContextCodec.Json.{
  utf8_on, utf8_bytes, quote_on, json_string, well_formed_on, is_well_formed, json_bytes_on,
  json_string_utf8_bytes,
}
use commitment_workbench.ContextCodec.Rows.{
  row_prefix_utf8, serialized_row_utf8_bytes, row_text, take_fitting, pack_taken, pack_row,
  pack_rows,
}
use commitment_workbench.ContextCodec.Plan.{
  join_lines, Slice, extend_slice, plan_on, plan_context_slices,
}
use commitment_workbench.ContextCodec.Encode.{
  Snapshot, SourceIndex, Encoded, workflow_rlm_envelope, hash_workflow_text, encode_envelope,
  encode_workflow_rlm_context,
}
use commitment_workbench.ContextCodec.Sizes.{serialized_row-bytes}
use commitment_workbench.ContextCodec.Slices.{IsSplit}
use commitment_workbench.ContextCodec.Reads.{plan_context_slices-least}
use commitment_workbench.ContextCodec.Outcome.{
  Ends, IsEncoding, encode_envelope-Ends, encode_workflow_rlm_context_sound,
}

abbrev digest : Text → Text
digest s = s

-- A quote, a newline, a control, a letter beyond ASCII and a pair.
abbrev mixed : Text
mixed = 34 ∷ 10 ∷ 1 ∷ 233 ∷ 55357 ∷ 56832 ∷ []

mixed-well_formed : is_well_formed mixed ≡ true
unfolding is_well_formed well_formed_on
mixed-well_formed = refl

serialized_row-bytes_example : utf8_bytes (row_text 12 mixed) ≡ serialized_row_utf8_bytes 12 mixed
serialized_row-bytes_example = serialized_row-bytes 12 mixed mixed-well_formed

encode_envelope-Ends_example : Ends digest mixed (encode_envelope digest mixed)
encode_envelope-Ends_example = encode_envelope-Ends digest mixed mixed-well_formed (λ e. cc)

abbrev snapshot : Snapshot
snapshot = record {
  snapshot_id = some (codes "s");
  snapshot_hash = some (codes "h");
  json = codes "{}";
}

abbrev index : SourceIndex
index = record {
  kind = some (codes "source-offset-index");
  schema_version = some 1;
  snapshot_id = some (codes "s");
  snapshot_hash = some (codes "h");
  json = codes "{}";
}

abbrev blank : Encoded
blank = record {
  context = [];
  context_id = [];
  envelope_sha256 = [];
  envelope_utf8_bytes = 0;
  context_utf8_bytes = 0;
  rows = 0;
  max_row_utf8_bytes = 0;
  context_slice_plan = [];
  min_context_reads = 0;
}

abbrev taken : Result Encoded → Encoded
taken (fail c) = blank
taken error = blank
taken (ok r) = r

encoding : Encoded
encoding = taken (encode_workflow_rlm_context digest (some snapshot) (some index))

encoded : encode_workflow_rlm_context digest (some snapshot) (some index) ≡ ok encoding
unfolding encoding encode_workflow_rlm_context encode_envelope workflow_rlm_envelope
    hash_workflow_text is_well_formed well_formed_on utf8_bytes utf8_on pack_rows pack_row
    pack_taken take_fitting row_text row_prefix_utf8 serialized_row_utf8_bytes json_string
    json_string_utf8_bytes json_bytes_on quote_on decimal decimal_on join_lines plan_context_slices
    plan_on extend_slice text_eq
encoded = refl

encode_workflow_rlm_context_sound_example :
    (some (codes "s") ≡ some (codes "s"))
    × (some (codes "h") ≡ some (codes "h"))
    × (utf8_bytes (codes "{}") ≤ index_serialized_bytes)
    × IsEncoding digest (workflow_rlm_envelope snapshot index) encoding
encode_workflow_rlm_context_sound_example =
    encode_workflow_rlm_context_sound digest snapshot index encoding encoded

abbrev rows : List Text
rows = codes "a" ∷ codes "b" ∷ []

rows-small : (utf8_bytes (codes "a") ≤ 20000) × ((utf8_bytes (codes "b") ≤ 20000) × Unit {0})
unfolding utf8_bytes utf8_on
rows-small = (omega arith, (omega arith, tt))

abbrev one_slice : List Slice
one_slice = record { start = 0; count = 2; utf8_bytes = 3 } ∷ []

planned : plan_context_slices rows ≡ ok one_slice
unfolding plan_context_slices plan_on extend_slice utf8_bytes utf8_on
planned = refl

singles : IsSplit ((codes "a" ∷ []) ∷ (codes "b" ∷ []) ∷ []) rows
unfolding mathlib.Core.List.flatten join_lines utf8_bytes utf8_on
singles = record {
  whole = refl;
  slices = (
    record { nonempty = omega arith; few = omega arith; small = omega arith },
    (record { nonempty = omega arith; few = omega arith; small = omega arith }, tt),
  );
}

plan_context_slices-least_example : 1 ≤ 2
plan_context_slices-least_example =
    plan_context_slices-least rows rows-small one_slice ((codes "a" ∷ []) ∷ (codes "b" ∷ []) ∷ [])
      planned singles
