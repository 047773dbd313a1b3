-- ===== src/ContextCodec/Encode.antt =====
-- encodeWorkflowRlmContext, with hashWorkflowText of commitment-handoff.ts.
use commitment_workbench.Prelude.{
  ℕ, Bool, false, not, ◌&&◌, Option, none, some, List, [], ◌∷◌, ◌++◌, map, Text, codes, text_eq,
  ltb, ◌==◌, any, length, if◌then◌else◌,
}
use commitment_workbench.ContextCodec.{
  Result, fail, error, ok, invalid_input, index_bound, store_limit, read_limit, unencodable,
  store_utf8_max, max_rows, max_reads, index_serialized_bytes,
}
use commitment_workbench.ContextCodec.Json.{utf8_bytes, is_well_formed}
use commitment_workbench.ContextCodec.Rows.{Packed, pack_rows, max_row_bytes}
use commitment_workbench.ContextCodec.Plan.{join_lines, Slice, plan_context_slices}

-- A snapshot: a field is `none` where it is no string. `json` is what JSON.stringify gives of the object.
pub record Snapshot : Type 0 where
  pub snapshot_id : Option Text
  pub snapshot_hash : Option Text
  pub json : Text

pub record SourceIndex : Type 0 where
  pub kind : Option Text
  pub schema_version : Option ℕ
  pub snapshot_id : Option Text
  pub snapshot_hash : Option Text
  pub json : Text

pub record Encoded : Type 0 where
  pub context : Text
  pub context_id : Text
  pub envelope_sha256 : Text
  pub envelope_utf8_bytes : ℕ
  pub context_utf8_bytes : ℕ
  pub rows : ℕ
  pub max_row_utf8_bytes : ℕ
  pub context_slice_plan : List Slice
  pub min_context_reads : ℕ

-- A string with this value
abbrev pub is_text : Text → Option Text → Bool
is_text s none = false
is_text s (some t) = text_eq s t

abbrev pub is_one : Option ℕ → Bool
is_one none = false
is_one (some n) = n == 1

-- Whether the index is of the right kind and bound to a snapshot with this id and this hash.
abbrev pub is_bound : Option Text → Option Text → SourceIndex → Bool
is_bound none h x = false
is_bound (some id) none x = false
is_bound (some id) (some hash) x =
    is_text (codes "source-offset-index") x.kind
    && is_one x.schema_version
    && is_text id x.snapshot_id
    && is_text hash x.snapshot_hash

-- JSON.stringify({ snapshot, sourceIndex })
unfoldable pub workflow_rlm_envelope : Snapshot → SourceIndex → Text
workflow_rlm_envelope s x =
    codes "{\"snapshot\":" ++ s.json ++ codes ",\"sourceIndex\":" ++ x.json ++ codes "}"

module _ (sha256 : Text → Text) where
  -- `sha256` gives the hexadecimal digest of a text.
  unfoldable pub hash_workflow_text : Text → Option Text
  hash_workflow_text value = if is_well_formed value then some (sha256 value) else none

  abbrev pub with_id : Encoded → Option Text → Result Encoded
  with_id r none = error
  with_id r (some h) = ok (record r { context_id = codes "sha256:" ++ h })

  abbrev pub with_plan : Encoded → Result (List Slice) → Result Encoded
  with_plan r (fail e) = fail e
  with_plan r error = error
  with_plan r (ok plan) =
      if ltb max_reads (length plan)
      then fail read_limit
      else with_id (record r { context_slice_plan = plan; min_context_reads = length plan })
          (hash_workflow_text r.context)

  abbrev pub with_rows : Text → Text → Result (List Packed) → Result Encoded
  with_rows envelope digest (fail e) = fail e
  with_rows envelope digest error = error
  with_rows envelope digest (ok []) = fail invalid_input
  with_rows envelope digest (ok (p ∷ ps)) =
      let rows = map (λ q. q.row) (p ∷ ps) in
      let context = join_lines rows in
      if any (λ c. c == 0) context
      then fail unencodable
      else if ltb store_utf8_max (utf8_bytes context)
      then fail store_limit
      else with_plan
          (record {
            context = context;
            context_id = [];
            envelope_sha256 = digest;
            envelope_utf8_bytes = utf8_bytes envelope;
            context_utf8_bytes = utf8_bytes context;
            rows = length rows;
            max_row_utf8_bytes = max_row_bytes 0 (p ∷ ps);
            context_slice_plan = [];
            min_context_reads = 0;
          })
          (plan_context_slices rows)

  abbrev pub with_digest : Text → Option Text → Result Encoded
  with_digest envelope none = error
  with_digest envelope (some digest) = with_rows envelope digest (pack_rows max_rows envelope 0)

  unfoldable pub encode_envelope : Text → Result Encoded
  unfolding hash_workflow_text
  encode_envelope envelope =
      if not (is_well_formed envelope)
      then fail invalid_input
      else with_digest envelope (hash_workflow_text envelope)

  -- `none` where an argument is no record.
  unfoldable pub encode_workflow_rlm_context : Option Snapshot → Option SourceIndex → Result Encoded
  unfolding encode_envelope workflow_rlm_envelope
  encode_workflow_rlm_context none x = fail invalid_input
  encode_workflow_rlm_context (some s) none = fail invalid_input
  encode_workflow_rlm_context (some s) (some x) =
      if not (is_bound s.snapshot_id s.snapshot_hash x)
      then fail invalid_input
      else if ltb index_serialized_bytes (utf8_bytes x.json)
      then fail index_bound
      else encode_envelope (workflow_rlm_envelope s x)
