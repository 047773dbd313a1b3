-- ===== src/ContextCodec/Outcome.antt =====
-- What encodeWorkflowRlmContext comes to.
use commitment_workbench.Prelude.{
  ℕ, ◌≤◌, ◌<◌, ◌≡◌, refl, sym, ap, subst, ◌≢◌, inl, inr, Bool, true, false, not, Option, none, some,
  List, [], ◌∷◌, ◌++◌, arith, Bool-cases, Text, codes, text_eq→eq, ltb, length, if◌then◌else◌,
}
use commitment_workbench.ContextCodec.{
  Result, fail, ok, invalid_input, index_bound, row_limit, store_limit, read_limit, store_utf8_max,
  index_serialized_bytes, max_rows, max_reads,
}
use commitment_workbench.ContextCodec.Json.{utf8_bytes, is_well_formed}
use commitment_workbench.ContextCodec.Rows.{Packed}
use commitment_workbench.ContextCodec.Plan.{join_lines}
use commitment_workbench.ContextCodec.Encode.{
  Snapshot, SourceIndex, Encoded, is_text, is_bound, workflow_rlm_envelope, hash_workflow_text,
  with_rows, with_digest, encode_envelope, encode_workflow_rlm_context,
}
use commitment_workbench.ContextCodec.Whole.{IsPacking, IsFront, pack_rows-IsPacking}
use commitment_workbench.ContextCodec.Slices.{IsSplit}
use commitment_workbench.ContextCodec.Reads.{
  slices_of, plan_context_slices-covers, plan_context_slices-least,
}
use commitment_workbench.ContextCodec.Decode.{read_context}
use commitment_workbench.ContextCodec.Joined.{
  rows_of, packing-Rows, packing-read_context, join_lines-well_formed, join_lines-no_nul,
}

-- A result that is right for this envelope: its context reads back as the envelope and is named by its
-- digest, and its plan reads all the rows of the context within the bounds.
pub record IsEncoding (sha256 : Text → Text) (envelope : Text) (r : Encoded) : Type 0 where
  pub reads_back : read_context r.context ≡ some envelope
  pub envelope_named : r.envelope_sha256 ≡ sha256 envelope
  pub context_named : r.context_id ≡ codes "sha256:" ++ sha256 r.context
  pub context_bytes : r.context_utf8_bytes ≡ utf8_bytes r.context
  pub stored : r.context_utf8_bytes ≤ store_utf8_max
  pub planned :
      (rows : List Text) × (groups : List (List Text)) × (join_lines rows ≡ r.context)
      × (length rows ≡ r.rows)
      × IsSplit groups rows
      × (r.context_slice_plan ≡ slices_of 0 groups)
  pub reads : r.min_context_reads ≡ length r.context_slice_plan
  pub few : r.min_context_reads ≤ max_reads

-- The ways in which an encoding can end. One of the limits was met: the front of the envelope fills as
-- many rows as there may be and some of it is left; the rows of the whole envelope, joined, have too
-- many bytes; or they cannot be split into so few slices as may be read. Or the envelope is encoded.
pub data Ends (sha256 : Text → Text) (envelope : Text) : Result Encoded → Type 0 where
  rows_full :
      (ps : List Packed)
      → length ps ≡ max_rows
      → IsFront 0 envelope ps
      → Ends sha256 envelope (fail row_limit)
  store_full :
      (ps : List Packed)
      → IsPacking 0 envelope ps
      → store_utf8_max < utf8_bytes (join_lines (rows_of ps))
      → Ends sha256 envelope (fail store_limit)
  reads_full :
      (ps : List Packed)
      → IsPacking 0 envelope ps
      → ((groups : List (List Text)) → IsSplit groups (rows_of ps) → max_reads < length groups)
      → Ends sha256 envelope (fail read_limit)
  encoded : (r : Encoded) → IsEncoding sha256 envelope r → Ends sha256 envelope (ok r)

module _ (sha256 : Text → Text) (envelope : Text) where
  hashed : (s : Text) → is_well_formed s ≡ true → hash_workflow_text sha256 s ≡ some (sha256 s)
  unfolding hash_workflow_text
  hashed s h = rw h refl

  over : (a b : ℕ) → ltb a b ≡ true → a < b
  over a b h = ground arith

  with_rows-Ends :
      (p : Packed) (ps : List Packed)
      → IsPacking 0 envelope (p ∷ ps)
      → Ends sha256 envelope (with_rows sha256 envelope (sha256 envelope) (ok (p ∷ ps)))
  with_rows-Ends p ps k =
      let rows = rows_of (p ∷ ps) in
      let context = join_lines rows in
      let facts = packing-Rows 0 envelope (p ∷ ps) k in
      let clean = join_lines-no_nul rows facts.printable in
      let (groups, e, split) = plan_context_slices-covers rows facts.readable in
      let digest = hashed context (join_lines-well_formed rows facts.formed) in
      elim (Bool-cases (ltb store_utf8_max (utf8_bytes context))) [
        | inl full ↦ rw (clean, full) (store_full (p ∷ ps) k (over store_utf8_max _ full))
        | inr room ↦ elim (Bool-cases (ltb max_reads (length (slices_of 0 groups)))) [
          | inl many ↦
              rw (clean, room, e, many)
                (reads_full (p ∷ ps) k (λ other whole.
                  let most =
                    plan_context_slices-least rows facts.readable (slices_of 0 groups) other e
                      whole in
                  omega (arith, most, over max_reads _ many)))
          | inr few ↦
              rw (clean, room, e, few, digest)
                (encoded _ (record {
                  reads_back = packing-read_context 0 envelope p ps k;
                  envelope_named = refl;
                  context_named = refl;
                  context_bytes = refl;
                  stored = ground (arith, room);
                  planned = (rows, groups, refl, refl, split, refl);
                  reads = refl;
                  few = ground (arith, few);
                }))
        ]
      ]

  -- A well-formed envelope that is not empty is encoded, unless it meets a limit: the front of it fills
  -- 16,384 rows, each to within 6 bytes of its bound, and some of it is left; or its rows, joined, take
  -- more than 3,145,728 bytes; or no split of its rows into slices has as few as 256 of them. The tests
  -- for what cannot be encoded never fail. The context of the result reads back as the envelope, and its
  -- plan reads all of its rows within the bounds.
  pub encode_envelope-Ends :
      is_well_formed envelope ≡ true
      → envelope ≢ []
      → Ends sha256 envelope (encode_envelope sha256 envelope)
  unfolding encode_envelope
  encode_envelope-Ends h n = rw h (elim (pack_rows-IsPacking max_rows 0 envelope (omega arith) h) [
    | inl (e, ps, l, front) ↦ rw e (rows_full ps (omega (arith, l)) front)
    | inr (ps, e, k) ↦ rw e (packed ps k)
  ])
    where
      packed :
          (ps : List Packed)
          → IsPacking 0 envelope ps
          → Ends sha256 envelope (with_rows sha256 envelope (sha256 envelope) (ok ps))
      packed [] k = absurd (n k)
      packed (p ∷ ps) k = with_rows-Ends p ps k

is_text-some : (t : Text) (o : Option Text) → is_text t o ≡ true → some t ≡ o
is_text-some t none h = cc
is_text-some t (some u) h = ap some (text_eq→eq t u h)

-- An index that passes is bound to the snapshot.
bound_lem :
    (i h : Option Text) (x : SourceIndex)
    → is_bound i h x ≡ true
    → (i ≡ x.snapshot_id) × (h ≡ x.snapshot_hash)
bound_lem none h x e = cc
bound_lem (some id) none x e = cc
bound_lem (some id) (some hash) x e = (
  is_text-some id x.snapshot_id (ground (arith, e)),
  is_text-some hash x.snapshot_hash (ground (arith, e)),
)

module _ (sha256 : Text → Text) where
  Ends-ok :
      (envelope : Text) (r : Encoded) (o : Result Encoded)
      → Ends sha256 envelope o
      → o ≡ ok r
      → IsEncoding sha256 envelope r
  Ends-ok envelope r o (rows_full ps l f) e = cc
  Ends-ok envelope r o (store_full ps k l) e = cc
  Ends-ok envelope r o (reads_full ps k l) e = cc
  Ends-ok envelope r o (encoded q k) e = subst (IsEncoding sha256 envelope) (cc e) k

  refused :
      (envelope : Text) (r : Encoded)
      → is_well_formed envelope ≡ false
      → ¬ (encode_envelope sha256 envelope ≡ ok r)
  unfolding encode_envelope
  refused envelope r h =
      subst
        (λ b. ¬ (
          (if not b
            then fail invalid_input
            else with_digest sha256 envelope (hash_workflow_text sha256 envelope))
          ≡ ok r))
        (sym h) (λ k. cc k)

  encode_envelope_sound :
      (envelope : Text) (r : Encoded)
      → envelope ≢ []
      → encode_envelope sha256 envelope ≡ ok r
      → IsEncoding sha256 envelope r
  encode_envelope_sound envelope r n e = elim (Bool-cases (is_well_formed envelope)) [
    | inl h ↦
        Ends-ok envelope r (encode_envelope sha256 envelope)
          (encode_envelope-Ends sha256 envelope h n) e
    | inr h ↦ absurd (refused envelope r h e)
  ]

  -- A context is given for a source index only where the index has the snapshot's id and hash and its
  -- JSON text is within its bound, and the context reads back as the envelope of the two.
  pub encode_workflow_rlm_context_sound :
      (s : Snapshot) (x : SourceIndex) (r : Encoded)
      → encode_workflow_rlm_context sha256 (some s) (some x) ≡ ok r
      → (s.snapshot_id ≡ x.snapshot_id)
        × (s.snapshot_hash ≡ x.snapshot_hash)
        × (utf8_bytes x.json ≤ index_serialized_bytes)
        × IsEncoding sha256 (workflow_rlm_envelope s x) r
  unfolding encode_workflow_rlm_context
  encode_workflow_rlm_context_sound s x r =
      go (is_bound s.snapshot_id s.snapshot_hash x) refl
        (ltb index_serialized_bytes (utf8_bytes x.json)) refl
    where
      go :
          (b : Bool)
          → is_bound s.snapshot_id s.snapshot_hash x ≡ b
          → (l : Bool) → ltb index_serialized_bytes (utf8_bytes x.json) ≡ l
          → (if not b
              then fail invalid_input
              else if l
              then fail index_bound
              else encode_envelope sha256 (workflow_rlm_envelope s x))
            ≡ ok r
          → (s.snapshot_id ≡ x.snapshot_id)
            × (s.snapshot_hash ≡ x.snapshot_hash)
            × (utf8_bytes x.json ≤ index_serialized_bytes)
            × IsEncoding sha256 (workflow_rlm_envelope s x) r
      go false b l f e = cc
      go true b true f e = cc
      go true b false f e =
          let (p, q) = bound_lem s.snapshot_id s.snapshot_hash x b in
          let n : workflow_rlm_envelope s x ≢ [] = λ k. unfold workflow_rlm_envelope in cc k in
          (p, q, ground (arith, f), encode_envelope_sound (workflow_rlm_envelope s x) r n e)
