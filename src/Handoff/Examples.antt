-- ===== src/Handoff/Examples.antt =====
-- The theorems of the hand-off at concrete snapshots.
use commitment_workbench.Prelude.{
  ◌≡◌, ◌↔◌, inl, refl, arith, true, false, none, some, [], ◌∷◌, map, All, Text, codes, length, take,
  text_eq, text_lt,
}
use commitment_workbench.ContextCodec.Json.{is_well_formed, well_formed_on}
use commitment_workbench.Contracts.{
  Message, Snapshot, Citation, Ledger, due, is_snapshot, is_snapshot_head, is_message,
  is_message_content, is_identifier, is_text, is_non_blank, is_hash, is_address, has_inner_dot,
  are_distinct, total_body, is_ledger, is_item, is_evidence,
}
use commitment_workbench.Handoff.{
  Host, valid, zero_hash, get_message, is_surrogate_boundary, slice, hash_commitment_snapshot,
  body_issues, snapshot_issues, validate_commitment_snapshot, validate_commitment_ledger,
}
use commitment_workbench.Handoff.Evidence.{
  IsCited, IsAnchoredItem, validate_commitment_ledger_sound,
}
use commitment_workbench.Handoff.Create.{
  candidate, create_commitment_snapshot, with_bodies, with_hash,
  create_commitment_snapshot_validates,
}
use commitment_workbench.Handoff.Accepts.{IsAccepted, validate_commitment_ledger-accepts_iff}
use commitment_workbench.Handoff.Index.{scan_body}
use commitment_workbench.Handoff.Lines.{lines_of, scan_body_lines}

-- A digest for the examples: one hash for every text.
abbrev host : Host
host = record {
  sha256 = λ s. zero_hash;
  known_timezone = λ z. true;
  content = λ s. [];
  is_timestamp = λ t. true;
  is_after = λ a b. text_lt b a;
  snapshot_report = λ s. [];
  ledger_report = λ l. [];
}

abbrev message : Message
message = record {
  id = codes "m";
  thread_id = codes "t";
  subject = codes "Rent";
  sender = codes "al@x.org";
  to = codes "me@x.org";
  timestamp = codes "1";
  body = codes "Pay Bo";
  body_hash = zero_hash;
  truncated = false;
  omitted_chars = some 0;
}

abbrev snapshot : Snapshot
snapshot = record {
  snapshot_id = codes "s";
  snapshot_hash = zero_hash;
  user_address = codes "me@x.org";
  cutoff = codes "2";
  timezone = codes "UTC";
  messages = message ∷ [];
  omitted_messages = some 0;
  note = [];
}

abbrev citation : Citation
citation = record {
  message_id = codes "m";
  body_hash = zero_hash;
  start = 4;
  end = 6;
  quote = codes "Bo";
}

abbrev ledger : Ledger
ledger = record {
  snapshot_id = codes "s";
  snapshot_hash = zero_hash;
  items =
      record {
        item_id = codes "i";
        title = codes "Pay Bo";
        owner = some (codes "me");
        state = due;
        due_at = none;
        changed = false;
        evidence = citation ∷ [];
        prior_evidence = [];
        uncertainty = none;
        next_action = codes "Pay";
        reply_text = none;
      }
      ∷ [];
  omitted_messages = some 0;
  truncated_message_ids = [];
  limitations = [];
}

zero_hash-is_hash : is_hash zero_hash ≡ true
unfolding is_hash
zero_hash-is_hash = refl

snapshot_admitted : is_snapshot host.is_timestamp host.is_after (candidate snapshot) ≡ true
unfolding is_snapshot is_snapshot_head is_message is_message_content is_identifier is_text
    is_non_blank is_hash is_address has_inner_dot are_distinct total_body is_well_formed
    well_formed_on text_eq text_lt candidate
snapshot_admitted = refl

ledger_admitted : is_ledger host.is_timestamp host.is_after ledger ≡ true
unfolding is_ledger is_item is_evidence is_identifier is_text is_non_blank is_hash are_distinct
    is_well_formed well_formed_on text_eq
ledger_admitted = refl

create_commitment_snapshot_validates_example :
    (create_commitment_snapshot host snapshot
      ≡ some (with_hash host (with_bodies host (candidate snapshot))))
    × (validate_commitment_snapshot host (with_hash host (with_bodies host (candidate snapshot)))
        ≡ valid (with_hash host (with_bodies host (candidate snapshot))))
    × All
        (λ m. zero_hash ≡ m.body_hash)
        (with_hash host (with_bodies host (candidate snapshot))).messages
    × (map (λ m. m.body) (with_hash host (with_bodies host (candidate snapshot))).messages
        ≡ codes "Pay Bo" ∷ [])
create_commitment_snapshot_validates_example =
    create_commitment_snapshot_validates host (λ t. zero_hash-is_hash) snapshot snapshot_admitted
      refl

snapshot_valid : validate_commitment_snapshot host snapshot ≡ valid snapshot
unfolding validate_commitment_snapshot snapshot_issues body_issues hash_commitment_snapshot text_eq
    is_snapshot is_snapshot_head is_message is_message_content is_identifier is_text is_non_blank
    is_hash is_address has_inner_dot are_distinct total_body is_well_formed well_formed_on text_lt
snapshot_valid = refl

validate_commitment_ledger-accepts_iff_example :
    (validate_commitment_ledger host snapshot ledger ≡ valid ledger)
    ↔ IsAccepted host snapshot ledger
validate_commitment_ledger-accepts_iff_example =
    validate_commitment_ledger-accepts_iff host snapshot ledger snapshot_valid

cited : IsCited (message ∷ []) citation message
unfolding get_message is_surrogate_boundary text_eq
cited = record {
  found = refl;
  hash_eq = refl;
  within = omega arith;
  start_whole = refl;
  end_whole = refl;
  exact = refl;
}

ledger_valid : validate_commitment_ledger host snapshot ledger ≡ valid ledger
ledger_valid =
    (validate_commitment_ledger-accepts_iff host snapshot ledger snapshot_valid).1 (record {
      schema_passes = ledger_admitted;
      same_id = refl;
      same_hash = refl;
      exact = ((((message, cited), tt), tt), tt);
      covered = record {
        truncated_named = λ t. refl;
        omitted_named = refl;
        limited = inl (refl, refl);
      };
    })

validate_commitment_ledger_sound_example :
    (codes "s" ≡ codes "s")
    × (ledger.snapshot_hash ≡ snapshot.snapshot_hash)
    × All (IsAnchoredItem host.sha256 snapshot.messages) ledger.items
validate_commitment_ledger_sound_example =
    validate_commitment_ledger_sound host snapshot ledger ledger ledger_valid

-- Two lines, the first ended by CR LF.
abbrev body : Text
body = 97 ∷ 13 ∷ 10 ∷ 98 ∷ []

scan_body_lines_example :
    ((scan_body body).line_count ≡ length (lines_of body))
    × (map (λ r. slice r.0 r.1 body) (scan_body body).lines ≡ take 256 (lines_of body))
scan_body_lines_example = scan_body_lines body
