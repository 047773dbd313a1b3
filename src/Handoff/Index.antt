-- ===== src/Handoff/Index.antt =====
-- createCommitmentSourceIndex: the offsets of the lines of each message.
use commitment_workbench.Prelude.{
  ℕ, suc, ◌+◌, ◌-◌, Bool, true, false, ◌&&◌, ◌||◌, Option, none, some, List, [], ◌∷◌, ◌++◌, map,
  Text, ltb, ◌==◌, all, length, if◌then◌else◌,
}
use commitment_workbench.ContextCodec.{index_serialized_bytes}
use commitment_workbench.ContextCodec.Json.{utf8_bytes}
use commitment_workbench.Contracts.{Message, Snapshot}
use commitment_workbench.Handoff.{
  ValidationResult, valid, failure, validate_commitment_snapshot, Host,
}

abbrev pub indexed_lines_per_message : ℕ
indexed_lines_per_message = 256

-- The variables of the loop over a body.
pub record Scan : Type 0 where
  pub start : ℕ
  pub line_count : ℕ
  pub lines : List (ℕ × ℕ)

abbrev pub append_line : ℕ → Scan → Scan
append_line end st = record {
  start = st.start;
  line_count = st.line_count + 1;
  lines =
      if ltb (length st.lines) indexed_lines_per_message
      then st.lines ++ (st.start, end) ∷ []
      else st.lines;
}

-- CR, LF, NEL, LS and PS
abbrev pub is_break : ℕ → Bool
is_break c = c == 13 || c == 10 || c == 133 || c == 8232 || c == 8233

-- CR with LF behind it is one break.
abbrev pub is_crlf : ℕ → Text → Bool
is_crlf c [] = false
is_crlf c (d ∷ cs) = c == 13 && d == 10

-- The body of the loop at the unit `c`.
abbrev pub scan_unit : ℕ → ℕ → Bool → Scan → Scan
scan_unit offset c crlf st =
    if is_break c
    then record (append_line offset st) { start = if crlf then offset + 2 else offset + 1 }
    else st

-- The loop, and the line behind the last break. The flag says that the next unit is the LF of a CRLF.
unfoldable pub scan_lines : ℕ → Bool → Text → Scan → Scan
scan_lines offset skip [] st = append_line offset st
scan_lines offset true (c ∷ cs) st = scan_lines (suc offset) false cs st
scan_lines offset false (c ∷ cs) st =
    let crlf = is_crlf c cs in scan_lines (suc offset) crlf cs (scan_unit offset c crlf st)

pub record IndexedMessage : Type 0 where
  pub message_id : Text
  pub body_hash : Text
  pub full_body : ℕ × ℕ
  pub line_count : ℕ
  pub lines : List (ℕ × ℕ)
  pub omitted_line_count : ℕ

unfoldable pub scan_body : Text → Scan
unfolding scan_lines
scan_body body = scan_lines 0 false body (record { start = 0; line_count = 0; lines = [] })

unfoldable pub index_message : Message → IndexedMessage
unfolding scan_body
index_message m =
    let st = scan_body m.body in
    record {
      message_id = m.id;
      body_hash = m.body_hash;
      full_body = (0, length m.body);
      line_count = st.line_count;
      lines = st.lines;
      omitted_line_count = st.line_count - length st.lines;
    }

-- The constant fields are left out.
pub record CommitmentSourceIndex : Type 0 where
  pub snapshot_id : Text
  pub snapshot_hash : Text
  pub line_index_complete : Bool
  pub messages : List IndexedMessage

-- `json` is the text of the index; `none` where an error is thrown.
module _ (host : Host) (json : CommitmentSourceIndex → Text) where
  abbrev pub bounded_index : CommitmentSourceIndex → Option CommitmentSourceIndex
  bounded_index x = if ltb index_serialized_bytes (utf8_bytes (json x)) then none else some x

  abbrev pub index_valid : ValidationResult Snapshot → Option CommitmentSourceIndex
  unfolding index_message
  index_valid (failure is) = none
  index_valid (valid s) =
      let messages = map index_message s.messages in
      bounded_index (record {
        snapshot_id = s.snapshot_id;
        snapshot_hash = s.snapshot_hash;
        line_index_complete = all (λ m. m.omitted_line_count == 0) messages;
        messages = messages;
      })

  unfoldable pub create_commitment_source_index : Snapshot → Option CommitmentSourceIndex
  unfolding validate_commitment_snapshot index_valid
  create_commitment_source_index s = index_valid (validate_commitment_snapshot host s)
