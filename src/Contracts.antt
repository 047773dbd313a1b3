-- ===== src/Contracts.antt =====
-- packages/contracts/src/workflows.ts: the schemas of a snapshot and of a ledger of commitments, as tests
-- on values that have their fields. Text is a list of UTF-16 code units. A field whose schema is one
-- literal, or an enumeration that nothing reads, is left out.
use commitment_workbench.Prelude.{
  ℕ, ◌+◌, Bool, true, false, not, ◌&&◌, ◌||◌, Option, none, some, List, [], ◌∷◌, map, Text, text_eq,
  leb, ◌==◌, length, any, all,
}
use commitment_workbench.ContextCodec.Json.{is_well_formed}

abbrev pub max_messages : ℕ
max_messages = 32

abbrev pub body_chars : ℕ
body_chars = 12000

abbrev pub total_body_chars : ℕ
total_body_chars = 96000

abbrev pub max_ledger_items : ℕ
max_ledger_items = 12

abbrev pub evidence_per_item : ℕ
evidence_per_item = 6

abbrev pub quote_chars : ℕ
quote_chars = 1000

abbrev pub reply_chars : ℕ
reply_chars = 1200

abbrev pub max_issues : ℕ
max_issues = 64

pub record Message : Type 0 where
  pub id : Text
  pub thread_id : Text
  pub subject : Text
  pub sender : Text
  pub to : Text
  pub timestamp : Text
  pub body : Text
  pub body_hash : Text
  pub truncated : Bool
  pub omitted_chars : Option ℕ

-- `omitted_messages` is null where the number is unknown.
pub record Snapshot : Type 0 where
  pub snapshot_id : Text
  pub snapshot_hash : Text
  pub user_address : Text
  pub cutoff : Text
  pub timezone : Text
  pub messages : List Message
  pub omitted_messages : Option ℕ
  pub note : Text

pub record Citation : Type 0 where
  pub message_id : Text
  pub body_hash : Text
  pub start : ℕ
  pub end : ℕ
  pub quote : Text

pub data ItemState : Type 0 where
  due waiting closed uncertain : ItemState

pub record Item : Type 0 where
  pub item_id : Text
  pub title : Text
  pub owner : Option Text
  pub state : ItemState
  pub due_at : Option Text
  pub changed : Bool
  pub evidence : List Citation
  pub prior_evidence : List Citation
  pub uncertainty : Option Text
  pub next_action : Text
  pub reply_text : Option Text

pub record Ledger : Type 0 where
  pub snapshot_id : Text
  pub snapshot_hash : Text
  pub items : List Item
  pub omitted_messages : Option ℕ
  pub truncated_message_ids : List Text
  pub limitations : List Text

-- text(max, min)
unfoldable pub is_text : ℕ → ℕ → Text → Bool
unfolding is_well_formed
is_text max min s = leb min (length s) && leb (length s) max && is_well_formed s

-- The white space of String.prototype.trim and of \s
abbrev pub is_space : ℕ → Bool
is_space c =
    (leb 9 c && leb c 13)
    || c == 32
    || c == 160
    || c == 5760
    || (leb 8192 c && leb c 8202)
    || c == 8232
    || c == 8233
    || c == 8239
    || c == 8287
    || c == 12288
    || c == 65279

unfoldable pub is_non_blank : ℕ → Text → Bool
unfolding is_text
is_non_blank max s = is_text max 1 s && any (λ c. not (is_space c)) s

abbrev pub is_alphanumeric : ℕ → Bool
is_alphanumeric c = (leb 97 c && leb c 122) || (leb 65 c && leb c 90) || (leb 48 c && leb c 57)

-- /^[a-zA-Z0-9][a-zA-Z0-9._-]*$/, of 1 to 80 units
unfoldable pub is_identifier : Text → Bool
is_identifier [] = false
is_identifier (c ∷ cs) =
    leb (length (c ∷ cs)) 80
    && is_alphanumeric c
    && all (λ d. is_alphanumeric d || d == 46 || d == 95 || d == 45) cs

-- /^[a-f0-9]{64}$/
unfoldable pub is_hash : Text → Bool
is_hash s = length s == 64 && all (λ c. (leb 97 c && leb c 102) || (leb 48 c && leb c 57)) s

-- [^\s<>@]
abbrev pub is_plain : ℕ → Bool
is_plain c = not (is_space c || c == 60 || c == 62 || c == 64)

-- A dot with a unit before it and one behind it
unfoldable pub has_inner_dot : Bool → Text → Bool
has_inner_dot behind [] = false
has_inner_dot behind (c ∷ []) = false
has_inner_dot behind (c ∷ d ∷ ds) = (behind && c == 46) || has_inner_dot true (d ∷ ds)

-- /^[^\s<>@]+@[^\s<>@]+\.[^\s<>@]+$/; the flag says that a unit stands before.
unfoldable pub is_address : Bool → Text → Bool
unfolding has_inner_dot
is_address behind [] = false
is_address behind (c ∷ cs) =
    (behind && c == 64 && all is_plain cs && has_inner_dot false cs)
    || (is_plain c && is_address true cs)

abbrev pub is_nullable {ℓ} : {A : Type ℓ} → (A → Bool) → Option A → Bool
is_nullable p none = true
is_nullable p (some a) = p a

abbrev pub is_null {ℓ} : {A : Type ℓ} → Option A → Bool
is_null none = true
is_null (some a) = false

abbrev pub is_zero_count : Option ℕ → Bool
is_zero_count none = false
is_zero_count (some n) = n == 0

-- new Set(ids).size === ids.length
unfoldable pub are_distinct : List Text → Bool
are_distinct [] = true
are_distinct (a ∷ rest) = not (any (text_eq a) rest) && are_distinct rest

unfoldable pub total_body : List Message → ℕ
total_body [] = 0
total_body (m ∷ ms) = length m.body + total_body ms

unfoldable pub is_evidence : Citation → Bool
unfolding is_identifier is_hash is_text
is_evidence e =
    is_identifier e.message_id
    && is_hash e.body_hash
    && leb e.start body_chars
    && leb 1 e.end
    && leb e.end body_chars
    && is_text quote_chars 1 e.quote
    && not (leb e.end e.start)

-- `is_timestamp` is z.iso.datetime with a finite Date.parse, and `is_after` compares two instants.
module _ (is_timestamp : Text → Bool) (is_after : Text → Text → Bool) where
  -- The fields of a message but its hash.
  unfoldable pub is_message_content : Message → Bool
  unfolding is_identifier is_text is_non_blank
  is_message_content m =
      is_identifier m.id
      && is_identifier m.thread_id
      && is_text 240 0 m.subject
      && is_non_blank 320 m.sender
      && is_text 640 0 m.to
      && is_timestamp m.timestamp
      && is_text body_chars 0 m.body
      && is_nullable (λ n. leb n 100000000) m.omitted_chars
      && not (
          (not m.truncated && not (is_zero_count m.omitted_chars))
          || (m.truncated && is_zero_count m.omitted_chars))

  unfoldable pub is_message : Message → Bool
  unfolding is_message_content is_hash
  is_message m = is_message_content m && is_hash m.body_hash

  -- The fields of a snapshot but its hash and its messages.
  unfoldable pub is_snapshot_head : Snapshot → Bool
  unfolding is_identifier is_text is_non_blank is_address
  is_snapshot_head s =
      is_identifier s.snapshot_id
      && is_text 254 3 s.user_address
      && is_address false s.user_address
      && is_timestamp s.cutoff
      && is_non_blank 80 s.timezone
      && is_nullable (λ n. leb n 1000000) s.omitted_messages
      && is_text 500 0 s.note

  -- CommitmentSnapshot
  unfoldable pub is_snapshot : Snapshot → Bool
  unfolding is_snapshot_head is_message is_hash total_body are_distinct
  is_snapshot s =
      is_snapshot_head s
      && is_hash s.snapshot_hash
      && leb (length s.messages) max_messages
      && all is_message s.messages
      && leb (total_body s.messages) total_body_chars
      && are_distinct (map (λ m. m.id) s.messages)
      && all (λ m. not (is_after m.timestamp s.cutoff)) s.messages

  unfoldable pub is_item : Item → Bool
  unfolding is_identifier is_non_blank is_evidence
  is_item x =
      is_identifier x.item_id
      && is_non_blank 160 x.title
      && is_nullable (is_non_blank 320) x.owner
      && is_nullable is_timestamp x.due_at
      && leb 1 (length x.evidence)
      && leb (length x.evidence) evidence_per_item
      && all is_evidence x.evidence
      && leb (length x.prior_evidence) evidence_per_item
      && all is_evidence x.prior_evidence
      && is_nullable (is_non_blank 500) x.uncertainty
      && is_non_blank 500 x.next_action
      && is_nullable (is_non_blank reply_chars) x.reply_text
      && not ((is_uncertain x.state || is_null x.owner) && is_null x.uncertainty)
      && not (x.changed && length x.prior_evidence == 0)
    where
      is_uncertain : ItemState → Bool
      is_uncertain uncertain = true
      is_uncertain _ = false

  -- CommitmentLedger
  unfoldable pub is_ledger : Ledger → Bool
  unfolding is_identifier is_hash is_item is_non_blank are_distinct
  is_ledger l =
      is_identifier l.snapshot_id
      && is_hash l.snapshot_hash
      && leb (length l.items) max_ledger_items
      && all is_item l.items
      && is_nullable (λ n. leb n 1000000) l.omitted_messages
      && leb (length l.truncated_message_ids) max_messages
      && all is_identifier l.truncated_message_ids
      && leb (length l.limitations) 12
      && all (is_non_blank 500) l.limitations
      && are_distinct (map (λ x. x.item_id) l.items)
      && are_distinct l.truncated_message_ids
