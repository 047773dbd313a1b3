-- ===== src/Handoff.antt =====
-- commitment-handoff.ts: the validators of a snapshot and of a ledger of commitments. Text is a list of
-- UTF-16 code units. A raw value that has not the fields of its record is outside the model.
use commitment_workbench.Prelude.{
  ℕ, zero, suc, ◌+◌, ◌-◌, Bool, true, false, not, ◌&&◌, ◌||◌, Option, none, some, List, [], ◌∷◌,
  ◌++◌, map, Text, codes, text_eq, text_lt, leb, ltb, ◌==◌, length, take, drop, filter,
  if◌then◌else◌,
}
use commitment_workbench.Prelude.Units.{is_high, is_low}
use commitment_workbench.Audit.Hash.{decimal}
use commitment_workbench.Contracts.{
  Message, Snapshot, Citation, Item, Ledger, max_messages, max_ledger_items, max_issues,
  is_snapshot, is_ledger,
}
pub mod Evidence
pub mod Sets
pub mod Coverage
pub mod Accepts
pub mod Create
pub mod Index
pub mod Lines
mod Examples

pub record Issue : Type 0 where
  pub code : Text
  pub path : Text
  pub message : Text

pub data ValidationResult (A : Type 0) : Type 0 where
  valid : A → ValidationResult A
  failure : List Issue → ValidationResult A

abbrev pub issue : Text → Text → Text → Issue
issue code path message = record { code = code; path = path; message = message }

-- An issue where the test fails
abbrev pub unless : Bool → Issue → List Issue
unless true i = []
unless false i = i ∷ []

-- `failure` with the report's bound, or the value.
abbrev pub result_of_issues : {A : Type 0} → A → List Issue → ValidationResult A
result_of_issues a [] = valid a
result_of_issues a (i ∷ is) = failure (take max_issues (i ∷ is))

-- The Map of the messages: a later message replaces one of its id.
unfoldable pub get_message : Text → List Message → Option Message
get_message id [] = none
get_message id (m ∷ ms) = elim (get_message id ms) [
  | some k ↦ some k
  | none ↦ if text_eq m.id id then some m else none
]

-- charCodeAt, in range
abbrev pub char_code_at : ℕ → Text → ℕ
char_code_at i [] = 0
char_code_at zero (c ∷ cs) = c
char_code_at (suc i) (c ∷ cs) = char_code_at i cs

abbrev pub slice : ℕ → ℕ → Text → Text
slice start end text = take (end - start) (drop start text)

unfoldable pub is_surrogate_boundary : Text → ℕ → Bool
is_surrogate_boundary text offset =
    if offset == 0 || leb (length text) offset
    then true
    else not (is_high (char_code_at (offset - 1) text) && is_low (char_code_at offset text))

abbrev pub place_text : Text → List Text → List Text
place_text a [] = a ∷ []
place_text a (b ∷ bs) =
    let placed = place_text a bs in if text_lt b a then b ∷ placed else a ∷ b ∷ bs

abbrev pub sort_texts : List Text → List Text
sort_texts [] = []
sort_texts (a ∷ rest) = place_text a (sort_texts rest)

abbrev pub texts_eq : List Text → List Text → Bool
texts_eq [] [] = true
texts_eq [] (b ∷ bs) = false
texts_eq (a ∷ rest) [] = false
texts_eq (a ∷ rest) (b ∷ bs) = text_eq a b && texts_eq rest bs

-- The default sort orders strings by their code units.
unfoldable pub equal_string_sets : List Text → List Text → Bool
equal_string_sets a b = length a == length b && texts_eq (sort_texts a) (sort_texts b)

-- The checks on one citation, on the message it names.
unfoldable pub cited_issues : Text → Citation → Option Message → List Issue
unfolding is_surrogate_boundary
cited_issues path e none =
    issue (codes "source_membership") path (codes "Evidence source is not in this snapshot") ∷ []
cited_issues path e (some source) =
    unless (text_eq source.body_hash e.body_hash)
      (issue (codes "evidence_hash") path (codes "Evidence body hash mismatch"))
    ++ (if ltb (length source.body) e.end
          || not (is_surrogate_boundary source.body e.start)
          || not (is_surrogate_boundary source.body e.end)
        then issue (codes "span") path
            (codes "Span exceeds the source or splits a UTF-16 surrogate pair")
          ∷ []
        else unless (text_eq (slice e.start e.end source.body) e.quote) (
            issue (codes "quote") path
              (codes "Quote is not the exact text at the supplied UTF-16 span")))

-- `${prefix}.${j}`
abbrev pub indexed : Text → ℕ → Text
indexed prefix j = prefix ++ (codes "." ++ decimal j)

unfoldable pub citation_issues : List Message → Text → ℕ → List Citation → List Issue
unfolding cited_issues get_message
citation_issues ms prefix j [] = []
citation_issues ms prefix j (e ∷ es) =
    cited_issues (indexed prefix j) e (get_message e.message_id ms)
    ++ citation_issues ms prefix (suc j) es

unfoldable pub item_issues : List Message → ℕ → List Item → List Issue
unfolding citation_issues
item_issues ms i [] = []
item_issues ms i (x ∷ xs) =
    citation_issues ms (indexed (codes "items") i ++ codes ".evidence") 0 x.evidence
    ++ (citation_issues ms (indexed (codes "items") i ++ codes ".priorEvidence") 0 x.prior_evidence
        ++ item_issues ms (suc i) xs)

abbrev pub omitted_eq : Option ℕ → Option ℕ → Bool
omitted_eq none none = true
omitted_eq none (some n) = false
omitted_eq (some m) none = false
omitted_eq (some m) (some n) = m == n

abbrev pub truncated_ids : Snapshot → List Text
truncated_ids s = map (λ m. m.id) (filter (λ m. m.truncated) s.messages)

abbrev pub is_empty_list {ℓ} : {A : Type ℓ} → List A → Bool
is_empty_list [] = true
is_empty_list (x ∷ xs) = false

-- The coverage that the ledger reports is the snapshot's, and a limit on it is named.
unfoldable pub coverage_issues : Snapshot → Ledger → List Issue
unfolding equal_string_sets
coverage_issues s l =
    unless
      (equal_string_sets l.truncated_message_ids (truncated_ids s)
        && omitted_eq l.omitted_messages s.omitted_messages)
      (issue (codes "coverage") (codes "coverage")
        (codes "Reported omissions/truncation do not match the snapshot"))
    ++ unless
        (not (
          (not (is_empty_list (truncated_ids s)) || not (omitted_eq s.omitted_messages (some 0)))
          && is_empty_list l.limitations))
        (issue (codes "coverage") (codes "coverage.limitations")
          (codes "Incomplete or unknown coverage needs an explicit limitation"))

unfoldable pub ledger_issues : Snapshot → Ledger → List Issue
unfolding item_issues coverage_issues
ledger_issues s l =
    unless (text_eq l.snapshot_id s.snapshot_id && text_eq l.snapshot_hash s.snapshot_hash) (
      issue (codes "source_binding") (codes "snapshotHash")
        (codes "Ledger is not bound to this snapshot"))
    ++ (item_issues s.messages 0 l.items ++ coverage_issues s l)

abbrev pub under_snapshot : Issue → Issue
under_snapshot i = record i { path = codes "snapshot." ++ i.path }

-- ZERO_HASH
abbrev pub zeros : ℕ → Text
zeros zero = []
zeros (suc n) = 48 ∷ zeros n

abbrev pub zero_hash : Text
zero_hash = zeros 64

-- What the platform and the schema library give: the hexadecimal digest of a text; whether Intl knows a
-- zone; the JSON text of a snapshot without its hash; whether z.iso.datetime and Date.parse take a text
-- for an instant, and which of two instants is after the other; and the issues that are reported, under
-- the code `schema`, for a value that its schema refuses.
pub record Host : Type 0 where
  pub sha256 : Text → Text
  pub known_timezone : Text → Bool
  pub content : Snapshot → Text
  pub is_timestamp : Text → Bool
  pub is_after : Text → Text → Bool
  pub snapshot_report : Snapshot → List Issue
  pub ledger_report : Ledger → List Issue

module _ (host : Host) where
  -- Of a snapshot that passes its schema but for its hash. Text that is hashed is then well-formed, so
  -- that hashWorkflowText does not throw, here and on the bodies below.
  unfoldable pub hash_commitment_snapshot : Snapshot → Text
  hash_commitment_snapshot s = host.sha256 (
      codes "habenula:commitment-snapshot:v1"
      ++ 10 ∷ host.content (record s { snapshot_hash = zero_hash }))

  unfoldable pub body_issues : ℕ → List Message → List Issue
  body_issues i [] = []
  body_issues i (m ∷ ms) =
      unless (text_eq (host.sha256 m.body) m.body_hash) (
        issue (codes "source_hash") (indexed (codes "messages") i ++ codes ".bodyHash")
          (codes "Source body hash mismatch"))
      ++ body_issues (suc i) ms

  unfoldable pub snapshot_issues : Snapshot → List Issue
  unfolding body_issues hash_commitment_snapshot
  snapshot_issues s =
      unless (host.known_timezone s.timezone)
        (issue (codes "timezone") (codes "timezone") (codes "Unknown IANA timezone"))
      ++ (body_issues 0 s.messages
          ++ unless (text_eq (hash_commitment_snapshot s) s.snapshot_hash) (
              issue (codes "snapshot_hash") (codes "snapshotHash")
                (codes "Snapshot hash mismatch")))

  unfoldable pub validate_commitment_snapshot : Snapshot → ValidationResult Snapshot
  unfolding snapshot_issues is_snapshot
  validate_commitment_snapshot s =
      if ltb max_messages (length s.messages)
      then failure
          (issue (codes "bounds") (codes "messages") (codes "Snapshot message bound exceeded") ∷ [])
      else if not (is_snapshot host.is_timestamp host.is_after s)
      then failure (take max_issues (host.snapshot_report s))
      else result_of_issues s (snapshot_issues s)

  abbrev pub validate_against : Ledger → ValidationResult Snapshot → ValidationResult Ledger
  validate_against l (failure is) = failure (take max_issues (map under_snapshot is))
  validate_against l (valid s) =
      if ltb max_ledger_items (length l.items)
      then failure
          (issue (codes "bounds") (codes "items") (codes "Ledger item bound exceeded") ∷ [])
      else if not (is_ledger host.is_timestamp host.is_after l)
      then failure (take max_issues (host.ledger_report l))
      else result_of_issues l (ledger_issues s l)

  unfoldable pub validate_commitment_ledger : Snapshot → Ledger → ValidationResult Ledger
  unfolding validate_commitment_snapshot ledger_issues is_ledger
  validate_commitment_ledger s l = validate_against l (validate_commitment_snapshot s)
