-- ===== src/Audit/Hash.antt =====
-- hash.ts: the length-prefixed framing of the hashed fields, and the digest of a row. SHA-256 with its
-- hexadecimal output is the parameter `sha256`.
use commitment_workbench.Prelude.{
  ℕ, zero, suc, ◌+◌, ◌/◌, ◌%◌, Option, none, some, List, [], ◌∷◌, ◌++◌, map, flatten, Text, codes,
  length, ltb, if◌then◌else◌,
}
pub mod Decimal
pub mod Framing

abbrev pub genesis_sentinel : Text
genesis_sentinel = codes "GENESIS"

-- `String(n)` of a natural number, on fuel: `n + 1` rounds are enough, as Decimal shows.
unfoldable pub decimal_on : ℕ → ℕ → Text
decimal_on zero n = []
decimal_on (suc f) n =
    let rest = decimal_on f (n / 10) in
    if ltb n 10 then (48 + n) ∷ [] else rest ++ (48 + n % 10) ∷ []

unfoldable pub decimal : ℕ → Text
unfolding decimal_on
decimal n = decimal_on (suc n) n

-- A number that may be fractional, by the text that `String` gives it: the text identifies it.
pub record Shown : Type 0 where
  pub text : Text

-- `<len>:<value>`, the length in bytes.
unfoldable pub frame_field : Text → Text
frame_field s = decimal (length s) ++ b':' ∷ s

pub record EntryHashFields : Type 0 where
  pub epoch_id : Text
  pub sequence_num : ℕ
  pub prev_hash : Text
  pub id : Text
  pub timestamp : Text
  pub user_id : Text
  pub agent_id : Text
  pub session_id : Text
  pub origin : Text
  pub service : Text
  pub verb : Text
  pub noun : Text
  pub tool_name : Text
  pub parameters_metadata : Text
  pub decision : Text
  pub outcome : Text
  pub error_message : Option Text
  pub decision_entry_id : Option Text
  pub latency_ms : Shown
  pub cost_usd : Option Shown

-- `value ?? ""`
abbrev pub or_empty : Option Text → Text
or_empty none = []
or_empty (some s) = s

abbrev pub shown_or_empty : Option Shown → Text
shown_or_empty none = []
shown_or_empty (some s) = s.text

-- The fields as text, in the order of the hash input.
unfoldable pub field_texts : EntryHashFields → List Text
field_texts e =
    epoch_id
    ∷ decimal sequence_num
    ∷ prev_hash
    ∷ id
    ∷ timestamp
    ∷ user_id
    ∷ agent_id
    ∷ session_id
    ∷ origin
    ∷ service
    ∷ verb
    ∷ noun
    ∷ tool_name
    ∷ parameters_metadata
    ∷ decision
    ∷ outcome
    ∷ or_empty error_message
    ∷ or_empty decision_entry_id
    ∷ latency_ms.text
    ∷ shown_or_empty cost_usd
    ∷ []
  where
    open e use {
      epoch_id, sequence_num, prev_hash, id, timestamp, user_id, agent_id, session_id, origin,
      service, verb, noun, tool_name, parameters_metadata, decision, outcome, error_message,
      decision_entry_id, latency_ms, cost_usd,
    }

unfoldable pub hash_input : List Text → Text
unfolding frame_field
hash_input fields = flatten (map frame_field fields)

module _ (sha256 : Text → Text) where
  unfoldable pub compute_entry_hash : EntryHashFields → Text
  compute_entry_hash fields = sha256 (hash_input (field_texts fields))
