-- ===== src/Store/AuditLog.antt =====
-- audit-log.ts: the appends to the audit log, with the constraints of its table in ddl.ts. A row is a `ChainEntry` of the verifier; the
-- column parameters_content, which every insert sets to NULL and no chain read selects, is left out.
-- Text is a list of UTF-8 bytes, so that `wellFormed` changes none.
use commitment_workbench.Prelude.{
  ℕ, ◌+◌, Bool, true, false, not, any, ◌&&◌, ◌||◌, Option, none, some, List, [], ◌∷◌, Text, codes,
  text_eq, text_lt, ltb, ◌==◌, take, filter, head?, if◌then◌else◌,
}
use commitment_workbench.Audit.Hash.{
  EntryHashFields, Shown, compute_entry_hash, genesis_sentinel as sentinel_text,
}
use commitment_workbench.Audit.Chain.{ChainEntry}
use commitment_workbench.Store.Tables.{insert_unique, select_one, order_by, is_some}
pub mod Order
pub mod Epochs
pub mod Placed
pub mod Appends
pub mod Closers
pub mod Queries
pub mod Reads
pub mod Paging
pub mod Served
pub mod Delivery
mod Examples

-- `latency_ms` may be NaN, `cost_usd` is never NaN. `epoch_id` and `timestamp` are the overrides of a caller; `parameters_metadata` is the JSON text.
pub record AuditEntryParams : Type 0 where
  pub user_id : Text
  pub agent_id : Text
  pub session_id : Text
  pub tool_name : Text
  pub service : Text
  pub verb : Text
  pub noun : Text
  pub decision : Text
  pub origin : Option Text
  pub parameters_metadata : Text
  pub outcome : Text
  pub error_message : Option Text
  pub latency_ms : Shown
  pub cost_usd : Option Shown
  pub epoch_id : Option Text
  pub timestamp : Option Text

-- The clock, `now` as an instant and `today` as its date, and the new random id.
pub record Env : Type 0 where
  pub today : Text
  pub now : Text
  pub uuid : Text

pub record AuditEntryResult : Type 0 where
  pub id : Text
  pub hash : Text
  pub epoch_id : Text
  pub sequence_num : ℕ

abbrev pub or_default : Option Text → Text → Text
or_default none d = d
or_default (some s) d = s

-- SELECT MAX(epoch_id)
unfoldable pub max_epoch : List ChainEntry → Option Text
max_epoch [] = none
max_epoch (r ∷ t) = elim (max_epoch t) [
  | none ↦ some r.epoch_id
  | some m ↦ some (if text_lt m r.epoch_id then r.epoch_id else m)
]

unfoldable pub derive_monotonic_epoch_id : Text → List ChainEntry → Text
unfolding max_epoch
derive_monotonic_epoch_id today t = elim (max_epoch t) [
  | none ↦ today
  | some m ↦ if text_lt today m then m else today
]

-- ORDER BY epoch_id DESC, sequence_num DESC
unfoldable pub newer : ChainEntry → ChainEntry → Bool
newer a b =
    text_lt b.epoch_id a.epoch_id
    || (text_eq b.epoch_id a.epoch_id && ltb b.sequence_num a.sequence_num)

-- ORDER BY sequence_num DESC
unfoldable pub by_sequence : ChainEntry → ChainEntry → Bool
by_sequence a b = ltb b.sequence_num a.sequence_num

unfoldable pub last_in_epoch : Text → List ChainEntry → Option ChainEntry
last_in_epoch epoch_id t =
    head? (order_by by_sequence (filter (λ r. text_eq r.epoch_id epoch_id) t))

unfoldable pub last_overall : List ChainEntry → Option ChainEntry
last_overall t = head? (order_by newer t)

-- Where a row goes in the chain.
pub record Place : Type 0 where
  pub prev_hash : Text
  pub sequence_num : ℕ
  pub epoch_prev_hash : Option Text

abbrev pub hash_of : Option ChainEntry → Option Text
hash_of none = none
hash_of (some r) = some r.hash

abbrev pub place_after : Option ChainEntry → Option Text → Place
place_after (some l) link = record {
  prev_hash = l.hash;
  sequence_num = l.sequence_num + 1;
  epoch_prev_hash = none;
}
place_after none link = record {
  prev_hash = sentinel_text;
  sequence_num = 0;
  epoch_prev_hash = link;
}

unfoldable pub place_of : Text → List ChainEntry → Place
unfolding last_in_epoch last_overall
place_of epoch_id t = place_after (last_in_epoch epoch_id t) (hash_of (last_overall t))

-- The conditioned fields, with the row's place.
abbrev pub fields_of : Env → AuditEntryParams → Option Text → Text → Place → EntryHashFields
fields_of env p referent epoch_id place = record {
  epoch_id = epoch_id;
  sequence_num = place.sequence_num;
  prev_hash = place.prev_hash;
  id = env.uuid;
  timestamp = or_default p.timestamp env.now;
  user_id = p.user_id;
  agent_id = p.agent_id;
  session_id = p.session_id;
  origin = or_default p.origin (codes "human");
  service = p.service;
  verb = p.verb;
  noun = p.noun;
  tool_name = p.tool_name;
  parameters_metadata = p.parameters_metadata;
  decision = p.decision;
  outcome = p.outcome;
  error_message = p.error_message;
  decision_entry_id = referent;
  latency_ms = p.latency_ms;
  cost_usd = p.cost_usd;
}

-- The primary key, and the unique index on (epoch_id, sequence_num)
abbrev pub same_key : ChainEntry → ChainEntry → Bool
same_key a b =
    text_eq a.id b.id || (text_eq a.epoch_id b.epoch_id && a.sequence_num == b.sequence_num)

abbrev pub is_in : List Text → Text → Bool
is_in options s = any (text_eq s) options

abbrev pub decisions : List Text
decisions = codes "allow" ∷ codes "deny" ∷ codes "pending" ∷ []

abbrev pub outcomes : List Text
outcomes = codes "success" ∷ codes "error" ∷ codes "timeout" ∷ []

abbrev pub origins : List Text
origins = codes "human" ∷ codes "mcp_commission" ∷ []

abbrev pub not_a_number : Text
not_a_number = codes "NaN"

-- The CHECK constraints, and NOT NULL where a value of the row can be NULL: NaN is bound as NULL.
unfoldable pub satisfies_checks : ChainEntry → Bool
satisfies_checks r =
    is_in decisions r.decision
    && is_in outcomes r.outcome
    && is_in origins r.origin
    && not (text_eq r.latency_ms.text not_a_number)

abbrev pub result_of : ChainEntry → AuditEntryResult
result_of r = record {
  id = r.id;
  hash = r.hash;
  epoch_id = r.epoch_id;
  sequence_num = r.sequence_num;
}

abbrev pub with_result :
    ChainEntry → Option (List ChainEntry) → Option (AuditEntryResult × List ChainEntry)
with_result r none = none
with_result r (some t) = some (result_of r, t)

-- `p.epochId ?? deriveMonotonicEpochId(sql)`
abbrev pub epoch_of : Env → AuditEntryParams → List ChainEntry → Text
epoch_of env p t = or_default p.epoch_id (derive_monotonic_epoch_id env.today t)

pub data CloserBasis : Type 0 where
  observed inferred : CloserBasis

abbrev pub closes : Text → ChainEntry → Bool
closes id r = elim r.decision_entry_id [ none ↦ false | some j ↦ text_eq j id ]

unfoldable pub has_closer_in_txn : Text → List ChainEntry → Bool
has_closer_in_txn id t = is_some (select_one (closes id) t)

-- What a write comes to: a row, a skip, or a constraint violation that is thrown.
pub data WriteResult : Type 0 where
  written : AuditEntryResult → List ChainEntry → WriteResult
  skipped : WriteResult
  violation : WriteResult

abbrev pub to_result : Option (AuditEntryResult × List ChainEntry) → WriteResult
to_result none = violation
to_result (some (r, t)) = written r t

module _ (sha256 : Text → Text) where
  unfoldable pub row_of : Env → AuditEntryParams → Option Text → List ChainEntry → ChainEntry
  unfolding place_of derive_monotonic_epoch_id
  row_of env p referent t =
      let epoch_id = epoch_of env p t in
      let place = place_of epoch_id t in
      let fields = fields_of env p referent epoch_id place in
      record {
        fields = fields;
        hash = compute_entry_hash sha256 fields;
        epoch_prev_hash = place.epoch_prev_hash;
      }

  unfoldable pub insert_row :
      Env
      → AuditEntryParams
      → Option Text
      → List ChainEntry
      → Option (AuditEntryResult × List ChainEntry)
  unfolding row_of satisfies_checks
  insert_row env p referent t =
      let r = row_of env p referent t in
      with_result r (if satisfies_checks r then insert_unique same_key r t else none)

  unfoldable pub insert_audit_entry_in_txn : Env → AuditEntryParams → List ChainEntry → WriteResult
  unfolding insert_row
  insert_audit_entry_in_txn env p t = to_result (insert_row env p none t)

  unfoldable pub close_decision_entry_in_txn :
      Env → AuditEntryParams → Text → CloserBasis → List ChainEntry → WriteResult
  unfolding insert_row has_closer_in_txn
  close_decision_entry_in_txn env p referent observed t =
      to_result (insert_row env p (some referent) t)
  close_decision_entry_in_txn env p referent inferred t =
      if has_closer_in_txn referent t
      then skipped
      else to_result (insert_row env p (some referent) t)
