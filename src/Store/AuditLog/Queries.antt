-- ===== src/Store/AuditLog/Queries.antt =====
-- The reads of audit-log.ts.
use commitment_workbench.Prelude.{
  ℕ, Bool, ◌&&◌, ◌||◌, Option, none, some, List, Text, codes, text_eq, text_lt, ltb, take, filter,
  map,
}
use commitment_workbench.Audit.Hash.{Shown}
use commitment_workbench.Audit.Chain.{ChainEntry}
use commitment_workbench.Store.Tables.{select_one, order_by}
use commitment_workbench.Store.AuditLog.{newer}

-- The columns of the two identity reads
pub record EntryIdentity : Type 0 where
  pub user_id : Text
  pub agent_id : Text
  pub session_id : Text
  pub tool_name : Text
  pub service : Text
  pub verb : Text
  pub noun : Text
  pub origin : Text

abbrev pub identity_of : Option ChainEntry → Option EntryIdentity
identity_of none = none
identity_of (some r) = some (record {
  user_id = r.user_id;
  agent_id = r.agent_id;
  session_id = r.session_id;
  tool_name = r.tool_name;
  service = r.service;
  verb = r.verb;
  noun = r.noun;
  origin = r.origin;
})

unfoldable pub read_audit_entry_identity : Text → List ChainEntry → Option EntryIdentity
read_audit_entry_identity id t = identity_of (select_one (λ r. text_eq r.id id) t)

pub record StartIdentity : Type 0 where
  pub user_id : Text
  pub agent_id : Text
  pub origin : Text

abbrev pub start_identity_of : Option ChainEntry → Option StartIdentity
start_identity_of none = none
start_identity_of (some r) =
    some (record { user_id = r.user_id; agent_id = r.agent_id; origin = r.origin })

-- Of several rows the query may read any; the model reads the first stored.
unfoldable pub read_session_start_identity : Text → List ChainEntry → Option StartIdentity
read_session_start_identity session_id t = start_identity_of (
    select_one (λ r. text_eq r.session_id session_id && text_eq r.tool_name (codes "session.start"))
      t)

-- The cursor of a page: (epoch_id, sequence_num)
abbrev pub Cursor : Type 0
Cursor = Text × ℕ

-- (epoch_id, sequence_num) < (cursor)
abbrev pub is_before : Cursor → ChainEntry → Bool
is_before (epoch_id, sequence_num) r =
    text_lt r.epoch_id epoch_id || (text_eq r.epoch_id epoch_id && ltb r.sequence_num sequence_num)

unfoldable pub select_audit_chain_page : ℕ → Option Cursor → List ChainEntry → List ChainEntry
select_audit_chain_page limit none t = take limit (order_by newer t)
select_audit_chain_page limit (some c) t = take limit (order_by newer (filter (is_before c) t))

-- The columns of the display window.
pub record RecentAuditEntryRow : Type 0 where
  pub id : Text
  pub epoch_id : Text
  pub sequence_num : ℕ
  pub prev_hash : Text
  pub hash : Text
  pub timestamp : Text
  pub agent_id : Text
  pub session_id : Text
  pub tool_name : Text
  pub service : Text
  pub verb : Text
  pub noun : Text
  pub decision : Text
  pub parameters_metadata : Text
  pub outcome : Text
  pub error_message : Option Text
  pub decision_entry_id : Option Text
  pub latency_ms : Shown
  pub cost_usd : Option Shown
  pub origin : Text

abbrev recent_of : ChainEntry → RecentAuditEntryRow
recent_of r = record {
  id = r.id;
  epoch_id = r.epoch_id;
  sequence_num = r.sequence_num;
  prev_hash = r.prev_hash;
  hash = r.hash;
  timestamp = r.timestamp;
  agent_id = r.agent_id;
  session_id = r.session_id;
  tool_name = r.tool_name;
  service = r.service;
  verb = r.verb;
  noun = r.noun;
  decision = r.decision;
  parameters_metadata = r.parameters_metadata;
  outcome = r.outcome;
  error_message = r.error_message;
  decision_entry_id = r.decision_entry_id;
  latency_ms = r.latency_ms;
  cost_usd = r.cost_usd;
  origin = r.origin;
}

unfoldable pub select_recent_audit_entries : ℕ → List ChainEntry → List RecentAuditEntryRow
select_recent_audit_entries limit t = map recent_of (take limit (order_by newer t))
