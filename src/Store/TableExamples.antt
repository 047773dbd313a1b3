-- ===== src/Store/TableExamples.antt =====
-- The theorems of the grants, the ledger, the sessions, the flows and the holds at concrete tables.
use commitment_workbench.Prelude.{
  ◌≤◌, ◌≡◌, refl, ◌≢◌, false, Option, none, some, List, [], ◌∷◌, arith, Text, codes, text_eq,
  text_ne, text_lt,
}
use commitment_workbench.Prelude.Int.{pos}
use commitment_workbench.Prelude.Member.{Member}
use commitment_workbench.Governance.Policy.{
  PolicyEntry, PolicyAction, evaluate_policy, allow, allows, denies, task, standing, before,
}
use commitment_workbench.Governance.Policy.Winner.{IsExact}
use commitment_workbench.Governance.Spend.{whole, evaluate_spend}
use commitment_workbench.Governance.Spend.Exact.{Cents, IsSafe}
use commitment_workbench.Store.Tables.{order_by}
use commitment_workbench.Store.Grants.{
  PolicyRow, Grant, grant_row, whole_priority, select_active_policy_entries, consume_task_grant,
  delete_policy_entries_except,
}
use commitment_workbench.Store.Grants.Live.{
  IsLive, active_allow-IsLive, floor_denies, consume_task_grant_once,
}
use commitment_workbench.Store.Ledger.{
  SpendLedgerInsert, spend_row, insert_spend_in_txn, sum_session_spend_cents, sum_month_spend_cents,
}
use commitment_workbench.Store.Ledger.Sums.{within_keeps_cap}
use commitment_workbench.Store.Sessions.{SessionState}
use commitment_workbench.Store.Flows.{OauthState}
use commitment_workbench.Store.Holds.{
  HeldCall, HeldRef, confirmation, of_run, select_held_calls_for_run,
}
use commitment_workbench.Store.Holds.Sweep.{sweep, sweep_run}

abbrev send : PolicyAction (Unit {0})
send = record {
  agent = codes "a";
  service = codes "mail";
  verb = codes "send";
  noun = codes "bo";
  tool_name = codes "t";
  params = tt;
}

abbrev floor_row : PolicyRow
floor_row = record {
  entry = record {
    id = codes "floor";
    source = standing;
    session_id = none;
    service = codes "*";
    verb = codes "*";
    noun = codes "*";
    decision = denies;
    priority = whole_priority 0;
    created_at = codes "2026-01-01T";
    expires_at = none;
  };
  consumed_at = none;
}

abbrev grant_of_send : Grant
grant_of_send = record {
  id = codes "g";
  session_id = codes "s";
  service = codes "mail";
  verb = codes "send";
  noun = codes "bo";
  decision = allows;
  created_at = codes "2026-01-02T";
}

abbrev entries : List PolicyRow
entries = floor_row ∷ grant_row task none grant_of_send ∷ []

abbrev lower : Text → Text
lower t = t

active_allow-IsLive_example :
    (r : PolicyRow) × Member r entries
    × IsLive (some (codes "s")) (codes "2026-01-03T") r
    × IsExact lower send r.entry
    × (r.entry.decision ≡ allows)
    × ((evaluate_policy lower
          (select_active_policy_entries (some (codes "s")) (codes "2026-01-03T") entries)
          send).entry_id
        ≡ some r.entry.id)
unfolding before evaluate_policy select_active_policy_entries order_by text_eq text_lt
active_allow-IsLive_example =
    active_allow-IsLive lower send (some (codes "s")) (codes "2026-01-03T") entries refl

floor_denies_example :
    (evaluate_policy lower
      (select_active_policy_entries
        (some (codes "s"))
        (codes "t")
        (delete_policy_entries_except (codes "floor") entries))
      send).decision
    ≢ allow
floor_denies_example =
    floor_denies lower send (codes "floor") (some (codes "s")) (codes "t") entries (
      λ e. refl,
      (λ e. absurd (text_ne (codes "g") (codes "floor") (unfold text_eq in refl) e), tt),
    )

consume_task_grant_once_example :
    ((session_id : Option Text) (now : Text) (e : PolicyEntry)
      → Member e (
          select_active_policy_entries session_id now
            (consume_task_grant (codes "g") (codes "t") entries))
      → e.source ≡ task
      → e.id ≢ codes "g")
    × ((again : Text)
        → consume_task_grant (codes "g") again (consume_task_grant (codes "g") (codes "t") entries)
          ≡ consume_task_grant (codes "g") (codes "t") entries)
consume_task_grant_once_example = consume_task_grant_once (codes "g") (codes "t") entries

abbrev commit : SpendLedgerInsert
commit = record {
  id = codes "1";
  session_id = codes "s";
  created_at = codes "2026-01-02T03:04:05.678Z";
  service = codes "pay";
  verb = codes "buy";
  amount_cents = whole (pos 500);
  quote_id = codes "q";
  idempotency_key = codes "k";
  audit_entry_id = codes "e";
}

abbrev replay : SpendLedgerInsert
replay = record commit { id = codes "2"; amount_cents = whole (pos 9) }

abbrev purse : Cents
purse = record {
  amount = 500;
  session_limit = 2000;
  month_limit = 5000;
  session_spent = 0;
  month_spent = 0;
}

purse-IsSafe : IsSafe purse
purse-IsSafe = ground arith

within_keeps_cap_example :
    (sum_session_spend_cents (codes "s") (spend_row commit ∷ []) ≤ 2000)
    × (sum_month_spend_cents (codes "2026-01") (spend_row commit ∷ []) ≤ 5000)
within_keeps_cap_example =
    within_keeps_cap purse commit [] (spend_row commit ∷ []) (codes "s") (codes "2026-01")
      purse-IsSafe (unfold sum_session_spend_cents in refl) (unfold sum_month_spend_cents in refl)
      (unfold evaluate_spend in refl) refl (unfold insert_spend_in_txn in refl)

abbrev sessions : List SessionState
sessions =
    record { session_id = codes "s"; started_at = codes "1"; agent_id = codes "a"; ended_at = none }
    ∷ record {
      session_id = codes "u";
      started_at = codes "2";
      agent_id = codes "a";
      ended_at = none;
    }
    ∷ []

abbrev session_u : SessionState
session_u = record {
  session_id = codes "u";
  started_at = codes "2";
  agent_id = codes "a";
  ended_at = none;
}

abbrev flow : OauthState
flow = record {
  state_key = codes "k";
  payload = record {
    code_verifier = codes "v";
    code_challenge = codes "c";
    service = codes "mail";
    auth_code = none;
    created_at = codes "1";
    expires_at = codes "2";
    status = none;
  };
}

abbrev hold : HeldCall
hold = record {
  id = codes "h";
  session_id = codes "s";
  pending_audit_entry_id = codes "p";
  turn_state = [];
  held_at = codes "1";
  run_id = some (codes "r");
  hold_kind = confirmation;
  awaited_slot_keys = none;
  spend_context = none;
}

abbrev holds : List HeldCall
holds = hold ∷ record hold { id = codes "i"; held_at = codes "0" } ∷ []

sweep_run_example :
    ((r : HeldCall)
      → Member r (sweep (select_held_calls_for_run (codes "r") holds) holds)
      → of_run (codes "r") r ≡ false)
    × ((r : HeldCall)
        → Member r holds
        → ((x : HeldRef) → Member x (select_held_calls_for_run (codes "r") holds) → x.id ≢ r.id)
        → Member r (sweep (select_held_calls_for_run (codes "r") holds) holds))
sweep_run_example = sweep_run (codes "r") holds
