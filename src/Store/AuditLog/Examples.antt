-- ===== src/Store/AuditLog/Examples.antt =====
-- The theorems of the audit log at concrete writes and rows.
use commitment_workbench.Prelude.{
  ℕ, ◌≤◌, ◌≡◌, inl, refl, true, false, ◌≢◌, arith, Option, none, some, List, [], ◌∷◌, ◌++◌, Text,
  codes, text_eq, text_lt,
}
use commitment_workbench.Audit.Chain.{ChainEntry, verify_chain_range}
use commitment_workbench.Store.AuditLog.{
  AuditEntryParams, Env, inferred, insert_row, result_of, newer, fields_of,
}
use commitment_workbench.Store.AuditLog.Appends.{IsStorable, insert_row-appends}
use commitment_workbench.Store.AuditLog.Placed.{IsLog}
use commitment_workbench.Store.AuditLog.Closers.{
  LogWrite, entry, closer, log_writes, written_log_verifies, closers, inferred_at_most_once,
  empty-IsLog,
}
use commitment_workbench.Store.AuditLog.Order.{Rising}
use commitment_workbench.Store.AuditLog.Reads.{encode_audit_cursor, decode_audit_cursor}
use commitment_workbench.Store.AuditLog.Served.{IsAddressable}
use commitment_workbench.Store.AuditLog.Delivery.{walk_audit_chain-Delivers}
use commitment_workbench.LogWalk.{WalkState, exhausted, walk_audit_chain}
use commitment_workbench.LogWalk.Rounds.{rows as delivered_rows}
use commitment_workbench.Prelude.{All, false}
use commitment_workbench.Prelude.Int.{pos}
use commitment_workbench.Store.AuditLog.Reads.{Limit, floor, list_audit_entries}
use commitment_workbench.Store.AuditLog.Paging.{decode-encode}

-- A digest for the examples: the text itself.
abbrev digest : Text → Text
digest s = s

abbrev params : AuditEntryParams
params = record {
  user_id = codes "u";
  agent_id = codes "a";
  session_id = codes "s";
  tool_name = codes "t";
  service = codes "m";
  verb = codes "v";
  noun = codes "n";
  decision = codes "allow";
  origin = none;
  parameters_metadata = codes "{}";
  outcome = codes "success";
  error_message = none;
  latency_ms = record { text = codes "1" };
  cost_usd = none;
  epoch_id = none;
  timestamp = none;
}

abbrev day : Text → Text → Env
day today uuid = record { today = today; now = codes "now"; uuid = uuid }

-- The second clock is behind the first.
abbrev writes : List LogWrite
writes =
    entry (day (codes "b") (codes "1")) params
    ∷ closer (day (codes "a") (codes "2")) params (codes "1") inferred
    ∷ closer (day (codes "c") (codes "3")) params (codes "1") inferred
    ∷ []

written_log_verifies_example :
    (verify_chain_range digest (log_writes digest writes []) none).breaks ≡ []
written_log_verifies_example = written_log_verifies digest writes (refl, (refl, (refl, tt)))

inferred_at_most_once_example : closers (codes "1") (log_writes digest writes []) ≤ 1
inferred_at_most_once_example =
    inferred_at_most_once digest (codes "1") writes (tt, (refl, (refl, tt)))

params-IsStorable : IsStorable params
unfolding text_eq
params-IsStorable = record {
  decision_known = inl refl;
  outcome_known = inl refl;
  origin_known = inl refl;
  latency_number = refl;
}

insert_row-appends_example :
    (e : ChainEntry) × (insert_row digest (day (codes "b") (codes "1")) params none []
      ≡ some (result_of e, [] ++ e ∷ []))
    × IsLog digest ([] ++ e ∷ [])
    × (e.decision_entry_id ≡ none)
insert_row-appends_example =
    insert_row-appends digest (day (codes "b") (codes "1")) params none [] refl params-IsStorable
      (empty-IsLog digest) refl

-- A base64 for the examples: one code in front.
abbrev btoa : Text → Text
btoa s = 0 ∷ s

abbrev atob : Text → Option Text
atob [] = none
atob (c ∷ s) = some s

btoa_kept : (s : Text) → s ≢ [] → btoa s ≢ []
btoa_kept s h = λ e. cc

decode-encode_example :
    decode_audit_cursor btoa atob (some (encode_audit_cursor btoa atob (codes "2026-01-02", 12)))
    ≡ some (codes "2026-01-02", 12)
decode-encode_example =
    decode-encode btoa atob (λ s. refl) btoa_kept (codes "2026-01-02") 12
      (refl, (refl, (refl, (refl, (refl, (refl, (refl, (refl, (refl, (refl, tt))))))))))
      (omega arith)

abbrev row : Text → ℕ → ChainEntry
row epoch_id sequence_num = record {
  fields =
      fields_of (day epoch_id epoch_id) params none epoch_id
        (record { prev_hash = []; sequence_num = sequence_num; epoch_prev_hash = none });
  hash = [];
  epoch_prev_hash = none;
}

abbrev rows : List ChainEntry
rows = row (codes "a") 0 ∷ row (codes "a") 1 ∷ row (codes "b") 0 ∷ []

rows-Rising : Rising newer rows
unfolding newer text_lt text_eq
rows-Rising = ((refl, (refl, tt)), ((refl, tt), (tt, tt)))

page_of_one : Limit
page_of_one = floor (pos 1)

rows-IsAddressable : All IsAddressable rows
rows-IsAddressable =
    (((refl, tt), omega arith), (((refl, tt), omega arith), (((refl, tt), omega arith), tt)))

walk_audit_chain-Delivers_example :
    (s : WalkState) × (walk_audit_chain digest
        (λ n cursor. list_audit_entries btoa atob page_of_one cursor rows)
        (λ n. false)
        true
      ≡ some (s, exhausted))
    × (delivered_rows s.delivered ≡ rows)
    × (s.cursor_exhausted ≡ true)
walk_audit_chain-Delivers_example =
    walk_audit_chain-Delivers digest btoa atob (λ s. refl) btoa_kept page_of_one rows rows-Rising
      rows-IsAddressable true (omega arith)
