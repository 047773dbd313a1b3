-- ===== src/Store/Grants.antt =====
-- policy-entries.ts: the policy entries in force, the grants, and the deny floor.
use commitment_workbench.Prelude.{
  ℕ, ◌*◌, ◌^◌, Bool, true, false, not, ◌&&◌, ◌||◌, Option, none, some, List, map, Text, text_eq,
  text_lt, filter,
}
use commitment_workbench.Prelude.Int.{pos, ltb_ℤ}
use commitment_workbench.Governance.Policy.{
  PolicyEntry, Priority, finite, non_finite, Source, session, task, standing, Verdict,
}
use commitment_workbench.Store.Tables.{
  update_where, delete_where, insert_unique, select_one, order_by,
}
pub mod Live

-- A row of `policy_entries`: what the evaluator reads, and `consumed_at`.
pub record PolicyRow : Type 0 where
  pub entry : PolicyEntry
  pub consumed_at : Option Text

-- `a = b` in SQL, where NULL equals nothing.
abbrev pub sql_eq : Option Text → Option Text → Bool
sql_eq (some a) (some b) = text_eq a b
sql_eq _ _ = false

abbrev pub is_null {ℓ} : {A : Type ℓ} → Option A → Bool
is_null none = true
is_null (some _) = false

-- expires_at IS NULL OR expires_at > now
abbrev pub is_unexpired : Text → Option Text → Bool
is_unexpired now none = true
is_unexpired now (some at) = text_lt now at

-- source IN ('session', 'task', 'standing')
abbrev pub is_evaluated : Source → Bool
is_evaluated session = true
is_evaluated task = true
is_evaluated standing = true

-- source IN ('session', 'task')
abbrev pub is_grant : Source → Bool
is_grant session = true
is_grant task = true
is_grant standing = false

abbrev pub is_task : Source → Bool
is_task task = true
is_task _ = false

abbrev pub is_standing : Source → Bool
is_standing standing = true
is_standing _ = false

-- ORDER BY priority DESC
abbrev pub above : Priority → Priority → Bool
above (finite a) (finite b) = ltb_ℤ b a
above _ _ = false

abbrev pub is_active : Option Text → Text → PolicyRow → Bool
is_active session_id now r =
    is_evaluated r.entry.source
    && (is_null r.entry.session_id || sql_eq r.entry.session_id session_id)
    && is_unexpired now r.entry.expires_at
    && is_null r.consumed_at

-- `now` is the database's clock, in the form of `toISOString`.
unfoldable pub select_active_policy_entries : Option Text → Text → List PolicyRow → List PolicyEntry
select_active_policy_entries session_id now t =
    map (λ r. r.entry)
      (order_by (λ a b. above a.entry.priority b.entry.priority)
        (filter (is_active session_id now) t))

abbrev pub is_active_grant : Option Text → Text → PolicyRow → Bool
is_active_grant session_id now r =
    is_grant r.entry.source
    && sql_eq r.entry.session_id session_id
    && is_unexpired now r.entry.expires_at
    && is_null r.consumed_at

unfoldable pub select_active_grants : Option Text → Text → List PolicyRow → List PolicyEntry
select_active_grants session_id now t =
    map (λ r. r.entry)
      (order_by
        (λ a b.
          above a.entry.priority b.entry.priority
          || (not (above b.entry.priority a.entry.priority)
              && text_lt b.entry.created_at a.entry.created_at))
        (filter (is_active_grant session_id now) t))

unfoldable pub select_standing_entries : List PolicyRow → List PolicyEntry
select_standing_entries t =
    map (λ r. r.entry)
      (order_by
        (λ a b.
          above a.entry.priority b.entry.priority
          || (not (above b.entry.priority a.entry.priority)
              && text_lt a.entry.created_at b.entry.created_at))
        (filter (λ r. is_standing r.entry.source) t))

pub record EntryScope : Type 0 where
  pub decision : Verdict
  pub service : Text
  pub verb : Text
  pub noun : Text
  pub priority : Priority

unfoldable pub read_policy_entry_scope : Text → List PolicyRow → Option EntryScope
read_policy_entry_scope id t = elim (select_one (λ r. text_eq r.entry.id id) t) [
  | none ↦ none
  | some r ↦ some (record {
    decision = r.entry.decision;
    service = r.entry.service;
    verb = r.entry.verb;
    noun = r.entry.noun;
    priority = r.entry.priority;
  })
]

-- A whole number as a priority, counted in the unit of `finite`.
abbrev pub whole_priority : ℕ → Priority
whole_priority n = finite (pos (n * 2 ^ 1074))

-- The scope and the verdict of a grant.
pub record Grant : Type 0 where
  pub id : Text
  pub session_id : Text
  pub service : Text
  pub verb : Text
  pub noun : Text
  pub decision : Verdict
  pub created_at : Text

-- The row of an INSERT: `expires_at` is left out for a task grant.
abbrev pub grant_row : Source → Option Text → Grant → PolicyRow
grant_row source expires_at g = record {
  entry = record {
    id = g.id;
    source = source;
    session_id = some g.session_id;
    service = g.service;
    verb = g.verb;
    noun = g.noun;
    decision = g.decision;
    priority = whole_priority 10;
    created_at = g.created_at;
    expires_at = expires_at;
  };
  consumed_at = none;
}

unfoldable pub insert_session_grant : Grant → Text → List PolicyRow → Option (List PolicyRow)
insert_session_grant g expires_at =
    insert_unique (λ a b. text_eq a.entry.id b.entry.id) (grant_row session (some expires_at) g)

unfoldable pub insert_task_grant : Grant → List PolicyRow → Option (List PolicyRow)
insert_task_grant g = insert_unique (λ a b. text_eq a.entry.id b.entry.id) (grant_row task none g)

abbrev pub is_spendable : Text → PolicyRow → Bool
is_spendable id r = text_eq r.entry.id id && is_task r.entry.source && is_null r.consumed_at

unfoldable pub consume_task_grant : Text → Text → List PolicyRow → List PolicyRow
consume_task_grant id at = update_where (is_spendable id) (λ r. record r { consumed_at = some at })

unfoldable pub delete_policy_entries_except : Text → List PolicyRow → List PolicyRow
delete_policy_entries_except keep = delete_where (λ r. not (text_eq r.entry.id keep))
