-- ===== src/Store/Runs.antt =====
-- commission-runs.ts: the run records behind the task queue, with the columns of schemas/commission-runs.ts.
use commitment_workbench.Prelude.{
  ℕ, Bool, true, false, not, ◌&&◌, ◌||◌, Option, none, some, List, [], ◌∷◌, map, Text, text_eq,
  text_lt, take, filter,
}
use commitment_workbench.Store.Tables.{update_where, insert_unique, select_one, order_by}
pub mod Writes
pub mod Lifecycle
pub mod Paging

pub data Origin : Type 0 where
  mcp_commission human : Origin

pub data Status : Type 0 where
  running awaiting_confirmation completed failed denied expired needs_input cancelled : Status

pub record Run : Type 0 where
  pub id : Text
  pub origin : Origin
  pub goal : Text
  pub run_data : Option Text
  pub status : Status
  pub session_id : Text
  pub created_at : Text
  pub updated_at : Text
  pub label : Option Text
  pub status_detail : Option Text
  pub awaited_slot_keys : Option Text

abbrev pub has_id : Text → Run → Bool
has_id id r = text_eq r.id id

-- status IN ('running', 'awaiting_confirmation')
abbrev pub is_open : Status → Bool
is_open running = true
is_open awaiting_confirmation = true
is_open _ = false

-- status IN ('awaiting_confirmation', 'needs_input')
abbrev pub is_parked : Status → Bool
is_parked awaiting_confirmation = true
is_parked needs_input = true
is_parked _ = false

-- status IN ('running', 'awaiting_confirmation', 'needs_input')
abbrev pub is_non_terminal : Status → Bool
is_non_terminal running = true
is_non_terminal awaiting_confirmation = true
is_non_terminal needs_input = true
is_non_terminal _ = false

abbrev pub is_needs_input : Status → Bool
is_needs_input needs_input = true
is_needs_input _ = false

-- `none` is a violation of the primary key.
unfoldable pub insert_commission_run :
    Text → Text → Option Text → Text → Text → List Run → Option (List Run)
insert_commission_run id goal run_data session_id created_at =
    insert_unique (λ a b. text_eq a.id b.id)
      (record {
        id = id;
        origin = mcp_commission;
        goal = goal;
        run_data = run_data;
        status = running;
        session_id = session_id;
        created_at = created_at;
        updated_at = created_at;
        label = none;
        status_detail = none;
        awaited_slot_keys = none;
      })

unfoldable pub read_commission_run : Text → List Run → Option Run
read_commission_run id = select_one (has_id id)

-- ORDER BY created_at DESC, id DESC
unfoldable pub newer : Run → Run → Bool
newer a b =
    text_lt b.created_at a.created_at || (text_eq b.created_at a.created_at && text_lt b.id a.id)

-- The columns that selectRecentCommissionRuns selects.
pub record RecentRunRow : Type 0 where
  pub id : Text
  pub origin : Origin
  pub goal : Text
  pub run_data : Option Text
  pub status : Status
  pub session_id : Text
  pub created_at : Text
  pub updated_at : Text

abbrev pub recent_run_row : Run → RecentRunRow
recent_run_row r = record {
  id = r.id;
  origin = r.origin;
  goal = r.goal;
  run_data = r.run_data;
  status = r.status;
  session_id = r.session_id;
  created_at = r.created_at;
  updated_at = r.updated_at;
}

unfoldable pub select_recent_commission_runs : ℕ → List Run → List RecentRunRow
select_recent_commission_runs limit table = map recent_run_row (take limit (order_by newer table))

pub record TaskListRow : Type 0 where
  pub id : Text
  pub origin : Origin
  pub goal : Text
  pub status : Status
  pub label : Option Text
  pub created_at : Text
  pub updated_at : Text

abbrev pub task_list_row : Run → TaskListRow
task_list_row r = record {
  id = r.id;
  origin = r.origin;
  goal = r.goal;
  status = r.status;
  label = r.label;
  created_at = r.created_at;
  updated_at = r.updated_at;
}

-- (created_at, id) < (cursor)
abbrev pub is_before : Text → Text → Run → Bool
is_before created_at id r =
    text_lt r.created_at created_at || (text_eq r.created_at created_at && text_lt r.id id)

unfoldable pub list_tasks : ℕ → Option (Text × Text) → List Run → List TaskListRow
list_tasks limit none table = map task_list_row (take limit (order_by newer table))
list_tasks limit (some (created_at, id)) table =
    map task_list_row (take limit (order_by newer (filter (is_before created_at id) table)))

-- The writes of the table, each an UPDATE with its guard.
unfoldable pub update_task_status_detail : Text → Text → Text → List Run → List Run
update_task_status_detail id detail at =
    update_where (has_id id) (λ r. record r { status_detail = some detail; updated_at = at })

unfoldable pub mark_needs_input : Text → Text → Text → List Run → List Run
mark_needs_input id slots at =
    update_where (λ r. has_id id r && is_open r.status)
      (λ r. record r { status = needs_input; awaited_slot_keys = some slots; updated_at = at })

unfoldable pub clear_needs_input : Text → Text → List Run → List Run
clear_needs_input id at =
    update_where (λ r. has_id id r && is_needs_input r.status)
      (λ r. record r { status = running; awaited_slot_keys = none; updated_at = at })

unfoldable pub update_run_data : Text → Text → Text → List Run → List Run
update_run_data id value at =
    update_where (has_id id) (λ r. record r { run_data = some value; updated_at = at })

unfoldable pub update_commission_status : Text → Status → Text → List Run → List Run
update_commission_status id status at =
    update_where (λ r. has_id id r && is_open r.status)
      (λ r. record r { status = status; updated_at = at })

unfoldable pub cancel_run : Text → Text → List Run → List Run
cancel_run id at =
    update_where (λ r. has_id id r && is_parked r.status)
      (λ r. record r { status = cancelled; updated_at = at })

unfoldable pub mark_runs_expired_for_session : Text → Text → List Run → List Run
mark_runs_expired_for_session session_id at =
    update_where (λ r. text_eq r.session_id session_id && is_non_terminal r.status)
      (λ r. record r { status = expired; updated_at = at })

unfoldable pub expire_run : Text → Text → List Run → List Run
expire_run id at =
    update_where (λ r. has_id id r && is_non_terminal r.status)
      (λ r. record r { status = expired; updated_at = at })

unfoldable pub select_non_terminal_runs : List Run → List Run
select_non_terminal_runs = filter (λ r. is_non_terminal r.status)
