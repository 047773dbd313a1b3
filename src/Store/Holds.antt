-- ===== src/Store/Holds.antt =====
-- held-tool-calls.ts: the calls that wait for a confirmation or for input.
use commitment_workbench.Prelude.{
  Bool, true, false, ◌&&◌, ◌||◌, Option, none, some, List, [], map, Text, text_eq, text_lt, filter,
}
use commitment_workbench.Store.Tables.{
  update_where, delete_where, insert_unique, select_one, order_by,
}
pub mod Sweep

pub data HoldKind : Type 0 where
  confirmation input : HoldKind

pub record HeldCall : Type 0 where
  pub id : Text
  pub session_id : Text
  pub pending_audit_entry_id : Text
  pub turn_state : Text
  pub held_at : Text
  pub run_id : Option Text
  pub hold_kind : HoldKind
  pub awaited_slot_keys : Option Text
  pub spend_context : Option Text

abbrev pub of_id : Text → HeldCall → Bool
of_id id r = text_eq r.id id

-- run_id = id, which no NULL meets
abbrev pub of_run : Text → HeldCall → Bool
of_run run_id r = elim r.run_id [ none ↦ false | some id ↦ text_eq id run_id ]

abbrev pub is_input : HoldKind → Bool
is_input input = true
is_input confirmation = false

-- ORDER BY held_at ASC, id ASC
unfoldable pub older : HeldCall → HeldCall → Bool
older a b = text_lt a.held_at b.held_at || (text_eq a.held_at b.held_at && text_lt a.id b.id)

-- `none` is a violation of the primary key.
unfoldable pub insert_held_tool_call : HeldCall → List HeldCall → Option (List HeldCall)
insert_held_tool_call r = insert_unique (λ a b. text_eq a.id b.id) r

-- The columns that `selectHeldCalls` reads.
pub record HeldCallRow : Type 0 where
  pub id : Text
  pub session_id : Text
  pub turn_state : Text
  pub run_id : Option Text

unfoldable pub select_held_calls : List HeldCall → List HeldCallRow
select_held_calls t =
    map
      (λ r. record {
        id = r.id;
        session_id = r.session_id;
        turn_state = r.turn_state;
        run_id = r.run_id;
      })
      (order_by older t)

unfoldable pub read_held_call : Text → List HeldCall → Option HeldCall
read_held_call id = select_one (of_id id)

-- The columns that a sweep reads.
pub record HeldRef : Type 0 where
  pub id : Text
  pub pending_audit_entry_id : Text
  pub turn_state : Text

abbrev pub held_ref : HeldCall → HeldRef
held_ref r = record {
  id = r.id;
  pending_audit_entry_id = r.pending_audit_entry_id;
  turn_state = r.turn_state;
}

abbrev pub ref_of : Option HeldCall → Option HeldRef
ref_of none = none
ref_of (some r) = some (held_ref r)

abbrev pub id_of : Option HeldCall → Option Text
id_of none = none
id_of (some r) = some r.id

-- Of several rows that meet the test the query may read any; the model reads the first stored.
unfoldable pub select_input_hold_for_task : Text → List HeldCall → Option HeldRef
select_input_hold_for_task run_id t =
    ref_of (select_one (λ r. of_run run_id r && is_input r.hold_kind) t)

unfoldable pub update_held_turn_state : Text → Text → List HeldCall → List HeldCall
update_held_turn_state id turn_state =
    update_where (of_id id) (λ r. record r { turn_state = turn_state })

unfoldable pub rehold_for_spend : Text → Text → Text → List HeldCall → List HeldCall
rehold_for_spend id pending_audit_entry_id spend_context = update_where (of_id id) (λ r. record r {
  pending_audit_entry_id = pending_audit_entry_id;
  spend_context = some spend_context;
})

unfoldable pub select_held_call_for_run : Text → List HeldCall → Option Text
select_held_call_for_run run_id t = id_of (select_one (of_run run_id) t)

unfoldable pub delete_held_tool_call : Text → List HeldCall → List HeldCall
delete_held_tool_call id = delete_where (of_id id)

unfoldable pub select_held_calls_for_run : Text → List HeldCall → List HeldRef
select_held_calls_for_run run_id t = map held_ref (order_by older (filter (of_run run_id) t))

unfoldable pub select_held_calls_for_session : Text → List HeldCall → List HeldRef
select_held_calls_for_session session_id t =
    map held_ref (filter (λ r. text_eq r.session_id session_id) t)

unfoldable pub select_held_call_audit_refs : List HeldCall → List HeldRef
select_held_call_audit_refs t = map held_ref t

unfoldable pub delete_all_held_tool_calls : List HeldCall → List HeldCall
delete_all_held_tool_calls t = delete_where (λ r. true) t
