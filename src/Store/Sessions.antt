-- ===== src/Store/Sessions.antt =====
-- session-state.ts: the session anchors.
use commitment_workbench.Prelude.{
  Bool, true, false, Option, none, some, List, map, Text, text_eq, text_lt, filter, head?,
}
use commitment_workbench.Store.Tables.{update_where, insert_or_ignore, select_one, order_by}
pub mod Anchor

pub record SessionState : Type 0 where
  pub session_id : Text
  pub started_at : Text
  pub agent_id : Text
  pub ended_at : Option Text

abbrev pub of_session : Text → SessionState → Bool
of_session session_id r = text_eq r.session_id session_id

-- ended_at IS NULL
abbrev pub is_open : SessionState → Bool
is_open r = elim r.ended_at [ none ↦ true | some _ ↦ false ]

abbrev pub started_of : Option SessionState → Option Text
started_of none = none
started_of (some r) = some r.started_at

abbrev pub ended_of : Option SessionState → Option Text
ended_of none = none
ended_of (some r) = r.ended_at

unfoldable pub read_session_started_at : Text → List SessionState → Option Text
read_session_started_at session_id t = started_of (select_one (of_session session_id) t)

unfoldable pub insert_session_state : Text → Text → Text → List SessionState → List SessionState
insert_session_state session_id started_at agent_id =
    insert_or_ignore (λ a b. text_eq a.session_id b.session_id)
      (record {
        session_id = session_id;
        started_at = started_at;
        agent_id = agent_id;
        ended_at = none;
      })

unfoldable pub select_open_sessions : List SessionState → List (Text × Text)
select_open_sessions t = map (λ r. (r.session_id, r.started_at)) (filter is_open t)

-- ORDER BY started_at DESC LIMIT 1
unfoldable pub select_active_session : List SessionState → Option SessionState
select_active_session t =
    head? (order_by (λ a b. text_lt b.started_at a.started_at) (filter is_open t))

unfoldable pub mark_session_ended : Text → Text → List SessionState → List SessionState
mark_session_ended session_id ended_at =
    update_where (of_session session_id) (λ r. record r { ended_at = some ended_at })

unfoldable pub read_session_ended_at : Text → List SessionState → Option Text
read_session_ended_at session_id t = ended_of (select_one (of_session session_id) t)
