-- ===== src/Store/Runs/Writes.antt =====
-- The writes of the run table as one type, and what each does to a single row.
use commitment_workbench.Prelude.{
  ◌≡◌, refl, inl, inr, Bool, true, false, Option, none, some, List, [], ◌∷◌, ◌++◌, Text, Bool-cases,
  &&_true, if◌then◌else◌, any,
}
use commitment_workbench.Store.Tables.{update_where, insert_unique}
use commitment_workbench.Store.Runs.{
  Run, Status, running, awaiting_confirmation, completed, failed, denied, expired, needs_input,
  cancelled, is_open, is_parked, is_non_terminal, is_needs_input, insert_commission_run,
  update_task_status_detail, mark_needs_input, clear_needs_input, update_run_data,
  update_commission_status, cancel_run, mark_runs_expired_for_session, expire_run,
}

-- Every helper that writes the table, with its arguments.
pub data Write : Type 0 where
  insert : Text → Text → Option Text → Text → Text → Write
  set_status_detail : Text → Text → Text → Write
  park_for_input : Text → Text → Text → Write
  resume_input : Text → Text → Write
  set_data : Text → Text → Text → Write
  set_status : Text → Status → Text → Write
  cancel : Text → Text → Write
  expire_session : Text → Text → Write
  expire : Text → Text → Write

-- A write that throws leaves the table as it was.
abbrev pub or_same : List Run → Option (List Run) → List Run
or_same t none = t
or_same t (some u) = u

unfoldable pub apply_write : Write → List Run → List Run
apply_write (insert id goal d session at) t =
    or_same t (insert_commission_run id goal d session at t)
apply_write (set_status_detail id detail at) t = update_task_status_detail id detail at t
apply_write (park_for_input id slots at) t = mark_needs_input id slots at t
apply_write (resume_input id at) t = clear_needs_input id at t
apply_write (set_data id d at) t = update_run_data id d at t
apply_write (set_status id s at) t = update_commission_status id s at t
apply_write (cancel id at) t = cancel_run id at t
apply_write (expire_session session at) t = mark_runs_expired_for_session session at t
apply_write (expire id at) t = expire_run id at t

-- The statuses that a single write can lead between.
pub data CanBecome : Status → Status → Type 0 where
  unchanged : {s : Status} → CanBecome s s
  from_running : {s : Status} → CanBecome running s
  from_awaiting : {s : Status} → CanBecome awaiting_confirmation s
  resumed : CanBecome needs_input running
  dropped : CanBecome needs_input cancelled
  lapsed : CanBecome needs_input expired

-- What a write may do to a row: the identity of the run stays, and the status takes an allowed step.
pub record Evolves (r r' : Run) : Type 0 where
  pub same_id : r'.id ≡ r.id
  pub same_goal : r'.goal ≡ r.goal
  pub same_origin : r'.origin ≡ r.origin
  pub same_session : r'.session_id ≡ r.session_id
  pub same_created : r'.created_at ≡ r.created_at
  pub step : CanBecome r.status r'.status

-- The table keeps its rows, each evolved.
pub data AllEvolve : List Run → List Run → Type 0 where
  done : {more : List Run} → AllEvolve [] more
  next : {r r' : Run} {t u : List Run} → Evolves r r' → AllEvolve t u → AllEvolve (r ∷ t) (r' ∷ u)

Evolves-refl : (r : Run) → Evolves r r
Evolves-refl r = record {
  same_id = refl;
  same_goal = refl;
  same_origin = refl;
  same_session = refl;
  same_created = refl;
  step = unchanged;
}

AllEvolve-append : (t more : List Run) → AllEvolve t (t ++ more)
AllEvolve-append [] more = done
AllEvolve-append (r ∷ t) more = next (Evolves-refl r) (AllEvolve-append t more)

AllEvolve-refl : (t : List Run) → AllEvolve t t
AllEvolve-refl [] = done
AllEvolve-refl (r ∷ t) = next (Evolves-refl r) (AllEvolve-refl t)

update_where-AllEvolve :
    (p : Run → Bool) (f : Run → Run) (t : List Run)
    → ((r : Run) → p r ≡ true → Evolves r (f r))
    → AllEvolve t (update_where p f t)
unfolding update_where
update_where-AllEvolve p f [] h = done
update_where-AllEvolve p f (r ∷ t) h = next (both (p r) refl) (update_where-AllEvolve p f t h)
  where
    both : (b : Bool) → p r ≡ b → Evolves r (if b then f r else r)
    both true e = h r e
    both false e = Evolves-refl r

leave_open : (s s' : Status) → is_open s ≡ true → CanBecome s s'
leave_open running s' h = from_running
leave_open awaiting_confirmation s' h = from_awaiting
leave_open completed s' h = cc
leave_open failed s' h = cc
leave_open denied s' h = cc
leave_open expired s' h = cc
leave_open needs_input s' h = cc
leave_open cancelled s' h = cc

leave_parked : (s : Status) → is_parked s ≡ true → CanBecome s cancelled
leave_parked awaiting_confirmation h = from_awaiting
leave_parked needs_input h = dropped
leave_parked running h = cc
leave_parked completed h = cc
leave_parked failed h = cc
leave_parked denied h = cc
leave_parked expired h = cc
leave_parked cancelled h = cc

leave_non_terminal : (s : Status) → is_non_terminal s ≡ true → CanBecome s expired
leave_non_terminal running h = from_running
leave_non_terminal awaiting_confirmation h = from_awaiting
leave_non_terminal needs_input h = lapsed
leave_non_terminal completed h = cc
leave_non_terminal failed h = cc
leave_non_terminal denied h = cc
leave_non_terminal expired h = cc
leave_non_terminal cancelled h = cc

leave_needs_input : (s : Status) → is_needs_input s ≡ true → CanBecome s running
leave_needs_input needs_input h = resumed
leave_needs_input running h = cc
leave_needs_input awaiting_confirmation h = cc
leave_needs_input completed h = cc
leave_needs_input failed h = cc
leave_needs_input denied h = cc
leave_needs_input expired h = cc
leave_needs_input cancelled h = cc

with_status :
    (r : Run) (s : Status) (at : Text) (slots : Option Text)
    → CanBecome r.status s
    → Evolves r (record r { status = s; updated_at = at; awaited_slot_keys = slots })
with_status r s at slots c = record {
  same_id = refl;
  same_goal = refl;
  same_origin = refl;
  same_session = refl;
  same_created = refl;
  step = c;
}

with_detail :
    (r : Run) (value detail : Option Text) (at : Text)
    → Evolves r (record r { run_data = value; status_detail = detail; updated_at = at })
with_detail r value detail at = record {
  same_id = refl;
  same_goal = refl;
  same_origin = refl;
  same_session = refl;
  same_created = refl;
  step = unchanged;
}

or_same-AllEvolve :
    (r : Run) (t : List Run) (same : Run → Run → Bool)
    → AllEvolve t (or_same t (insert_unique same r t))
unfolding insert_unique
or_same-AllEvolve r t same = elim (Bool-cases (any (same r) t)) [
  | inl e ↦ rw e (AllEvolve-refl t)
  | inr e ↦ rw e (AllEvolve-append t (r ∷ []))
]

-- Every write keeps each row in its place, with its id, goal, origin, session and creation time, and
-- takes its status by an allowed step: a terminal status stays, and a run that needs input can only
-- be resumed, cancelled or expired.
pub apply_write-AllEvolve : (w : Write) (t : List Run) → AllEvolve t (apply_write w t)
unfolding apply_write insert_commission_run update_task_status_detail mark_needs_input
    clear_needs_input update_run_data update_commission_status cancel_run
    mark_runs_expired_for_session expire_run
apply_write-AllEvolve (insert id goal d session at) t = or_same-AllEvolve _ t _
apply_write-AllEvolve (set_status_detail id detail at) t =
    update_where-AllEvolve _ _ t (λ r h. with_detail r r.run_data (some detail) at)
apply_write-AllEvolve (park_for_input id slots at) t =
    update_where-AllEvolve _ _ t
      (λ r h. with_status r needs_input at (some slots) (leave_open r.status _ (&&_true _ _ h).1))
apply_write-AllEvolve (resume_input id at) t =
    update_where-AllEvolve _ _ t
      (λ r h. with_status r running at none (leave_needs_input r.status (&&_true _ _ h).1))
apply_write-AllEvolve (set_data id d at) t =
    update_where-AllEvolve _ _ t (λ r h. with_detail r (some d) r.status_detail at)
apply_write-AllEvolve (set_status id s at) t =
    update_where-AllEvolve _ _ t
      (λ r h. with_status r s at r.awaited_slot_keys (leave_open r.status s (&&_true _ _ h).1))
apply_write-AllEvolve (cancel id at) t = update_where-AllEvolve _ _ t (λ r h.
    with_status r cancelled at r.awaited_slot_keys (leave_parked r.status (&&_true _ _ h).1))
apply_write-AllEvolve (expire_session session at) t = update_where-AllEvolve _ _ t (λ r h.
    with_status r expired at r.awaited_slot_keys (leave_non_terminal r.status (&&_true _ _ h).1))
apply_write-AllEvolve (expire id at) t = update_where-AllEvolve _ _ t (λ r h.
    with_status r expired at r.awaited_slot_keys (leave_non_terminal r.status (&&_true _ _ h).1))
