-- ===== src/Budget/Traces.antt =====
-- Whole workflows: any sequence of calls, answers, failures, completions and cancellations.
use commitment_workbench.Prelude.{
  ℕ, ◌≤◌, ◌<◌, ◌≡◌, refl, ◌∙◌, Bool, true, false, Option, none, some, List, [], ◌∷◌, arith, length,
  length-append, if◌then◌else◌,
}
use commitment_workbench.Budget.State.{
  Role, Code, deadline, cancelled, disposed, unsettled, Attempt, Budget, close, check_open,
}
use commitment_workbench.Budget.Calls.{CreateParams, Clock, Admission, create_message}
use commitment_workbench.Budget.Settle.{find_attempt, Response, receive, provider_failed, complete}
use commitment_workbench.Budget.Idle.{Idle}
use commitment_workbench.Budget.Refusals.{close-Idle, complete-Idle}
use commitment_workbench.Budget.Bounds.{
  Quiet, Quiet-refl, Idle-Quiet, receive-Quiet, provider_failed-Quiet,
}
use commitment_workbench.Budget.Admitted.{create_message-Admits}
use commitment_workbench.Budget.Admission.{Admits, turned_away, let_in, Room, Reserves}

pub data Event : Type 0 where
  call : Role → CreateParams → Clock → Event
  respond : ℕ → Response → ℕ → Event
  fail_provider : ℕ → ℕ → Event
  finish : ℕ → ℕ → Event
  cancel dispose timer : Event

abbrev pub is_unsettled : Attempt → Bool
is_unsettled e = elim e.provider_settlement [ unsettled ↦ true | _ ↦ false ]

-- A provider settles an attempt once: only one that still waits for it.
abbrev pub when_waiting : ℕ → (Attempt → Budget) → Budget → Budget
when_waiting id f b = elim (find_attempt id b.ledger) [
  | none ↦ b
  | some e ↦ if is_unsettled e then f e else b
]

unfoldable pub step : Event → Budget → Budget
unfolding create_message receive provider_failed complete close
step (call role p clock) b = (create_message role p clock b).1
step (respond id r at) b = when_waiting id (λ e. receive e r at b) b
step (fail_provider id at) b = when_waiting id (λ e. provider_failed e at b) b
step (finish id at) b = (complete id at b).1
step cancel b = close cancelled b
step dispose b = close disposed b
step timer b = close deadline b

unfoldable pub run : List Event → Budget → Budget
unfolding step
run [] b = b
run (e ∷ es) b = run es (step e b)

-- The hard bounds of a budget.
pub record Fits (b : Budget) : Type 0 where
  pub attempts_fit : length b.ledger ≤ b.limits.max_attempts
  pub active_fits : b.active ≤ b.limits.max_concurrent
  pub peak_fits : b.peak ≤ b.limits.max_concurrent
  pub bytes_fit : b.request_bytes ≤ b.limits.max_total_input_bytes
  pub cap_positive : 0 < b.limits.max_output_tokens_per_call

Quiet-Fits : {a b : Budget} → Quiet a b → Fits a → Fits b
Quiet-Fits q f = record {
  attempts_fit = rw (q.same_limits, q.same_length) f.attempts_fit;
  active_fits = rw q.same_limits (omega (arith, q.less_active, f.active_fits));
  peak_fits = rw (q.same_limits, q.same_peak) f.peak_fits;
  bytes_fit = rw (q.same_limits, q.same_bytes) f.bytes_fit;
  cap_positive = rw q.same_limits f.cap_positive;
}

reserve-Fits :
    {role : Role} {bytes tokens : ℕ} {b b' : Budget}
    → Room b bytes tokens
    → Reserves role bytes tokens b b'
    → Fits b
    → Fits b'
reserve-Fits {b = b} room r f = record {
  attempts_fit =
      rw (r.limits_eq, r.appended, length-append b.ledger (r.attempt ∷ []))
        (omega (arith, room.attempt_left));
  active_fits = rw (r.limits_eq, r.active_eq) (omega (arith, room.slot_free));
  peak_fits = rw (r.limits_eq, r.peak_eq) (omega (arith, room.slot_free, f.peak_fits));
  bytes_fit = rw (r.limits_eq, r.bytes_eq) (omega (arith, room.bytes_fit, f.bytes_fit));
  cap_positive = rw r.limits_eq f.cap_positive;
}

when_waiting-Quiet :
    (id : ℕ) (f : Attempt → Budget) (b : Budget)
    → ((e : Attempt) → Quiet b (f e))
    → Quiet b (when_waiting id f b)
when_waiting-Quiet id f b h = go (find_attempt id b.ledger)
  where
    pick : (t : Bool) (e : Attempt) → Quiet b (if t then f e else b)
    pick true e = h e
    pick false e = Quiet-refl b

    go :
        (o : Option Attempt)
        → Quiet b (elim o [ none ↦ b | some e ↦ if is_unsettled e then f e else b ])
    go none = Quiet-refl b
    go (some e) = pick (is_unsettled e) e

-- Either nothing is admitted by an event, or it is a call that is let in.
data Steps (b : Budget) : Budget → Type 0 where
  quiet : {b' : Budget} → Quiet b b' → Steps b b'
  admitted :
      {b' b'' : Budget} (role : Role) (bytes tokens : ℕ)
      → Idle b b'
      → Room b' bytes tokens
      → Reserves role bytes tokens b' b''
      → Steps b b''

step-Steps : (e : Event) (b : Budget) → 0 < b.limits.max_output_tokens_per_call → Steps b (step e b)
unfolding step
step-Steps (call role p clock) b cap = go (create_message-Admits role p clock b cap)
  where
    go : {x : Admission × Budget} → Admits role b x → Steps b x.1
    go (turned_away q) = quiet (Idle-Quiet q)
    go (let_in bytes tokens q room r) = admitted role bytes tokens q room r
step-Steps (respond id r at) b cap = quiet (when_waiting-Quiet id _ b (λ e. receive-Quiet e r at b))
step-Steps (fail_provider id at) b cap =
    quiet (when_waiting-Quiet id _ b (λ e. provider_failed-Quiet e at b))
step-Steps (finish id at) b cap = quiet (Idle-Quiet (complete-Idle id at b))
step-Steps cancel b cap = quiet (Idle-Quiet (close-Idle cancelled b))
step-Steps dispose b cap = quiet (Idle-Quiet (close-Idle disposed b))
step-Steps timer b cap = quiet (Idle-Quiet (close-Idle deadline b))

Steps-Fits : {b b' : Budget} → Steps b b' → Fits b → Fits b'
Steps-Fits (quiet q) f = Quiet-Fits q f
Steps-Fits (admitted role bytes tokens q room r) f =
    reserve-Fits room r (Quiet-Fits (Idle-Quiet q) f)

Steps-limits : {b b' : Budget} → Steps b b' → b'.limits ≡ b.limits
Steps-limits (quiet q) = q.same_limits
Steps-limits (admitted role bytes tokens q room r) = r.limits_eq ∙ q.same_limits

pub run-limits : (es : List Event) (b : Budget) → Fits b → (run es b).limits ≡ b.limits
unfolding run
run-limits [] b f = refl
run-limits (e ∷ es) b f =
    let s = step-Steps e b f.cap_positive in
    run-limits es (step e b) (Steps-Fits s f) ∙ Steps-limits s

pub step-Fits : (e : Event) (b : Budget) → Fits b → Fits (step e b)
step-Fits e b f = Steps-Fits (step-Steps e b f.cap_positive) f

-- Whatever is called, answered, cancelled or completed, in any order: a budget that keeps its bounds
-- keeps them, so that the attempts, the concurrent and the peak calls and the bytes of all requests
-- never pass their limits.
pub run-Fits : (es : List Event) (b : Budget) → Fits b → Fits (run es b)
unfolding run
run-Fits [] b f = f
run-Fits (e ∷ es) b f = run-Fits es (step e b) (Steps-Fits (step-Steps e b f.cap_positive) f)

Steps-closed : {b b' : Budget} (c : Code) → Steps b b' → b.closed ≡ some c → Quiet b b'
Steps-closed c (quiet q) h = q
Steps-closed c (admitted role bytes tokens q room r) h = cc (q.stays_closed c h, room.still_open)

-- A closed budget that keeps its bounds stays closed for its first reason, whatever follows: no attempt
-- is admitted any more and no request's bytes are counted.
pub run-closed :
    (es : List Event) (b : Budget) (c : Code)
    → b.closed ≡ some c
    → Fits b
    → ((run es b).closed ≡ some c)
      × (length (run es b).ledger ≡ length b.ledger)
      × ((run es b).request_bytes ≡ b.request_bytes)
unfolding run
run-closed [] b c h f = (h, refl, refl)
run-closed (e ∷ es) b c h f =
    let q = Steps-closed c (step-Steps e b f.cap_positive) h in
    let (x, y, z) = run-closed es (step e b) c (q.stays_closed c h) (Quiet-Fits q f) in
    (x, y ∙ q.same_length, z ∙ q.same_bytes)

-- No late output: once a budget that keeps its bounds is closed, no answer that comes after, in any
-- sequence of events, is returned to its caller.
pub no_late_output :
    (es : List Event) (b : Budget) (c : Code) (id at : ℕ)
    → b.closed ≡ some c
    → Fits b
    → (complete id at (run es b)).0 ≡ false
unfolding complete check_open close
no_late_output es b c id at h f = let (x, y, z) = run-closed es b c h f in rw x refl
