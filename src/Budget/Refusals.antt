-- ===== src/Budget/Refusals.antt =====
-- Closing, refusing, and what an answer does behind its settlement leave the accounts of a budget alone.
use commitment_workbench.Prelude.{
  ℕ, ◌-◌, ◌≡◌, refl, inl, inr, Bool, true, false, not, ◌&&◌, Option, none, some, map, leb,
  if◌then◌else◌, Bool-cases,
}
use commitment_workbench.Budget.Data.{Copy, counted, exceeded, invalid, Json}
use commitment_workbench.Budget.State.{
  Code, response_bytes_limit, invalid_response, unknown_usage, input_token_limit,
  output_token_limit, deadline, succeeded, rejected, unknown, provider_error, Usage, Attempt,
  Budget, close, is_closed, abort_run, check_open, read_usage,
}
use commitment_workbench.Budget.Settle.{
  update_attempt, mark_refused, is_refused, Response, reject, settle, receive_copy, receive_tested,
  unless_closed, receive, provider_failed, complete, valid_response, note_bytes,
}
use commitment_workbench.Budget.Idle.{
  Idle, Idle-refl, Idle-trans, cores-map, update-Idle, abort_run-core, mark_refused-core,
}

pub close-Idle : (code : Code) (b : Budget) → Idle b (close code b)
unfolding close
close-Idle code b = go b.closed refl
  where
    go :
        (o : Option Code)
        → b.closed ≡ o
        → Idle b (elim o [
          | none ↦ record b { closed = some code; ledger = map (abort_run code) b.ledger }
          | some c ↦ b
        ])
    go none e = record {
      same_limits = refl;
      same_cores = cores-map (abort_run code) (abort_run-core code) b.ledger;
      same_active = refl;
      same_peak = refl;
      same_bytes = refl;
      same_requested = refl;
      same_reserved = refl;
      same_input = refl;
      same_output = refl;
      stays_closed = λ c h. cc (e, h);
    }
    go (some c) e = Idle-refl b

pub check_open-Idle : (at : ℕ) (b : Budget) → Idle b (check_open at b)
unfolding check_open
check_open-Idle at b = elim (Bool-cases (not (is_closed b) && leb b.limits.wall_time_ms at)) [
  | inl e ↦ rw e (close-Idle deadline b)
  | inr e ↦ rw e (Idle-refl b)
]

reject-Idle : (id : ℕ) (code : Code) (b : Budget) → Idle b (reject id code b)
unfolding reject
reject-Idle id code b =
    Idle-trans (update-Idle b id (mark_refused code) (mark_refused-core code)) (close-Idle code _)

either-Idle :
    (b : Budget) (t : Bool) (x y : Budget) → Idle b x → Idle b y → Idle b (if t then x else y)
either-Idle b true x y p q = p
either-Idle b false x y p q = q

unless_closed-Idle :
    (id : ℕ) (a b next : Budget) → Idle a b → Idle a next → Idle a (unless_closed id b next)
unfolding unless_closed
unless_closed-Idle id a b next p q = go b.closed
  where
    go : (o : Option Code) → Idle a (elim o [ some c ↦ reject id c b | none ↦ next ])
    go none = q
    go (some c) = Idle-trans p (reject-Idle id c b)

receive_copy-Idle :
    (id : ℕ) (v : Json) (at : ℕ) (m : Copy) (b : Budget) → Idle b (receive_copy id v at m b)
unfolding receive_copy
receive_copy-Idle id v at (exceeded n) b =
    Idle-trans (update-Idle b id (λ e. record e { response_bytes = some n }) (λ e. refl))
      (reject-Idle id response_bytes_limit _)
receive_copy-Idle id v at invalid b = reject-Idle id invalid_response b
receive_copy-Idle id v at (counted n) b =
    let noted : Budget = record b { ledger = update_attempt id (note_bytes n true) b.ledger } in
    let step : Idle b noted = update-Idle b id (note_bytes n true) (λ e. refl) in
    let opened = Idle-trans step (check_open-Idle at noted) in
    either-Idle b (not (valid_response v)) (reject id invalid_response noted)
      (unless_closed id (check_open at noted) (check_open at noted))
      (Idle-trans step (reject-Idle id invalid_response noted))
      (unless_closed-Idle id b (check_open at noted) (check_open at noted) opened opened)

receive_tested-Idle :
    (e : Attempt) (u : Usage) (v : Json) (at : ℕ) (b : Budget) → Idle b (receive_tested e u v at b)
unfolding receive_tested
receive_tested-Idle e u v at b = either-Idle b _ _ _ (reject-Idle e.id unknown_usage b) (
    either-Idle b _ _ _ (reject-Idle e.id input_token_limit b) (
      either-Idle b _ _ _ (reject-Idle e.id output_token_limit b)
        (receive_copy-Idle e.id v at _ b)))

-- Behind the settlement, an answer changes marks only.
pub receive-settle :
    (e : Attempt) (r : Response) (at : ℕ) (b : Budget)
    → Idle (settle e (read_usage r.usage) at b) (receive e r at b)
unfolding receive
receive-settle e r at b =
    let next : Budget = settle e (read_usage r.usage) at b in
    unless_closed-Idle e.id next next (receive_tested e (read_usage r.usage) r.value at next)
      (Idle-refl next) (receive_tested-Idle e (read_usage r.usage) r.value at next)

-- A failed attempt gives its slot back; what it reserved of the output stays reserved.
abbrev pub failed_attempt : ℕ → Attempt → Attempt
failed_attempt at x = record x {
  provider_settlement = rejected;
  settled_after_ms = some at;
  usage_status = unknown;
  late = is_refused x.outcome;
}

abbrev pub without_slot : Attempt → ℕ → Budget → Budget
without_slot e at b = record b {
  ledger = update_attempt e.id (failed_attempt at) b.ledger;
  active = b.active - 1;
}

pub provider_failed-reject :
    (e : Attempt) (at : ℕ) (b : Budget) → Idle (without_slot e at b) (provider_failed e at b)
unfolding provider_failed
provider_failed-reject e at b = reject-Idle e.id provider_error (without_slot e at b)

pub complete-Idle : (id at : ℕ) (b : Budget) → Idle b (complete id at b).1
unfolding complete
complete-Idle id at b = go (check_open at b).closed
  where
    go :
        (o : Option Code)
        → Idle b (
            (elim o as (λ x. Bool × Budget) [
              | some c ↦ (false, check_open at b)
              | none ↦ (
                true,
                record (check_open at b) {
                  ledger =
                      update_attempt id
                        (λ e. record e { outcome = succeeded })
                        (check_open at b).ledger;
                },
              )
            ]).1)
    go (some c) = check_open-Idle at b
    go none =
        Idle-trans (check_open-Idle at b)
          (update-Idle (check_open at b) id (λ e. record e { outcome = succeeded }) (λ e. refl))
