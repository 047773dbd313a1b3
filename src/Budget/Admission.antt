-- ===== src/Budget/Admission.antt =====
-- The two ends of a call of createMessage: what lets it in, and what is then reserved.
use commitment_workbench.Prelude.{
  ℕ, suc, ◌+◌, max, [], ◌∷◌, ◌++◌, ◌≤◌, ◌<◌, ◌≡◌, refl, none, length,
}
use commitment_workbench.Budget.State.{Role, Code, unsettled, pending, empty_usage, Attempt, Budget}
use commitment_workbench.Budget.Calls.{
  Admission, refused_with, dispatched, available, request_limit, new_attempt, reserve,
}
use commitment_workbench.Budget.Idle.{core, Idle}

-- The limits leave room for one more call.
pub record Room (b : Budget) (bytes tokens : ℕ) : Type 0 where
  pub still_open : b.closed ≡ none
  pub attempt_left : length b.ledger < b.limits.max_attempts
  pub slot_free : b.active < b.limits.max_concurrent
  pub input_left : b.observed_input < b.limits.max_observed_input_tokens
  pub bytes_fit : bytes ≤ request_limit b
  pub tokens_fit : tokens ≤ available b
  pub tokens_capped : tokens ≤ b.limits.max_output_tokens_per_call
  pub tokens_positive : 0 < tokens

-- What is reserved for a call that is let in: one attempt more, unsettled, with its bytes and tokens,
-- which the counters take in; all else stays.
pub record Reserves (role : Role) (bytes tokens : ℕ) (b b' : Budget) : Type 0 where
  pub attempt : Attempt
  pub appended : b'.ledger ≡ b.ledger ++ attempt ∷ []
  pub core_eq : core attempt ≡ record {
    id = suc (length b.ledger);
    settlement = unsettled;
    bytes = bytes;
    tokens = tokens;
    usage = empty_usage;
  }
  pub role_eq : attempt.role ≡ role
  pub pending_eq : attempt.outcome ≡ pending
  pub limits_eq : b'.limits ≡ b.limits
  pub closed_eq : b'.closed ≡ b.closed
  pub active_eq : b'.active ≡ suc b.active
  pub peak_eq : b'.peak ≡ max b.peak (suc b.active)
  pub bytes_eq : b'.request_bytes ≡ b.request_bytes + bytes
  pub requested_eq : b'.requested_output ≡ b.requested_output + tokens
  pub reserved_eq : b'.reserved_output ≡ b.reserved_output + tokens
  pub input_eq : b'.observed_input ≡ b.observed_input
  pub output_eq : b'.observed_output ≡ b.observed_output

pub reserve-Reserves :
    (role : Role) (bytes tokens at : ℕ) (b : Budget)
    → Reserves role bytes tokens b (reserve role bytes tokens at b)
unfolding reserve new_attempt
reserve-Reserves role bytes tokens at b = record {
  attempt = new_attempt role (suc (length b.ledger)) bytes tokens at;
  appended = refl;
  core_eq = refl;
  role_eq = refl;
  pending_eq = refl;
  limits_eq = refl;
  closed_eq = refl;
  active_eq = refl;
  peak_eq = refl;
  bytes_eq = refl;
  requested_eq = refl;
  reserved_eq = refl;
  input_eq = refl;
  output_eq = refl;
}

-- The two ends of a call: it is turned away and no counter and no attempt's account changes, or it is
-- let in, with nothing but the one reservation.
pub data Admits (role : Role) (b : Budget) : Admission × Budget → Type 0 where
  turned_away : {c : Code} {b' : Budget} → Idle b b' → Admits role b (refused_with c, b')
  let_in :
      {b' b'' : Budget} (bytes tokens : ℕ)
      → Idle b b'
      → Room b' bytes tokens
      → Reserves role bytes tokens b' b''
      → Admits role b (dispatched (suc (length b'.ledger)), b'')
