-- ===== src/Budget/Calls.antt =====
-- The calls of a ModelBudget: admission, settlement and completion of an attempt.
use commitment_workbench.Prelude.{
  ℕ, suc, ◌+◌, ◌-◌, Bool, false, not, ◌&&◌, Option, none, some, [], ◌∷◌, ◌++◌, Text, codes, text_eq,
  length, leb, ltb, ◌==◌, min, max, if◌then◌else◌,
}
use commitment_workbench.Prelude.Int.{pos}
use commitment_workbench.Governance.Spend.{Number, whole, max_safe_integer}
use commitment_workbench.Audit.Hash.{decimal}
use commitment_workbench.Budget.Data.{
  Json, Fields, string, number, object, no_fields, field, Copy, counted, exceeded, invalid,
  bounded_copy, valid_request,
}
use commitment_workbench.Budget.State.{
  Role, Code, invalid_request, model_mismatch, attempt_limit, concurrency_limit,
  request_bytes_limit, input_token_limit, output_token_limit, cancelled, unsettled, awaited,
  pending, empty_usage, Attempt, Budget, close, is_closed, check_open,
}

-- `system` and `tools` are `none` where they are undefined.
pub record CreateParams : Type 0 where
  pub model : Text
  pub max_tokens : Number
  pub messages : Json
  pub system : Option Json
  pub tools : Option Json
  pub aborted : Bool

-- The instants at which one call reads the clock.
pub record Clock : Type 0 where
  pub at_call : ℕ
  pub at_copy : ℕ
  pub at_start : ℕ

pub data Admission : Type 0 where
  refused_with : Code → Admission
  dispatched : ℕ → Admission

abbrev pub positive_integer : Number → Option ℕ
positive_integer (whole (pos n)) = if ltb 0 n && leb n max_safe_integer then some n else none
positive_integer _ = none

abbrev pub with_option : Text → Option Json → Fields → Fields
with_option k none fs = fs
with_option k (some v) fs = field k v fs

-- The object that is copied, counted and sent.
unfoldable pub request_of : Text → ℕ → CreateParams → Fields
request_of model max_tokens p = field (codes "model") (string model) (
    field (codes "max_tokens") (number (length (decimal max_tokens))) (
      field (codes "messages") p.messages
        (with_option (codes "system") p.system (with_option (codes "tools") p.tools no_fields))))

unfoldable pub new_attempt : Role → ℕ → ℕ → ℕ → ℕ → Attempt
new_attempt role id bytes tokens at = record {
  id = id;
  role = role;
  request_input_bytes = bytes;
  requested_output_tokens = tokens;
  response_bytes = none;
  response_bytes_complete = false;
  started_after_ms = at;
  settled_after_ms = none;
  provider_settlement = unsettled;
  usage_status = awaited;
  outcome = pending;
  reason = none;
  late = false;
  usage = empty_usage;
}

-- The reservation, made before the provider is called.
unfoldable pub reserve : Role → ℕ → ℕ → ℕ → Budget → Budget
unfolding new_attempt
reserve role bytes tokens at b = record b {
  ledger = b.ledger ++ new_attempt role (suc (length b.ledger)) bytes tokens at ∷ [];
  active = suc b.active;
  peak = max b.peak (suc b.active);
  request_bytes = b.request_bytes + bytes;
  requested_output = b.requested_output + tokens;
  reserved_output = b.reserved_output + tokens;
}

-- The part of createMessage after the request has been copied.
unfoldable pub admit : Role → ℕ → ℕ → Clock → Budget → Admission × Budget
unfolding check_open reserve
admit role bytes tokens clock b =
    let b' = check_open clock.at_copy b in
    elim b'.closed [
      | some c ↦ (refused_with c, b')
      | none ↦ (dispatched (suc (length b'.ledger)), reserve role bytes tokens clock.at_start b')
    ]

unfoldable pub admit_copy : Role → Fields → Copy → ℕ → Clock → Budget → Admission × Budget
unfolding admit valid_request
admit_copy role request (counted bytes) tokens clock b =
    if not (valid_request request)
    then (refused_with invalid_request, b)
    else admit role bytes tokens clock b
admit_copy role request (exceeded _) tokens clock b = (refused_with request_bytes_limit, b)
admit_copy role request invalid tokens clock b = (refused_with invalid_request, b)

-- The output tokens that are neither reserved nor used.
abbrev pub available : Budget → ℕ
available b = b.limits.max_observed_output_tokens - (b.reserved_output + b.observed_output)

abbrev pub request_limit : Budget → ℕ
request_limit b =
    min b.limits.max_input_bytes_per_call (b.limits.max_total_input_bytes - b.request_bytes)

-- The tokens that a call gets, and the copy of its request.
unfoldable pub sized : Role → CreateParams → ℕ → Clock → Budget → Admission × Budget
unfolding admit_copy bounded_copy request_of
sized role p wanted clock b =
    let tokens = min wanted (min b.limits.max_output_tokens_per_call (available b)) in
    let request = request_of b.model tokens p in
    admit_copy role request (bounded_copy (request_limit b) (object request)) tokens clock b

-- The guards on the counters, in their order.
unfoldable pub limited : Role → CreateParams → ℕ → Clock → Budget → Admission × Budget
unfolding sized
limited role p wanted clock b =
    if leb b.limits.max_attempts (length b.ledger)
    then (refused_with attempt_limit, b)
    else if leb b.limits.max_concurrent b.active
    then (refused_with concurrency_limit, b)
    else if leb b.limits.max_observed_input_tokens b.observed_input
    then (refused_with input_token_limit, b)
    else if available b == 0
    then (refused_with output_token_limit, b)
    else sized role p wanted clock b

-- The guards on the parameters, which come first.
unfoldable pub guarded : Role → CreateParams → Clock → Budget → Admission × Budget
unfolding limited
guarded role p clock b =
    if not (text_eq p.model b.model)
    then (refused_with model_mismatch, b)
    else elim (positive_integer p.max_tokens) [
      | none ↦ (refused_with invalid_request, b)
      | some wanted ↦ limited role p wanted clock b
    ]

-- createMessage up to the call of the provider.
unfoldable pub create_message : Role → CreateParams → Clock → Budget → Admission × Budget
unfolding check_open close guarded
create_message role p clock b =
    let b' = check_open clock.at_call b in
    let b'' = if not (is_closed b') && p.aborted then close cancelled b' else b' in
    elim b''.closed [ some c ↦ (refused_with c, b'') | none ↦ guarded role p clock b'' ]
