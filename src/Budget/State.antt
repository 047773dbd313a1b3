-- ===== src/Budget/State.antt =====
-- The state of a ModelBudget: its limits, its attempts, its counters, and how it closes.
use commitment_workbench.Prelude.{
  ℕ, ◌+◌, Bool, true, false, not, ◌&&◌, Option, none, some, List, map, Text, leb, if◌then◌else◌,
}
use commitment_workbench.Prelude.Int.{pos}
use commitment_workbench.Governance.Spend.{Number, whole, max_safe_integer}

pub record ModelBudgetLimits : Type 0 where
  pub max_attempts : ℕ
  pub max_concurrent : ℕ
  pub max_input_bytes_per_call : ℕ
  pub max_total_input_bytes : ℕ
  pub max_observed_input_tokens : ℕ
  pub max_observed_output_tokens : ℕ
  pub max_output_tokens_per_call : ℕ
  pub max_response_bytes_per_call : ℕ
  pub wall_time_ms : ℕ

abbrev pub model_budget_defaults : ModelBudgetLimits
model_budget_defaults = record {
  max_attempts = 10;
  max_concurrent = 2;
  max_input_bytes_per_call = 524288;
  max_total_input_bytes = 2097152;
  max_observed_input_tokens = 120000;
  max_observed_output_tokens = 12000;
  max_output_tokens_per_call = 4096;
  max_response_bytes_per_call = 262144;
  wall_time_ms = 300000;
}

pub data Role : Type 0 where
  root child : Role

pub data Code : Type 0 where
  invalid_limits invalid_model model_mismatch invalid_request attempt_limit concurrency_limit : Code
  request_bytes_limit input_token_limit output_token_limit response_bytes_limit : Code
  invalid_response unknown_usage provider_error cancelled deadline disposed : Code

pub data Settlement : Type 0 where
  unsettled fulfilled rejected : Settlement

pub data UsageStatus : Type 0 where
  awaited reported unknown : UsageStatus

pub data Outcome : Type 0 where
  pending succeeded refused : Outcome

pub record Usage : Type 0 where
  pub input_tokens : Option ℕ
  pub output_tokens : Option ℕ
  pub uncached_input_tokens : Option ℕ
  pub cache_read_input_tokens : Option ℕ
  pub cache_creation_input_tokens : Option ℕ

abbrev pub empty_usage : Usage
empty_usage = record {
  input_tokens = none;
  output_tokens = none;
  uncached_input_tokens = none;
  cache_read_input_tokens = none;
  cache_creation_input_tokens = none;
}

pub record Attempt : Type 0 where
  pub id : ℕ
  pub role : Role
  pub request_input_bytes : ℕ
  pub requested_output_tokens : ℕ
  pub response_bytes : Option ℕ
  pub response_bytes_complete : Bool
  pub started_after_ms : ℕ
  pub settled_after_ms : Option ℕ
  pub provider_settlement : Settlement
  pub usage_status : UsageStatus
  pub outcome : Outcome
  pub reason : Option Code
  pub late : Bool
  pub usage : Usage

pub record Budget : Type 0 where
  pub model : Text
  pub limits : ModelBudgetLimits
  pub closed : Option Code
  pub ledger : List Attempt
  pub active : ℕ
  pub peak : ℕ
  pub request_bytes : ℕ
  pub requested_output : ℕ
  pub reserved_output : ℕ
  pub observed_input : ℕ
  pub observed_output : ℕ

-- A property of the reported usage: absent, a data property, or an accessor.
pub data Field : Type 0 where
  absent : Field
  given : Number → Field
  accessor : Field

-- The property `reported`: absent, `true`, or anything else.
pub data ReportedFlag : Type 0 where
  no_flag is_true is_other : ReportedFlag

-- `none` in a response stands for a `usage` that is no record.
pub record RawUsage : Type 0 where
  pub flag : ReportedFlag
  pub input : Field
  pub output : Field
  pub cache_read : Field
  pub cache_creation : Field

-- A number is a token count when it is a safe integer that is not negative.
abbrev pub valid_token : Field → Option ℕ
valid_token (given (whole (pos n))) = if leb n max_safe_integer then some n else none
valid_token _ = none

abbrev pub cache_tokens : Field → Option ℕ
cache_tokens absent = some 0
cache_tokens f = valid_token f

abbrev pub sum_tokens : Option ℕ → Option ℕ → Option ℕ → Option ℕ
sum_tokens (some a) (some b) (some c) = some (a + b + c)
sum_tokens _ _ _ = none

unfoldable pub read_fields : RawUsage → Usage
read_fields u = record {
  input_tokens =
      sum_tokens (valid_token u.input) (cache_tokens u.cache_read) (cache_tokens u.cache_creation);
  output_tokens = valid_token u.output;
  uncached_input_tokens = valid_token u.input;
  cache_read_input_tokens = cache_tokens u.cache_read;
  cache_creation_input_tokens = cache_tokens u.cache_creation;
}

unfoldable pub read_usage : Option RawUsage → Usage
unfolding read_fields
read_usage none = empty_usage
read_usage (some u) = elim u.flag [
  | no_flag ↦ read_fields u
  | is_true ↦ read_fields u
  | is_other ↦ empty_usage
]

-- What the abort listener of an attempt does; it changes nothing of an attempt that is over.
unfoldable pub abort_run : Code → Attempt → Attempt
abort_run code e =
    let e' : Attempt = elim e.outcome [
      | pending ↦ record e { outcome = refused; reason = some code }
      | _ ↦ e
    ] in
    elim e'.provider_settlement [ unsettled ↦ record e' { usage_status = unknown } | _ ↦ e' ]

-- The first reason stays.
unfoldable pub close : Code → Budget → Budget
unfolding abort_run
close code b = elim b.closed [
  | none ↦ record b { closed = some code; ledger = map (abort_run code) b.ledger }
  | some c ↦ b
]

abbrev pub is_closed : Budget → Bool
is_closed b = elim b.closed [ none ↦ false | some _ ↦ true ]

-- `elapsed` is the time since the budget was made. The budget may be closed after this.
unfoldable pub check_open : ℕ → Budget → Budget
unfolding close
check_open elapsed b =
    if not (is_closed b) && leb b.limits.wall_time_ms elapsed then close deadline b else b
