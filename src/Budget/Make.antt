-- ===== src/Budget/Make.antt =====
-- The constructor of ModelBudget.
use commitment_workbench.Prelude.{
  ℕ, Bool, false, ◌&&◌, ◌||◌, Option, none, some, [], Text, length, leb, ltb, if◌then◌else◌,
}
use commitment_workbench.Prelude.Int.{pos}
use commitment_workbench.Governance.Spend.{Number, whole, max_safe_integer}
use commitment_workbench.Budget.State.{
  ModelBudgetLimits, model_budget_defaults, Code, invalid_limits, invalid_model, cancelled, Budget,
  close,
}

abbrev pub model_budget_hard_ceilings : ModelBudgetLimits
model_budget_hard_ceilings = record {
  max_attempts = 64;
  max_concurrent = 8;
  max_input_bytes_per_call = 1048576;
  max_total_input_bytes = 8388608;
  max_observed_input_tokens = 1000000;
  max_observed_output_tokens = 64000;
  max_output_tokens_per_call = 16384;
  max_response_bytes_per_call = 1048576;
  wall_time_ms = 900000;
}

-- The keys of `options.limits`, each `none` where it is not given.
pub record Overrides : Type 0 where
  pub max_attempts : Option Number
  pub max_concurrent : Option Number
  pub max_input_bytes_per_call : Option Number
  pub max_total_input_bytes : Option Number
  pub max_observed_input_tokens : Option Number
  pub max_observed_output_tokens : Option Number
  pub max_output_tokens_per_call : Option Number
  pub max_response_bytes_per_call : Option Number
  pub wall_time_ms : Option Number

-- A safe integer over 0 and at most the ceiling.
abbrev pub is_limit : ℕ → Number → Bool
is_limit ceiling (whole (pos n)) = leb n max_safe_integer && ltb 0 n && leb n ceiling
is_limit ceiling _ = false

-- `{ ...MODEL_BUDGET_DEFAULTS, ...overrides }` at one key
abbrev pub merged : ℕ → Option Number → Number
merged default none = whole (pos default)
merged default (some v) = v

abbrev pub nat_of : Number → ℕ
nat_of (whole (pos n)) = n
nat_of _ = 0

unfoldable pub are_limits : Overrides → Bool
are_limits o =
    let d = model_budget_defaults in
    let c = model_budget_hard_ceilings in
    is_limit c.max_attempts (merged d.max_attempts o.max_attempts)
    && is_limit c.max_concurrent (merged d.max_concurrent o.max_concurrent)
    && is_limit c.max_input_bytes_per_call
        (merged d.max_input_bytes_per_call o.max_input_bytes_per_call)
    && is_limit c.max_total_input_bytes (merged d.max_total_input_bytes o.max_total_input_bytes)
    && is_limit c.max_observed_input_tokens
        (merged d.max_observed_input_tokens o.max_observed_input_tokens)
    && is_limit c.max_observed_output_tokens
        (merged d.max_observed_output_tokens o.max_observed_output_tokens)
    && is_limit c.max_output_tokens_per_call
        (merged d.max_output_tokens_per_call o.max_output_tokens_per_call)
    && is_limit c.max_response_bytes_per_call
        (merged d.max_response_bytes_per_call o.max_response_bytes_per_call)
    && is_limit c.wall_time_ms (merged d.wall_time_ms o.wall_time_ms)

unfoldable pub limits_of : Overrides → Option ModelBudgetLimits
unfolding are_limits
limits_of o =
    let d = model_budget_defaults in
    if are_limits o
    then some (record {
      max_attempts = nat_of (merged d.max_attempts o.max_attempts);
      max_concurrent = nat_of (merged d.max_concurrent o.max_concurrent);
      max_input_bytes_per_call =
          nat_of (merged d.max_input_bytes_per_call o.max_input_bytes_per_call);
      max_total_input_bytes = nat_of (merged d.max_total_input_bytes o.max_total_input_bytes);
      max_observed_input_tokens =
          nat_of (merged d.max_observed_input_tokens o.max_observed_input_tokens);
      max_observed_output_tokens =
          nat_of (merged d.max_observed_output_tokens o.max_observed_output_tokens);
      max_output_tokens_per_call =
          nat_of (merged d.max_output_tokens_per_call o.max_output_tokens_per_call);
      max_response_bytes_per_call =
          nat_of (merged d.max_response_bytes_per_call o.max_response_bytes_per_call);
      wall_time_ms = nat_of (merged d.wall_time_ms o.wall_time_ms);
    })
    else none

abbrev pub and_then : {A B : Type 0} → Option A → (A → Option B) → Option B
and_then none f = none
and_then (some a) f = f a

pub data Made : Type 0 where
  thrown : Code → Made
  made : Budget → Made

unfoldable pub empty_budget : Text → ModelBudgetLimits → Budget
empty_budget model limits = record {
  model = model;
  limits = limits;
  closed = none;
  ledger = [];
  active = 0;
  peak = 0;
  request_bytes = 0;
  requested_output = 0;
  reserved_output = 0;
  observed_input = 0;
  observed_output = 0;
}

-- `blank` is `!model.trim()`; `overrides` is `none` where `options.limits` is no record or has a key of
-- its own; `aborted` says that the caller's signal was aborted before.
unfoldable pub new_budget : (Text → Bool) → Text → Option Overrides → Bool → Made
unfolding limits_of empty_budget close
new_budget blank model overrides aborted = elim (and_then overrides limits_of) [
  | none ↦ thrown invalid_limits
  | some limits ↦
      if ltb 256 (length model) || blank model
      then thrown invalid_model
      else let b = empty_budget model limits in made (if aborted then close cancelled b else b)
]
