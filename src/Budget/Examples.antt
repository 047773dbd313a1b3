-- ===== src/Budget/Examples.antt =====
-- The budget's theorems at a concrete workflow.
use commitment_workbench.Prelude.{◌≡◌, refl, length, codes, false, none, some, List, [], ◌∷◌, arith}
use commitment_workbench.Prelude.Int.{pos}
use commitment_workbench.Governance.Spend.{whole}
use commitment_workbench.Budget.Data.{
  Json, no_items, item, no_fields, field, string, array, object, null,
}
use commitment_workbench.Budget.State.{
  root, Budget, cancelled, no_flag, given, absent, model_budget_defaults,
}
use commitment_workbench.Budget.Calls.{CreateParams, Clock}
use commitment_workbench.Budget.Settle.{Response, complete}
use commitment_workbench.Budget.Traces.{
  Event, call, respond, finish, Fits, run, run-closed, no_late_output,
}
use commitment_workbench.Budget.Accounts.{Accounts}
use commitment_workbench.Budget.Balanced.{Bounded}
use commitment_workbench.Budget.Make.{new_budget, Overrides}
use commitment_workbench.Budget.Made.{new_budget-Fits}

abbrev message : Json
message = object (
    field (codes "role") (string (codes "user"))
      (field (codes "content") (string (codes "hi")) no_fields))

abbrev params : CreateParams
params = record {
  model = codes "m";
  max_tokens = whole (pos 100);
  messages = array (item message no_items);
  system = none;
  tools = none;
  aborted = false;
}

abbrev instant : Clock
instant = record { at_call = 1; at_copy = 2; at_start = 3 }

abbrev start : Budget
start = record {
  model = codes "m";
  limits = model_budget_defaults;
  closed = none;
  ledger = [];
  active = 0;
  peak = 0;
  request_bytes = 0;
  requested_output = 0;
  reserved_output = 0;
  observed_input = 0;
  observed_output = 0;
}

start-Fits : Fits start
start-Fits = record {
  attempts_fit = omega arith;
  active_fits = omega arith;
  peak_fits = omega arith;
  bytes_fit = omega arith;
  cap_positive = omega arith;
}

abbrev answer : Response
answer = record {
  usage = some (record {
    flag = no_flag;
    input = given (whole (pos 10));
    output = given (whole (pos 20));
    cache_read = absent;
    cache_creation = absent;
  });
  value = object (
      field (codes "id") (string (codes "r"))
        (field (codes "content") (array no_items) (field (codes "stop_reason") null no_fields)));
}

abbrev workflow : List Event
workflow =
    call root params instant ∷ call root params instant ∷ respond 1 answer 4 ∷ finish 1 5 ∷ []

abbrev stopped : Budget
stopped = record start { closed = some cancelled }

stopped-Fits : Fits stopped
stopped-Fits = record {
  attempts_fit = omega arith;
  active_fits = omega arith;
  peak_fits = omega arith;
  bytes_fit = omega arith;
  cap_positive = omega arith;
}

run-closed_example :
    ((run workflow stopped).closed ≡ some cancelled)
    × (length (run workflow stopped).ledger ≡ 0)
    × ((run workflow stopped).request_bytes ≡ 0)
run-closed_example = run-closed workflow stopped cancelled refl stopped-Fits

no_late_output_example : (complete 1 5 (run workflow stopped)).0 ≡ false
no_late_output_example = no_late_output workflow stopped cancelled 1 5 refl stopped-Fits

abbrev no_overrides : Overrides
no_overrides = record {
  max_attempts = none;
  max_concurrent = none;
  max_input_bytes_per_call = none;
  max_total_input_bytes = none;
  max_observed_input_tokens = none;
  max_observed_output_tokens = none;
  max_output_tokens_per_call = none;
  max_response_bytes_per_call = none;
  wall_time_ms = none;
}

new_budget-Fits_example :
    Fits (run workflow start)
    × Bounded (run workflow start)
    × Accounts (run workflow start)
    × ((run workflow start).limits ≡ model_budget_defaults)
new_budget-Fits_example =
    new_budget-Fits (λ s. false) (codes "m") (some no_overrides) false start
      (unfold new_budget in refl) workflow
