-- ===== src/Budget/Made.antt =====
-- What a budget that the constructor returns keeps.
use commitment_workbench.Prelude.{
  ℕ, ◌<◌, ◌≡◌, refl, subst, ap, Bool, true, false, ◌&&◌, ◌||◌, Option, none, some, List, Text,
  arith, length, ltb, if◌then◌else◌,
}
use commitment_workbench.Prelude.Int.{pos, negsuc}
use commitment_workbench.Governance.Spend.{Number, whole, other}
use commitment_workbench.Budget.State.{
  ModelBudgetLimits, model_budget_defaults, invalid_limits, invalid_model, cancelled, Budget, close,
}
use commitment_workbench.Budget.Accounts.{Accounts}
use commitment_workbench.Budget.Traces.{Fits, Event, run, run-Fits, run-limits}
use commitment_workbench.Budget.Balanced.{Bounded, Fits-Bounded, run-Accounts}
use commitment_workbench.Budget.Make.{
  Overrides, is_limit, merged, nat_of, are_limits, limits_of, and_then, Made, empty_budget,
  new_budget, thrown, made,
}

limit-positive : (c : ℕ) (v : Number) → is_limit c v ≡ true → 0 < nat_of v
limit-positive c (whole (pos m)) h = ground arith
limit-positive c (whole (negsuc m)) h = cc
limit-positive c other h = cc

and_then-inv :
    {A B : Type 0} (o : Option A) (f : A → Option B) (b : B)
    → and_then o f ≡ some b
    → (a : A) × (o ≡ some a) × (f a ≡ some b)
and_then-inv none f b h = cc
and_then-inv (some a) f b h = (a, refl, h)

third_last : (a b c d : Bool) → (a && b && c && d) ≡ true → b ≡ true
third_last a true c d h = refl
third_last true false c d h = cc
third_last false false c d h = cc

output-is_limit :
    (o : Overrides)
    → are_limits o ≡ true
    → is_limit 16384 (merged 4096 o.max_output_tokens_per_call) ≡ true
unfolding are_limits
output-is_limit o e = third_last _ _ _ _ e

limits_of-positive :
    (o : Overrides) (l : ModelBudgetLimits)
    → limits_of o ≡ some l
    → 0 < l.max_output_tokens_per_call
unfolding limits_of are_limits
limits_of-positive o l h = go (are_limits o) refl h
  where
    output_of : Option ModelBudgetLimits → ℕ
    output_of none = 0
    output_of (some x) = x.max_output_tokens_per_call

    go :
        (b : Bool)
        → are_limits o ≡ b
        → (if b
            then some (record {
              max_attempts = nat_of (merged model_budget_defaults.max_attempts o.max_attempts);
              max_concurrent =
                  nat_of (merged model_budget_defaults.max_concurrent o.max_concurrent);
              max_input_bytes_per_call = nat_of (
                  merged model_budget_defaults.max_input_bytes_per_call o.max_input_bytes_per_call);
              max_total_input_bytes =
                  nat_of
                    (merged model_budget_defaults.max_total_input_bytes o.max_total_input_bytes);
              max_observed_input_tokens = nat_of (
                  merged model_budget_defaults.max_observed_input_tokens
                    o.max_observed_input_tokens);
              max_observed_output_tokens = nat_of (
                  merged model_budget_defaults.max_observed_output_tokens
                    o.max_observed_output_tokens);
              max_output_tokens_per_call = nat_of (
                  merged model_budget_defaults.max_output_tokens_per_call
                    o.max_output_tokens_per_call);
              max_response_bytes_per_call = nat_of (
                  merged model_budget_defaults.max_response_bytes_per_call
                    o.max_response_bytes_per_call);
              wall_time_ms = nat_of (merged model_budget_defaults.wall_time_ms o.wall_time_ms);
            })
            else none)
          ≡ some l
        → 0 < l.max_output_tokens_per_call
    go true e k =
        subst (λ x. 0 < x) (ap output_of k)
          (limit-positive 16384 (merged 4096 o.max_output_tokens_per_call) (output-is_limit o e))
    go false e k = cc

close-empty-Fits :
    (t : Bool) (model : Text) (l : ModelBudgetLimits)
    → 0 < l.max_output_tokens_per_call
    → Fits (if t then close cancelled (empty_budget model l) else empty_budget model l)
unfolding close empty_budget
close-empty-Fits true model l p = record {
  attempts_fit = omega arith;
  active_fits = omega arith;
  peak_fits = omega arith;
  bytes_fit = omega arith;
  cap_positive = p;
}
close-empty-Fits false model l p = record {
  attempts_fit = omega arith;
  active_fits = omega arith;
  peak_fits = omega arith;
  bytes_fit = omega arith;
  cap_positive = p;
}

made_lem : (a b : Budget) → made a ≡ made b → a ≡ b
made_lem a b h = ap get h
  where
    get : Made → Budget
    get (made x) = x
    get (thrown c) = a

close-empty-Accounts :
    (t : Bool) (model : Text) (l : ModelBudgetLimits)
    → Accounts (if t then close cancelled (empty_budget model l) else empty_budget model l)
unfolding close empty_budget
close-empty-Accounts true model l = record {
  numbered = tt;
  active_eq = refl;
  bytes_eq = refl;
  requested_eq = refl;
  reserved_eq = refl;
  input_eq = refl;
  output_eq = refl;
  peak_high = omega arith;
}
close-empty-Accounts false model l = record {
  numbered = tt;
  active_eq = refl;
  bytes_eq = refl;
  requested_eq = refl;
  reserved_eq = refl;
  input_eq = refl;
  output_eq = refl;
  peak_high = omega arith;
}

-- A budget that the constructor returns keeps its bounds through every workflow, with the limits it was
-- made with. After any events the attempts in its ledger, those of them that the provider has not settled,
-- and the bytes of all their requests are within the limits on attempts, on concurrent calls and on
-- input bytes, and the peak is within the limit on concurrent calls. And its counters are what they are
-- called: the attempts are numbered from 1, the active calls are the attempts that are not settled, the
-- request bytes and the requested output are the sums over all attempts, the reserved output is the sum
-- over the attempts for which no usage is reported, the observed input and output are the sums of the
-- usage of the fulfilled ones, and the active calls are at most the peak.
pub new_budget-Fits :
    (blank : Text → Bool) (model : Text) (overrides : Option Overrides) (aborted : Bool)
    (b : Budget)
    → new_budget blank model overrides aborted ≡ made b
    → (es : List Event)
    → Fits (run es b) × Bounded (run es b) × Accounts (run es b) × ((run es b).limits ≡ b.limits)
unfolding new_budget
new_budget-Fits blank model overrides aborted b h es =
    let fresh = go (and_then overrides limits_of) refl h in
    let fits = run-Fits es b fresh.0 in
    let kept = run-Accounts es b fresh.0 fresh.1 in
    (fits, Fits-Bounded (run es b) fits kept, kept, run-limits es b fresh.0)
  where
    named :
        (l : ModelBudgetLimits) (bad : Bool)
        → 0 < l.max_output_tokens_per_call
        → (if bad
            then thrown invalid_model
            else made
                (if aborted then close cancelled (empty_budget model l) else empty_budget model l))
          ≡ made b
        → Fits b × Accounts b
    named l true p k = cc
    named l false p k =
        subst (λ x. Fits x × Accounts x) (made_lem _ b k)
          (close-empty-Fits aborted model l p, close-empty-Accounts aborted model l)

    go :
        (o : Option ModelBudgetLimits)
        → and_then overrides limits_of ≡ o
        → (elim o as (λ x. Made) [
          | none ↦ thrown invalid_limits
          | some l ↦
              if ltb 256 (length model) || blank model
              then thrown invalid_model
              else made
                  (if aborted then close cancelled (empty_budget model l) else empty_budget model l)
        ])
          ≡ made b
        → Fits b × Accounts b
    go none e k = cc
    go (some l) e k =
        let (o, eo, el) = and_then-inv overrides limits_of l e in
        named l (ltb 256 (length model) || blank model) (limits_of-positive o l el) k
