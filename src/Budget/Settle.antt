-- ===== src/Budget/Settle.antt =====
-- The end of a ModelBudget's call: the provider's answer or failure, and the return to the caller.
use commitment_workbench.Prelude.{
  ℕ, ◌+◌, ◌-◌, Bool, true, false, not, ◌&&◌, ◌||◌, Option, none, some, List, [], ◌∷◌, map, codes,
  text_eq, ltb, ◌==◌, if◌then◌else◌,
}
use commitment_workbench.Budget.Data.{
  Json, string, object, null, Copy, counted, exceeded, invalid, bounded_copy, valid_content, get,
  is_string,
}
use commitment_workbench.Budget.State.{
  Code, input_token_limit, output_token_limit, response_bytes_limit, invalid_response,
  unknown_usage, provider_error, fulfilled, rejected, reported, unknown, Outcome, pending,
  succeeded, refused, Usage, Attempt, Budget, RawUsage, read_usage, close, check_open,
}

abbrev pub update_attempt : ℕ → (Attempt → Attempt) → List Attempt → List Attempt
update_attempt id f es = map (λ e. if e.id == id then f e else e) es

abbrev pub find_attempt : ℕ → List Attempt → Option Attempt
find_attempt id [] = none
find_attempt id (e ∷ es) = let rest = find_attempt id es in if e.id == id then some e else rest

-- The provider's answer, as far as `receive` reads it: `usage` and the data that is copied.
pub record Response : Type 0 where
  pub usage : Option RawUsage
  pub value : Json

-- `stop_reason` is one of four words or null.
abbrev pub valid_stop : Option Json → Bool
valid_stop (some null) = true
valid_stop (some (string s)) =
    text_eq s (codes "end_turn")
    || text_eq s (codes "tool_use")
    || text_eq s (codes "max_tokens")
    || text_eq s (codes "stop_sequence")
valid_stop _ = false

unfoldable pub valid_response : Json → Bool
unfolding get valid_content
valid_response (object r) =
    is_string (get (codes "id") r)
    && valid_content (get (codes "content") r)
    && valid_stop (get (codes "stop_reason") r)
valid_response _ = false

abbrev pub mark_refused : Code → Attempt → Attempt
mark_refused code e = elim e.outcome [
  | pending ↦ record e { outcome = refused; reason = some code }
  | _ ↦ e
]

unfoldable pub reject : ℕ → Code → Budget → Budget
unfolding close
reject id code b = close code (record b { ledger = update_attempt id (mark_refused code) b.ledger })

abbrev pub or_zero : Option ℕ → ℕ
or_zero none = 0
or_zero (some n) = n

abbrev pub is_refused : Outcome → Bool
is_refused refused = true
is_refused _ = false

abbrev pub is_reported : Usage → Bool
is_reported u = elim u.input_tokens [
  | none ↦ false
  | some _ ↦ elim u.output_tokens [ none ↦ false | some _ ↦ true ]
]

-- The bookkeeping at the top of `receive`, which is done whatever comes after.
unfoldable pub settle : Attempt → Usage → ℕ → Budget → Budget
settle e usage at b = record b {
  ledger =
      update_attempt e.id
        (λ x. record x {
          provider_settlement = fulfilled;
          settled_after_ms = some at;
          late = is_refused x.outcome;
          usage = usage;
          usage_status = if is_reported usage then reported else unknown;
        })
        b.ledger;
  active = b.active - 1;
  observed_input =
      b.observed_input
      + (or_zero usage.uncached_input_tokens
          + or_zero usage.cache_read_input_tokens
          + or_zero usage.cache_creation_input_tokens);
  observed_output = b.observed_output + or_zero usage.output_tokens;
  reserved_output =
      if is_reported usage
      then b.reserved_output - e.requested_output_tokens
      else b.reserved_output;
}

abbrev pub note_bytes : ℕ → Bool → Attempt → Attempt
note_bytes n complete e = record e { response_bytes = some n; response_bytes_complete = complete }

-- `if (this.closed) throw this.reject(entry, this.closed.code)`, after which `next` runs.
unfoldable pub unless_closed : ℕ → Budget → Budget → Budget
unfolding reject
unless_closed id b next = elim b.closed [ some c ↦ reject id c b | none ↦ next ]

-- The copy of the response, with its `catch`.
unfoldable pub receive_copy : ℕ → Json → ℕ → Copy → Budget → Budget
unfolding reject check_open valid_response unless_closed
receive_copy id value at (exceeded n) b =
    reject id response_bytes_limit
      (record b { ledger = update_attempt id (λ e. record e { response_bytes = some n }) b.ledger })
receive_copy id value at invalid b = reject id invalid_response b
receive_copy id value at (counted n) b =
    let noted = record b { ledger = update_attempt id (note_bytes n true) b.ledger } in
    if not (valid_response value)
    then reject id invalid_response noted
    else unless_closed id (check_open at noted) (check_open at noted)

-- The tests of the usage, in their order, and the copy.
unfoldable pub receive_tested : Attempt → Usage → Json → ℕ → Budget → Budget
unfolding reject receive_copy bounded_copy
receive_tested e usage value at b =
    if not (is_reported usage)
    then reject e.id unknown_usage b
    else if ltb b.limits.max_observed_input_tokens b.observed_input
    then reject e.id input_token_limit b
    else if ltb b.limits.max_observed_output_tokens b.observed_output
        || ltb e.requested_output_tokens (or_zero usage.output_tokens)
    then reject e.id output_token_limit b
    else receive_copy e.id value at (bounded_copy b.limits.max_response_bytes_per_call value) b

-- The provider fulfilled an attempt that waited for it.
unfoldable pub receive : Attempt → Response → ℕ → Budget → Budget
unfolding read_usage settle unless_closed receive_tested
receive e r at b =
    let usage = read_usage r.usage in
    let b' = settle e usage at b in unless_closed e.id b' (receive_tested e usage r.value at b')

-- The provider rejected it.
unfoldable pub provider_failed : Attempt → ℕ → Budget → Budget
unfolding reject
provider_failed e at b = reject e.id provider_error (record b {
  ledger =
      update_attempt e.id
        (λ x. record x {
          provider_settlement = rejected;
          settled_after_ms = some at;
          usage_status = unknown;
          late = is_refused x.outcome;
        })
        b.ledger;
  active = b.active - 1;
})

-- The end of createMessage for an answer that was received: `true` when it is returned to the caller.
unfoldable pub complete : ℕ → ℕ → Budget → Bool × Budget
unfolding check_open
complete id at b =
    let b' = check_open at b in
    elim b'.closed [
      | some c ↦ (false, b')
      | none ↦ (
        true,
        record b' { ledger = update_attempt id (λ e. record e { outcome = succeeded }) b'.ledger },
      )
    ]
