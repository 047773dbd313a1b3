-- ===== src/Governance/Spend/Exact.antt =====
-- evaluateSpend against sums of integers, with its guard on safe integers.
use commitment_workbench.Prelude.{
  ℕ, ◌+◌, ◌≤◌, ◌<◌, ◌≡◌, refl, sym, ap, ◌∙◌, ◌++◌, ◌↔◌, ◌⊎◌, inl, inr, Bool, true, false, some,
  List, [], ◌∷◌, arith, ltb, Bool-cases, Option-cases,
}
use commitment_workbench.Prelude.Int.{pos, negsuc}
use commitment_workbench.Governance.Spend.{
  Number, whole, other, max_safe_integer, SpendLimits, SpendTotals, SpendCheckInput, SpendBreach,
  session, month, within, exceeds, unavailable, is_safe_cents, double_sum, over_limit, breach_if,
  has_malformed, result_of_breaches, evaluate_spend,
}

-- For safe integers the rounded sum passes a limit exactly when the true sum does.
double_sum_exact :
    (a b l : ℕ)
    → a ≤ max_safe_integer
    → b ≤ max_safe_integer
    → l ≤ max_safe_integer
    → (ltb l (double_sum a b) ≡ true) ↔ (l < a + b)
unfolding double_sum
double_sum_exact a b l ha hb hl = ground arith

-- The five numbers of a check, as natural numbers that are safe integers.
pub record Cents : Type 0 where
  pub amount : ℕ
  pub session_limit : ℕ
  pub month_limit : ℕ
  pub session_spent : ℕ
  pub month_spent : ℕ

pub record IsSafe (c : Cents) : Type 0 where
  pub amount_safe : c.amount ≤ max_safe_integer
  pub session_limit_safe : c.session_limit ≤ max_safe_integer
  pub month_limit_safe : c.month_limit ≤ max_safe_integer
  pub session_spent_safe : c.session_spent ≤ max_safe_integer
  pub month_spent_safe : c.month_spent ≤ max_safe_integer

abbrev pub cents : ℕ → Number
cents n = whole (pos n)

abbrev pub input_of : Cents → SpendCheckInput
input_of c = record {
  amount_cents = cents c.amount;
  limits = record {
    session_limit_cents = cents c.session_limit;
    month_limit_cents = cents c.month_limit;
  };
  totals = some (record {
    session_spent_cents = cents c.session_spent;
    month_spent_cents = cents c.month_spent;
  });
}

abbrev pub session_breach : Cents → SpendBreach
session_breach c = record {
  window = session;
  limit_cents = cents c.session_limit;
  spent_cents = cents c.session_spent;
}

abbrev pub month_breach : Cents → SpendBreach
month_breach c = record {
  window = month;
  limit_cents = cents c.month_limit;
  spent_cents = cents c.month_spent;
}

abbrev session_over : Cents → Bool
session_over c = ltb c.session_limit (c.session_spent + c.amount)

abbrev month_over : Cents → Bool
month_over c = ltb c.month_limit (c.month_spent + c.amount)

over_limit_exact :
    (s a l : ℕ)
    → s ≤ max_safe_integer
    → a ≤ max_safe_integer
    → l ≤ max_safe_integer
    → over_limit (cents s) (cents a) (cents l) ≡ ltb l (s + a)
unfolding over_limit
over_limit_exact s a l hs ha hl = ground (arith, double_sum_exact s a l)

within_ne_unavailable : (bs : List SpendBreach) → ¬ (result_of_breaches bs ≡ unavailable)
within_ne_unavailable [] h = cc
within_ne_unavailable (b ∷ bs) h = cc

evaluate_spend-safe :
    (c : Cents)
    → IsSafe c
    → evaluate_spend (input_of c)
      ≡ result_of_breaches (
          breach_if (session_over c) (session_breach c)
          ++ breach_if (month_over c) (month_breach c))
unfolding evaluate_spend
evaluate_spend-safe c v = ground (
  arith,
  over_limit_exact c.session_spent c.amount c.session_limit,
  over_limit_exact c.month_spent c.amount c.month_limit,
)

-- For five safe amounts the check has the outcome of exact integer arithmetic, on each of its four
-- branches: `within` when both windows hold the amount, else `exceeds` with a breach for each window
-- that does not, the session's first, and each breach with that window's limit and total.
pub evaluate_spend_exact :
    (c : Cents)
    → IsSafe c
    → ((c.session_spent + c.amount ≤ c.session_limit)
        × (c.month_spent + c.amount ≤ c.month_limit)
        × (evaluate_spend (input_of c) ≡ within))
      ⊎ ((c.session_limit < c.session_spent + c.amount)
          × (c.month_spent + c.amount ≤ c.month_limit)
          × (evaluate_spend (input_of c) ≡ exceeds (session_breach c ∷ [])))
      ⊎ ((c.session_spent + c.amount ≤ c.session_limit)
          × (c.month_limit < c.month_spent + c.amount)
          × (evaluate_spend (input_of c) ≡ exceeds (month_breach c ∷ [])))
      ⊎ ((c.session_limit < c.session_spent + c.amount)
          × (c.month_limit < c.month_spent + c.amount)
          × (evaluate_spend (input_of c) ≡ exceeds (session_breach c ∷ month_breach c ∷ [])))
unfolding breach_if
evaluate_spend_exact c v = ground (arith, evaluate_spend-safe c v)

safe_number :
    (v : Number) → is_safe_cents v ≡ true → (n : ℕ) × (v ≡ cents n) × (n ≤ max_safe_integer)
safe_number (whole (pos n)) h = (n, refl, ground arith)
safe_number (whole (negsuc n)) h = cc
safe_number other h = cc

-- Five numbers that pass the guard are the five numbers of some safe `Cents`.
IsSafe-input :
    (amount : Number) (limits : SpendLimits) (totals : SpendTotals)
    → has_malformed amount limits totals ≡ false
    → (c : Cents) × IsSafe c
      × (input_of c ≡ record { amount_cents = amount; limits = limits; totals = some totals })
IsSafe-input amount limits totals h =
    let (a, ea, ha) = safe_number amount (ground arith) in
    let (sl, esl, hsl) = safe_number limits.session_limit_cents (ground arith) in
    let (ml, eml, hml) = safe_number limits.month_limit_cents (ground arith) in
    let (ss, ess, hss) = safe_number totals.session_spent_cents (ground arith) in
    let (ms, ems, hms) = safe_number totals.month_spent_cents (ground arith) in
    (
      record {
        amount = a;
        session_limit = sl;
        month_limit = ml;
        session_spent = ss;
        month_spent = ms;
      },
      record {
        amount_safe = ha;
        session_limit_safe = hsl;
        month_limit_safe = hml;
        session_spent_safe = hss;
        month_spent_safe = hms;
      },
      ground arith,
    )

-- The check answers `unavailable` exactly when the ledger could not be read or one of the five numbers
-- is not a non-negative safe integer; so it never ranks a malformed number, and never withholds an
-- answer on well-formed ones.
pub evaluate_spend-unavailable_iff :
    (input : SpendCheckInput)
    → (evaluate_spend input ≡ unavailable) ↔ (¬ ((c : Cents) × IsSafe c × (input_of c ≡ input)))
unfolding evaluate_spend
evaluate_spend-unavailable_iff input = (
  (λ h (c, v, e).
      within_ne_unavailable _ (sym (evaluate_spend-safe c v) ∙ (ap evaluate_spend e ∙ h))),
  λ h. elim (Option-cases input.totals) [
    | inl e ↦ rw e refl
    | inr (totals, e) ↦ elim (Bool-cases (has_malformed input.amount_cents input.limits totals)) [
      | inl bad ↦ ground arith
      | inr good ↦
          let (c, v, q) = IsSafe-input input.amount_cents input.limits totals good in
          absurd (h (c, v, ground arith))
    ]
  ],
)
