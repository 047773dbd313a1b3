-- ===== src/Governance/Spend.antt =====
-- evaluate-spend.ts. Amounts are JavaScript numbers: `whole n` is an integer, `other` stands for a
-- fraction, NaN or an infinity.
use commitment_workbench.Prelude.{
  ℕ, zero, suc, ◌+◌, ◌-◌, ◌*◌, ◌%◌, ◌≤◌, Bool, true, false, not, ◌||◌, Option, none, some, List, [],
  ◌∷◌, ◌++◌, leb, ltb, ◌==◌, if◌then◌else◌, any,
}
use commitment_workbench.Prelude.Int.{ℤ, pos, negsuc}
pub mod Exact

pub data Number : Type 0 where
  whole : ℤ → Number
  other : Number

-- Number.MAX_SAFE_INTEGER
abbrev pub max_safe_integer : ℕ
max_safe_integer = 9007199254740991

pub data SpendWindow : Type 0 where
  session month : SpendWindow

pub record SpendLimits : Type 0 where
  pub session_limit_cents : Number
  pub month_limit_cents : Number

pub record SpendTotals : Type 0 where
  pub session_spent_cents : Number
  pub month_spent_cents : Number

-- `totals` is `none` where the caller could not read the ledger.
pub record SpendCheckInput : Type 0 where
  pub amount_cents : Number
  pub limits : SpendLimits
  pub totals : Option SpendTotals

pub record SpendBreach : Type 0 where
  pub window : SpendWindow
  pub limit_cents : Number
  pub spent_cents : Number

pub data SpendCheckResult : Type 0 where
  within : SpendCheckResult
  exceeds : List SpendBreach → SpendCheckResult
  unavailable : SpendCheckResult

abbrev pub default_monthly_limit_cents : Number
default_monthly_limit_cents = whole (pos 5000)

abbrev pub default_session_limit_cents : Number
default_session_limit_cents = whole (pos 2000)

-- `Number.isSafeInteger(v) && v >= 0`
abbrev pub is_safe_cents : Number → Bool
is_safe_cents (whole (pos n)) = leb n max_safe_integer
is_safe_cents _ = false

-- The sum of two doubles, at integers below 2^54: above 2^53 only even numbers are doubles, and a
-- tie goes to the neighbour with an even significand.
unfoldable pub double_sum : ℕ → ℕ → ℕ
double_sum a b =
    let n = a + b in
    if leb n (max_safe_integer + 1)
    then n
    else if n % 4 == 1
    then n - 1
    else if n % 4 == 3
    then n + 1
    else n

-- `spent + amount > limit`, which is reached with safe integers only.
unfoldable pub over_limit : Number → Number → Number → Bool
unfolding double_sum
over_limit (whole (pos spent)) (whole (pos amount)) (whole (pos limit)) =
    ltb limit (double_sum spent amount)
over_limit _ _ _ = false

-- The two `if` statements that push a breach.
unfoldable pub breach_if : Bool → SpendBreach → List SpendBreach
breach_if true b = b ∷ []
breach_if false b = []

unfoldable pub breaches_of : Number → SpendLimits → SpendTotals → List SpendBreach
unfolding over_limit breach_if
breaches_of amount limits totals =
    breach_if (over_limit totals.session_spent_cents amount limits.session_limit_cents) (record {
      window = session;
      limit_cents = limits.session_limit_cents;
      spent_cents = totals.session_spent_cents;
    })
    ++ breach_if (over_limit totals.month_spent_cents amount limits.month_limit_cents) (record {
      window = month;
      limit_cents = limits.month_limit_cents;
      spent_cents = totals.month_spent_cents;
    })

abbrev pub result_of_breaches : List SpendBreach → SpendCheckResult
result_of_breaches [] = within
result_of_breaches (b ∷ bs) = exceeds (b ∷ bs)

abbrev pub has_malformed : Number → SpendLimits → SpendTotals → Bool
has_malformed amount limits totals =
    any (λ v. not (is_safe_cents v))
      (amount ∷ limits.session_limit_cents ∷ limits.month_limit_cents ∷ totals.session_spent_cents
        ∷ totals.month_spent_cents ∷ [])

unfoldable pub evaluate_spend : SpendCheckInput → SpendCheckResult
unfolding breaches_of
evaluate_spend input = elim input.totals [
  | none ↦ unavailable
  | some totals ↦
      if has_malformed input.amount_cents input.limits totals
      then unavailable
      else result_of_breaches (breaches_of input.amount_cents input.limits totals)
]
