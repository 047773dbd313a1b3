-- ===== src/Store/Ledger/Sums.antt =====
-- What an insert does to the sums of the ledger, and how the cap check and the insert fit together.
use commitment_workbench.Prelude.{
  ℕ, ◌+◌, ◌≤◌, ◌≡◌, refl, subst, ap, ◌⊎◌, inl, inr, Bool, true, false, not, List, [], ◌∷◌, ◌++◌,
  arith, Text, text_eq, text_eq_refl, text_lt, any, any-append, filter, filter-append,
  if◌then◌else◌,
}
use commitment_workbench.Governance.Spend.{is_safe_cents, evaluate_spend, within}
use commitment_workbench.Governance.Spend.Exact.{Cents, IsSafe, input_of, evaluate_spend_exact}
use commitment_workbench.Store.Ledger.{
  Spend, SpendLedgerInsert, InsertResult, inserted, bad_amount, bad_created_at,
  constraint_violation, cents_of, spend_row, same_commit, same_id, has_shape, iso_utc_millis,
  insert_row, insert_spend_in_txn, sum_cents, sum_session_spend_cents, sum_month_spend_cents,
}

sum_cents-append : (t u : List Spend) → sum_cents (t ++ u) ≡ sum_cents t + sum_cents u
sum_cents-append [] u = omega arith
sum_cents-append (r ∷ t) u = omega (arith, sum_cents-append t u)

sum_session-snoc :
    (s : Text) (t : List Spend) (r : Spend)
    → sum_session_spend_cents s (t ++ r ∷ [])
      ≡ sum_session_spend_cents s t + (if text_eq r.session_id s then r.amount_cents else 0)
unfolding sum_session_spend_cents
sum_session-snoc s t r = rw (filter-append (λ x. text_eq x.session_id s) t (r ∷ [])) (
    ground (
      arith,
      sum_cents-append (filter (λ x. text_eq x.session_id s) t)
          (filter (λ x. text_eq x.session_id s) (r ∷ [])),
    ))

sum_month-snoc :
    (m : Text) (t : List Spend) (r : Spend)
    → sum_month_spend_cents m (t ++ r ∷ [])
      ≡ sum_month_spend_cents m t + (if text_lt r.created_at m then 0 else r.amount_cents)
unfolding sum_month_spend_cents
sum_month-snoc m t r = rw (filter-append (λ x. not (text_lt x.created_at m)) t (r ∷ [])) (
    ground (
      arith,
      sum_cents-append (filter (λ x. not (text_lt x.created_at m)) t)
          (filter (λ x. not (text_lt x.created_at m)) (r ∷ [])),
    ))

-- The row joined the ledger, or its commit was there before.
pub data Effect (row : SpendLedgerInsert) (t : List Spend) : List Spend → Type 0 where
  replayed : any (same_commit (spend_row row)) t ≡ true → Effect row t t
  recorded : any (same_commit (spend_row row)) t ≡ false → Effect row t (t ++ spend_row row ∷ [])

inserted_lem : (t u : List Spend) → inserted t ≡ inserted u → t ≡ u
inserted_lem t u h = ap rows h
  where
    rows : InsertResult → List Spend
    rows (inserted x) = x
    rows bad_amount = []
    rows bad_created_at = []
    rows constraint_violation = []

pub insert-Effect :
    (row : SpendLedgerInsert) (t u : List Spend)
    → insert_spend_in_txn row t ≡ inserted u
    → Effect row t u
unfolding insert_spend_in_txn insert_row
insert-Effect row t u h =
    go (is_safe_cents row.amount_cents) (has_shape iso_utc_millis row.created_at)
      (any (same_commit (spend_row row)) t) (any (same_id (spend_row row)) t) refl h
  where
    go :
        (safe shaped again taken : Bool)
        → any (same_commit (spend_row row)) t ≡ again
        → (if not safe
            then bad_amount
            else if not shaped
            then bad_created_at
            else if again
            then inserted t
            else if taken
            then constraint_violation
            else inserted (t ++ spend_row row ∷ []))
          ≡ inserted u
        → Effect row t u
    go false shaped again taken e k = cc
    go true false again taken e k = cc
    go true true true taken e k = subst (Effect row t) (inserted_lem _ u k) (replayed e)
    go true true false true e k = cc
    go true true false false e k = subst (Effect row t) (inserted_lem _ u k) (recorded e)

-- An accepted insert of a commit that the ledger does not hold adds its amount to the sum of its own
-- session and of every month that began no later, and to no other sum; one that it holds changes none.
pub insert_spend-sums :
    (row : SpendLedgerInsert) (t u : List Spend) (session month : Text)
    → insert_spend_in_txn row t ≡ inserted u
    → ((any (same_commit (spend_row row)) t ≡ true)
        × (sum_session_spend_cents session u ≡ sum_session_spend_cents session t)
        × (sum_month_spend_cents month u ≡ sum_month_spend_cents month t))
      ⊎ ((any (same_commit (spend_row row)) t ≡ false)
          × (sum_session_spend_cents session u
              ≡ sum_session_spend_cents session t
                + (if text_eq row.session_id session then cents_of row.amount_cents else 0))
          × (sum_month_spend_cents month u
              ≡ sum_month_spend_cents month t
                + (if text_lt row.created_at month then 0 else cents_of row.amount_cents)))
insert_spend-sums row t u session month h = go (insert-Effect row t u h)
  where
    go :
        {v : List Spend}
        → Effect row t v
        → ((any (same_commit (spend_row row)) t ≡ true)
            × (sum_session_spend_cents session v ≡ sum_session_spend_cents session t)
            × (sum_month_spend_cents month v ≡ sum_month_spend_cents month t))
          ⊎ ((any (same_commit (spend_row row)) t ≡ false)
              × (sum_session_spend_cents session v
                  ≡ sum_session_spend_cents session t
                    + (if text_eq row.session_id session then cents_of row.amount_cents else 0))
              × (sum_month_spend_cents month v
                  ≡ sum_month_spend_cents month t
                    + (if text_lt row.created_at month then 0 else cents_of row.amount_cents)))
    go (replayed e) = inl (e, refl, refl)
    go (recorded e) =
        inr (e, sum_session-snoc session t (spend_row row), sum_month-snoc month t (spend_row row))

same_commit_refl : (r : Spend) → same_commit r r ≡ true
same_commit_refl r = ground (arith, text_eq_refl r.idempotency_key, text_eq_refl r.quote_id)

commit_held :
    (row : SpendLedgerInsert) (t u : List Spend)
    → Effect row t u
    → any (same_commit (spend_row row)) u ≡ true
commit_held row t u (replayed e) = e
commit_held row t u (recorded e) =
    rw (any-append (same_commit (spend_row row)) t (spend_row row ∷ []))
      (ground (arith, same_commit_refl (spend_row row)))

-- A commit can be replayed: any later insert that is well formed and has the same idempotency key and
-- quote is accepted and leaves the ledger as it is, whatever its other columns are.
pub insert_spend_replay :
    (row again : SpendLedgerInsert) (t u : List Spend)
    → insert_spend_in_txn row t ≡ inserted u
    → is_safe_cents again.amount_cents ≡ true
    → has_shape iso_utc_millis again.created_at ≡ true
    → again.idempotency_key ≡ row.idempotency_key
    → again.quote_id ≡ row.quote_id
    → insert_spend_in_txn again u ≡ inserted u
unfolding insert_spend_in_txn insert_row
insert_spend_replay row again t u h safe shaped key quote =
    rw (safe, shaped, key, quote, commit_held row t u (insert-Effect row t u h)) refl

within_bounds :
    (c : Cents)
    → IsSafe c
    → evaluate_spend (input_of c) ≡ within
    → (c.session_spent + c.amount ≤ c.session_limit) × (c.month_spent + c.amount ≤ c.month_limit)
within_bounds c safe ok = elim (evaluate_spend_exact c safe) [
  | inl (a, b, e) ↦ (a, b)
  | inr (inl (a, b, e)) ↦ cc (e, ok)
  | inr (inr (inl (a, b, e))) ↦ cc (e, ok)
  | inr (inr (inr (a, b, e))) ↦ cc (e, ok)
]

add_le : (b : Bool) (s n l : ℕ) → s + n ≤ l → s + (if b then n else 0) ≤ l
add_le true s n l h = h
add_le false s n l h = omega (arith, h)

add_le' : (b : Bool) (s n l : ℕ) → s + n ≤ l → s + (if b then 0 else n) ≤ l
add_le' true s n l h = omega (arith, h)
add_le' false s n l h = h

-- The cap holds, for safe amounts: when the check says `within` against the ledger's own sums, and the
-- ledger then accepts a spend of that amount, the sum of the session and that of the month are at most
-- their limits.
pub within_keeps_cap :
    (c : Cents) (row : SpendLedgerInsert) (t u : List Spend) (session month : Text)
    → IsSafe c
    → c.session_spent ≡ sum_session_spend_cents session t
    → c.month_spent ≡ sum_month_spend_cents month t
    → evaluate_spend (input_of c) ≡ within
    → cents_of row.amount_cents ≡ c.amount
    → insert_spend_in_txn row t ≡ inserted u
    → (sum_session_spend_cents session u ≤ c.session_limit)
      × (sum_month_spend_cents month u ≤ c.month_limit)
within_keeps_cap c row t u session month safe hs hm ok same done =
    let (a, b) = within_bounds c safe ok in go a b (insert_spend-sums row t u session month done)
  where
    go :
        c.session_spent + c.amount ≤ c.session_limit
        → c.month_spent + c.amount ≤ c.month_limit
        → ((any (same_commit (spend_row row)) t ≡ true)
            × (sum_session_spend_cents session u ≡ sum_session_spend_cents session t)
            × (sum_month_spend_cents month u ≡ sum_month_spend_cents month t))
          ⊎ ((any (same_commit (spend_row row)) t ≡ false)
              × (sum_session_spend_cents session u
                  ≡ sum_session_spend_cents session t
                    + (if text_eq row.session_id session then cents_of row.amount_cents else 0))
              × (sum_month_spend_cents month u
                  ≡ sum_month_spend_cents month t
                    + (if text_lt row.created_at month then 0 else cents_of row.amount_cents)))
        → (sum_session_spend_cents session u ≤ c.session_limit)
          × (sum_month_spend_cents month u ≤ c.month_limit)
    go a b (inl (e, p, q)) = (omega (arith, a, p, hs), omega (arith, b, q, hm))
    go a b (inr (e, p, q)) =
        let x =
          add_le (text_eq row.session_id session) (sum_session_spend_cents session t)
            (cents_of row.amount_cents) c.session_limit (omega (arith, a, hs, same)) in
        let y =
          add_le' (text_lt row.created_at month) (sum_month_spend_cents month t)
            (cents_of row.amount_cents) c.month_limit (omega (arith, b, hm, same)) in
        (omega (arith, p, x), omega (arith, q, y))
