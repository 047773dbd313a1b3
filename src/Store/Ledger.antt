-- ===== src/Store/Ledger.antt =====
-- spend-ledger.ts: the committed spends, and their sums over a session and over a month.
use commitment_workbench.Prelude.{
  ℕ, ◌+◌, Bool, true, false, ◌&&◌, not, Option, none, some, List, [], ◌∷◌, ◌++◌, Text, leb, ◌==◌,
  text_eq, text_lt, any, filter, if◌then◌else◌,
}
use commitment_workbench.Prelude.Int.{pos, negsuc}
use commitment_workbench.Governance.Spend.{Number, whole, other, is_safe_cents}
pub mod Sums

pub record SpendLedgerInsert : Type 0 where
  pub id : Text
  pub session_id : Text
  pub created_at : Text
  pub service : Text
  pub verb : Text
  pub amount_cents : Number
  pub quote_id : Text
  pub idempotency_key : Text
  pub audit_entry_id : Text

-- A stored row: its amount is a whole number of cents.
pub record Spend : Type 0 where
  pub id : Text
  pub session_id : Text
  pub created_at : Text
  pub service : Text
  pub verb : Text
  pub amount_cents : ℕ
  pub quote_id : Text
  pub idempotency_key : Text
  pub settled_amount_cents : Option ℕ
  pub audit_entry_id : Text

-- One position of the regular expression: `\d`, or a character.
pub data Shape : Type 0 where
  digit : Shape
  exactly : ℕ → Shape

abbrev pub fits : Shape → ℕ → Bool
fits digit c = leb 48 c && leb c 57
fits (exactly d) c = d == c

abbrev pub has_shape : List Shape → Text → Bool
has_shape [] [] = true
has_shape (p ∷ ps) (c ∷ cs) = fits p c && has_shape ps cs
has_shape _ _ = false

-- \d{4}-\d{2}-\d{2}T\d{2}:\d{2}:\d{2}\.\d{3}Z
abbrev pub iso_utc_millis : List Shape
iso_utc_millis =
    digit
    ∷ digit
    ∷ digit
    ∷ digit
    ∷ exactly 45
    ∷ digit
    ∷ digit
    ∷ exactly 45
    ∷ digit
    ∷ digit
    ∷ exactly 84
    ∷ digit
    ∷ digit
    ∷ exactly 58
    ∷ digit
    ∷ digit
    ∷ exactly 58
    ∷ digit
    ∷ digit
    ∷ exactly 46
    ∷ digit
    ∷ digit
    ∷ digit
    ∷ exactly 90
    ∷ []

pub data InsertResult : Type 0 where
  inserted : List Spend → InsertResult
  bad_amount bad_created_at constraint_violation : InsertResult

abbrev pub cents_of : Number → ℕ
cents_of (whole (pos n)) = n
cents_of (whole (negsuc _)) = 0
cents_of other = 0

abbrev pub spend_row : SpendLedgerInsert → Spend
spend_row row = record {
  id = row.id;
  session_id = row.session_id;
  created_at = row.created_at;
  service = row.service;
  verb = row.verb;
  amount_cents = cents_of row.amount_cents;
  quote_id = row.quote_id;
  idempotency_key = row.idempotency_key;
  settled_amount_cents = none;
  audit_entry_id = row.audit_entry_id;
}

-- The pair of ON CONFLICT
abbrev pub same_commit : Spend → Spend → Bool
same_commit a b = text_eq a.idempotency_key b.idempotency_key && text_eq a.quote_id b.quote_id

abbrev pub same_id : Spend → Spend → Bool
same_id a b = text_eq a.id b.id

-- ON CONFLICT names one unique index: a row that meets it is dropped before the primary key is read.
unfoldable pub insert_row : Spend → List Spend → InsertResult
insert_row r t =
    if any (same_commit r) t
    then inserted t
    else if any (same_id r) t
    then constraint_violation
    else inserted (t ++ r ∷ [])

unfoldable pub insert_spend_in_txn : SpendLedgerInsert → List Spend → InsertResult
unfolding insert_row
insert_spend_in_txn row t =
    if not (is_safe_cents row.amount_cents)
    then bad_amount
    else if not (has_shape iso_utc_millis row.created_at)
    then bad_created_at
    else insert_row (spend_row row) t

-- COALESCE(SUM(amount_cents), 0)
abbrev pub sum_cents : List Spend → ℕ
sum_cents [] = 0
sum_cents (r ∷ t) = r.amount_cents + sum_cents t

unfoldable pub sum_session_spend_cents : Text → List Spend → ℕ
sum_session_spend_cents session_id t = sum_cents (filter (λ r. text_eq r.session_id session_id) t)

-- created_at >= month_start
unfoldable pub sum_month_spend_cents : Text → List Spend → ℕ
sum_month_spend_cents month_start t =
    sum_cents (filter (λ r. not (text_lt r.created_at month_start)) t)
