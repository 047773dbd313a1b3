-- ===== src/Governance/Policy.antt =====
-- policy.ts and evaluate-policy.ts. Text is a list of UTF-16 code units.
use commitment_workbench.Prelude.{
  ℕ, ◌≡◌, Bool, true, false, not, ◌&&◌, ◌||◌, Option, none, some, List, [], ◌∷◌, Text, codes,
  text_eq, if◌then◌else◌, filter, any, head?,
}
use commitment_workbench.Prelude.Int.{ℤ, ltb_ℤ}
pub mod Order
pub mod Winner

pub data Source : Type 0 where
  session task standing : Source

-- The `source` of a decision: that of the winning entry, or one of the two that the evaluator makes.
pub data DecisionSource : Type 0 where
  of_entry : Source → DecisionSource
  implicit malformed : DecisionSource

pub data Decision : Type 0 where
  allow deny pending : Decision

-- A JavaScript number, as far as it is ranked here. Every finite double is a whole multiple of
-- 2^-1074, and `finite n` is the n-th: only the order of two finite numbers is read. `non_finite` is
-- NaN, an infinity, or no number at all.
pub data Priority : Type 0 where
  finite : ℤ → Priority
  non_finite : Priority

-- `params` is of a type that nothing here reads.
pub record PolicyAction (Params : Type 0) : Type 0 where
  pub agent : Text
  pub service : Text
  pub verb : Text
  pub noun : Text
  pub tool_name : Text
  pub params : Params

-- An entry's decision is `allow` or `deny`; the type is that of its column.
pub data Verdict : Type 0 where
  allows denies : Verdict

pub record PolicyEntry : Type 0 where
  pub id : Text
  pub source : Source
  pub session_id : Option Text
  pub service : Text
  pub verb : Text
  pub noun : Text
  pub decision : Verdict
  pub priority : Priority
  pub created_at : Text
  pub expires_at : Option Text

pub record PolicyDecision : Type 0 where
  pub decision : Decision
  pub source : DecisionSource
  pub entry_id : Option Text

abbrev pub wildcard : Text
wildcard = codes "*"

abbrev pub is_deny : Verdict → Bool
is_deny denies = true
is_deny allows = false

-- The three-way test that `entryMatch` makes of the service, the verb and the noun in turn.
abbrev pub position_match : Verdict → Text → Bool → Bool
position_match v stored same = if text_eq stored wildcard then is_deny v else same

module _ {P : Type 0} (lower : Text → Text) where
  -- `lower` is `String.prototype.toLowerCase`.
  unfoldable pub entry_match : PolicyEntry → PolicyAction P → Bool
  entry_match entry action =
      position_match entry.decision entry.service (text_eq entry.service action.service)
      && position_match entry.decision entry.verb (text_eq entry.verb action.verb)
      && position_match entry.decision entry.noun (text_eq (lower entry.noun) (lower action.noun))

abbrev pub is_finite : Priority → Bool
is_finite (finite _) = true
is_finite non_finite = false

-- Whether `a.priority > b.priority`. A comparator that yields NaN counts as a tie.
abbrev pub outranks : Priority → Priority → Bool
outranks (finite a) (finite b) = ltb_ℤ b a
outranks _ _ = false

-- The comparator of the sort is negative: the higher priority first, of equal ones the deny.
unfoldable pub before : PolicyEntry → PolicyEntry → Bool
before a b =
    outranks a.priority b.priority
    || (not (outranks b.priority a.priority) && (is_deny a.decision && not (is_deny b.decision)))

-- `Array.prototype.sort` is stable: an element goes behind those that precede it, and no further.
unfoldable pub insert : PolicyEntry → List PolicyEntry → List PolicyEntry
insert x [] = x ∷ []
insert x (y ∷ ys) = let rest = insert x ys in if before y x then y ∷ rest else x ∷ y ∷ ys

unfoldable pub sort : List PolicyEntry → List PolicyEntry
unfolding insert
sort [] = []
sort (x ∷ xs) = insert x (sort xs)

abbrev pub to_decision : Verdict → Decision
to_decision allows = allow
to_decision denies = deny

unfoldable pub decide_by : Option PolicyEntry → PolicyDecision
decide_by none = record { decision = deny; source = implicit; entry_id = none }
decide_by (some e) = record {
  decision = to_decision e.decision;
  source = of_entry e.source;
  entry_id = some e.id;
}

abbrev pub is_malformed : PolicyEntry → Bool
is_malformed e = not (is_finite e.priority)

module _ {P : Type 0} (lower : Text → Text) where
  unfoldable pub evaluate_policy : List PolicyEntry → PolicyAction P → PolicyDecision
  unfolding entry_match sort decide_by
  evaluate_policy entries action =
      let matched = filter (λ e. entry_match lower e action) entries in
      if any is_malformed matched
      then record { decision = deny; source = malformed; entry_id = none }
      else decide_by (head? (sort matched))
