-- ===== src/Budget/Counted.antt =====
-- boundedCopy of model-budget.ts: its count and its limit.
use commitment_workbench.Prelude.{
  ℕ, ◌+◌, ◌≤◌, ◌≡◌, subst, arith, Bool-cases, inl, inr, Bool, true, false, ◌&&◌, [], ◌∷◌, Text, ltb,
  if◌then◌else◌,
}
use commitment_workbench.Budget.Data.{
  null, boolean, number, string, array, object, opaque, no_items, item, no_fields, field, counted,
  exceeded, invalid, Json, Items, Fields, visit, visit_items, visit_fields, Copy, add, count_units,
  count_string, fail, at_depth, bounded_copy,
}
use commitment_workbench.Prelude.Units.{is_high, low_first}

-- A count that was not refused is within the limit.
abbrev Within : ℕ → Copy → Type 0
Within limit (counted n) = n ≤ limit
Within limit (exceeded n) = Unit {0}
Within limit invalid = Unit {0}

add-Within : (limit n : ℕ) (m : Copy) → Within limit m → Within limit (add limit n m)
unfolding add
add-Within limit n (counted b) h = elim (Bool-cases (ltb limit (b + n))) [
  | inl e ↦ rw e tt
  | inr e ↦ rw e (ground arith)
]
add-Within limit n (exceeded b) h = tt
add-Within limit n invalid h = tt

fail-Within : (limit : ℕ) (m : Copy) → Within limit m → Within limit (fail m)
fail-Within limit (counted b) h = tt
fail-Within limit (exceeded b) h = tt
fail-Within limit invalid h = tt

count_units-Within :
    (limit : ℕ) (skip : Bool) (s : Text) (m : Copy)
    → Within limit m
    → Within limit (count_units limit skip s m)
unfolding count_units
count_units-Within limit true [] m h = h
count_units-Within limit false [] m h = h
count_units-Within limit true (c ∷ cs) m h = count_units-Within limit false cs m h
count_units-Within limit false (c ∷ cs) m h =
    count_units-Within limit (is_high c && low_first cs) cs _ (add-Within limit _ m h)

count_string-Within :
    (limit : ℕ) (s : Text) (m : Copy) → Within limit m → Within limit (count_string limit s m)
unfolding count_string
count_string-Within limit s m h = count_units-Within limit false s _ (add-Within limit 2 m h)

comma-Within :
    (limit : ℕ) (first : Bool) (m : Copy)
    → Within limit m
    → Within limit (if first then m else add limit 1 m)
comma-Within limit true m h = h
comma-Within limit false m h = add-Within limit 1 m h

depth-Within :
    (limit depth : ℕ) (m n : Copy)
    → Within limit m
    → Within limit n
    → Within limit (at_depth depth m n)
depth-Within limit depth m n h k = go (ltb 32 depth)
  where
    go : (deep : Bool) → Within limit (if deep then fail m else n)
    go true = fail-Within limit m h
    go false = k

mutual
  unfolding visit

  visit-Within :
      (limit depth : ℕ) (v : Json) (m : Copy)
      → Within limit m
      → Within limit (visit limit depth v m)
  visit-Within limit depth null m h = depth-Within limit depth m _ h (add-Within limit 4 m h)
  visit-Within limit depth (boolean b) m h = depth-Within limit depth m _ h (add-Within limit _ m h)
  visit-Within limit depth (number n) m h = depth-Within limit depth m _ h (add-Within limit n m h)
  visit-Within limit depth (string s) m h =
      depth-Within limit depth m _ h (count_string-Within limit s m h)
  visit-Within limit depth (array xs) m h =
      depth-Within limit depth m _ h
        (visit_items-Within limit (depth + 1) true xs _ (add-Within limit 2 m h))
  visit-Within limit depth (object fs) m h =
      depth-Within limit depth m _ h
        (visit_fields-Within limit (depth + 1) true fs _ (add-Within limit 2 m h))
  visit-Within limit depth opaque m h = fail-Within limit m h

  visit_items-Within :
      (limit depth : ℕ) (first : Bool) (xs : Items) (m : Copy)
      → Within limit m
      → Within limit (visit_items limit depth first xs m)
  visit_items-Within limit depth first no_items m h = h
  visit_items-Within limit depth first (item v xs) m h =
      visit_items-Within limit depth false xs _
        (visit-Within limit depth v _ (comma-Within limit first m h))

  visit_fields-Within :
      (limit depth : ℕ) (first : Bool) (fs : Fields) (m : Copy)
      → Within limit m
      → Within limit (visit_fields limit depth first fs m)
  visit_fields-Within limit depth first no_fields m h = h
  visit_fields-Within limit depth first (field k v fs) m h =
      visit_fields-Within limit depth false fs _ (
        visit-Within limit depth v _
          (add-Within limit 1 _ (count_string-Within limit k _ (comma-Within limit first m h))))

pub bounded_copy-le : (limit n : ℕ) (v : Json) → bounded_copy limit v ≡ counted n → n ≤ limit
unfolding bounded_copy
bounded_copy-le limit n v h =
    subst (Within limit) h (visit-Within limit 0 v (counted 0) (omega arith))
