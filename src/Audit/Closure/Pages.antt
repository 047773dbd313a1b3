-- ===== src/Audit/Closure/Pages.antt =====
-- decision-closure.ts on a log that is checked page by page, newest page first, with the carry handed on.
use commitment_workbench.Prelude.{
  ℕ, ◌+◌, ◌≡◌, refl, sym, ap, ◌∙◌, Bool, List, [], ◌∷◌, ◌++◌, append-nil, append_assoc, arith,
}
use mathlib.Core.List.{reverse-append}
use commitment_workbench.Audit.Chain.{ChainEntry}
use commitment_workbench.Audit.Closure.{
  CloserRef, DecisionClosure, closers_of, values, Walk, closure_step, walk_back, seeded,
  check_decision_closure,
}
use commitment_workbench.Audit.Closure.Owed.{step-unmatched}
use commitment_workbench.Audit.Closure.Findings.{
  conflict_at, open_at, unchecked_at, judged, step-conflicted, step-unresolved, step-unchecked,
  step-decisions_checked,
}
use commitment_workbench.Audit.Closure.Carry.{
  IsGrouped, walk_back-IsGrouped, seed-IsGrouped, seed-values,
}

-- The walk `w`, with what was found on an earlier page in front of what it found.
abbrev after : Walk → Walk → Walk
after v w = record {
  unmatched = w.unmatched;
  decisions_checked = v.decisions_checked + w.decisions_checked;
  conflicted = v.conflicted ++ w.conflicted;
  unresolved = v.unresolved ++ w.unresolved;
  unchecked = v.unchecked ++ w.unchecked;
}

joined :
    {all own : List DecisionClosure} (vs ws fs : List DecisionClosure)
    → all ≡ (vs ++ ws) ++ fs
    → own ≡ ws ++ fs
    → all ≡ vs ++ own
joined vs ws fs p q = p ∙ (append_assoc vs ws fs ∙ ap (◌++◌ vs) (sym q))

summed : {a k : ℕ} (x y d : ℕ) → a ≡ x + y + d → k ≡ y + d → a ≡ x + k
summed x y d p q = omega arith

step-after :
    (b : Bool) (e : ChainEntry) (v w : Walk)
    → closure_step b e (after v w) ≡ after v (closure_step b e w)
step-after b e v w =
    let cs = closers_of e.id w.unmatched in
    λ i. record {
      unmatched = (step-unmatched b e (after v w) ∙ sym (step-unmatched b e w)) i;
      decisions_checked =
          summed v.decisions_checked w.decisions_checked _ (step-decisions_checked b e (after v w))
            (step-decisions_checked b e w) i;
      conflicted =
          joined v.conflicted w.conflicted (judged (conflict_at b) e cs)
            (step-conflicted b e (after v w)) (step-conflicted b e w) i;
      unresolved =
          joined v.unresolved w.unresolved (judged (open_at b) e cs)
            (step-unresolved b e (after v w)) (step-unresolved b e w) i;
      unchecked =
          joined v.unchecked w.unchecked (judged (unchecked_at b) e cs)
            (step-unchecked b e (after v w)) (step-unchecked b e w) i;
    }

walk_back-after :
    (b : Bool) (es : List ChainEntry) (v w : Walk)
    → walk_back b es (after v w) ≡ after v (walk_back b es w)
unfolding walk_back
walk_back-after b [] v w = refl
walk_back-after b (e ∷ es) v w =
    ap (closure_step b e) (walk_back-after b es v w) ∙ step-after b e v (walk_back b es w)

walk_back-append :
    (b : Bool) (xs ys : List ChainEntry) (w : Walk)
    → walk_back b (xs ++ ys) w ≡ walk_back b xs (walk_back b ys w)
unfolding walk_back
walk_back-append b [] ys w = refl
walk_back-append b (x ∷ xs) ys w = ap (closure_step b x) (walk_back-append b xs ys w)

-- A walk's state is what it found, in front of a fresh state with its map.
split_state : (w : Walk) → IsGrouped w.unmatched → w ≡ after w (seeded (values w.unmatched))
split_state w g = ground (
  arith,
  seed-values w.unmatched g,
  append-nil w.conflicted,
  append-nil w.unresolved,
  append-nil w.unchecked,
)

whole_walk :
    (b : Bool) (older newer : List ChainEntry) (carry : List CloserRef)
    → let w = walk_back b newer (seeded carry) in
      walk_back b (older ++ newer) (seeded carry)
      ≡ after w (walk_back b older (seeded (values w.unmatched)))
whole_walk b older newer carry =
    let w = walk_back b newer (seeded carry) in
    let g = walk_back-IsGrouped b newer (seeded carry) (seed-IsGrouped [] carry tt) in
    walk_back-append b older newer (seeded carry)
    ∙ (ap (walk_back b older) (split_state w g)
        ∙ walk_back-after b older w (seeded (values w.unmatched)))

-- Two adjacent pages that are checked newest first, the carry of the newer one handed to the older
-- one, together give the verdict of the whole range: the counts add up, the reports of the older page
-- come before those of the newer, and the carry that is left is the same. This holds of any rows.
pub check_decision_closure-append :
    (older newer : List ChainEntry) (carry : List CloserRef) (edge_closed : Bool)
    → let second = check_decision_closure newer carry edge_closed in
      let first = check_decision_closure older second.carry edge_closed in
      check_decision_closure (older ++ newer) carry edge_closed ≡ record {
        decisions_checked = second.decisions_checked + first.decisions_checked;
        conflicted = first.conflicted ++ second.conflicted;
        unresolved = first.unresolved ++ second.unresolved;
        unchecked = first.unchecked ++ second.unchecked;
        carry = first.carry;
      }
unfolding check_decision_closure
check_decision_closure-append older newer carry b =
    let w = walk_back b newer (seeded carry) in
    let u = walk_back b older (seeded (values w.unmatched)) in
    rw (whole_walk b older newer carry) (
      ground (
        arith,
        reverse-append w.conflicted u.conflicted,
        reverse-append w.unresolved u.unresolved,
        reverse-append w.unchecked u.unchecked,
      ))
