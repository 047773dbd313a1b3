-- ===== src/Audit/Closure/Findings.antt =====
-- What the closure check reports of a range whose rows have distinct ids, stated without its map: each
-- decision is judged by all the rows that name it.
use commitment_workbench.Prelude.{
  ◌+◌, ◌≡◌, refl, sym, ap, ap₂, ◌∙◌, ◌≡⟨◌⟩◌, ◌∎, ◌≢◌, Bool, true, false, none, some, List, [], ◌∷◌,
  ◌++◌, reverse, append-nil, append_assoc, arith, Text, All, filter, length, if◌then◌else◌,
}
use mathlib.Core.List.{reverse-append}
use mathlib.Core.Path.{fun_ext}
use commitment_workbench.Audit.Chain.{ChainEntry}
use commitment_workbench.Audit.Closure.{
  CloserRef, DecisionClosure, conflicted, unresolved, unchecked, closers_of, seed, Walk, closure_of,
  agreement_of, open_kind_of, closure_step, walk_back, sort_closed, owes_closer, seeded,
  check_decision_closure,
}
use commitment_workbench.Audit.Closure.Owed.{naming, named, closers_of-seed, closers_of-walk_back}

-- The ids of a range are distinct.
abbrev pub Distinct : List ChainEntry → Type 0
Distinct [] = Unit {0}
Distinct (e ∷ es) = All (λ x. x.id ≢ e.id) es × Distinct es

-- A decision with two or more closers, under a closed edge.
abbrev pub conflict_at : Bool → ChainEntry → List CloserRef → List DecisionClosure
conflict_at true e (c ∷ d ∷ cs) =
    closure_of e conflicted (some (agreement_of c (c ∷ d ∷ cs))) none (c ∷ d ∷ cs) ∷ []
conflict_at _ _ _ = []

-- A decision with no closer, under a closed edge.
abbrev pub open_at : Bool → ChainEntry → List CloserRef → List DecisionClosure
open_at true e [] = closure_of e unresolved none (some (open_kind_of e)) [] ∷ []
open_at _ _ _ = []

-- Any decision, under an open edge.
abbrev pub unchecked_at : Bool → ChainEntry → List CloserRef → List DecisionClosure
unchecked_at true e cs = []
unchecked_at false e cs = closure_of e unchecked none none cs ∷ []

-- One report on each decision that owes a closer, oldest first: `judge` is given the decision with all
-- that name it, those of the carry first, then the rows of the range, newest first.
abbrev pub reports :
    (ChainEntry → List CloserRef → List DecisionClosure)
    → (Text → List CloserRef)
    → List ChainEntry
    → List DecisionClosure
reports judge held [] = []
reports judge held (e ∷ es) =
    (if owes_closer e then judge e (held e.id ++ named e.id es) else []) ++ reports judge held es

abbrev pub judged :
    (ChainEntry → List CloserRef → List DecisionClosure)
    → ChainEntry
    → List CloserRef
    → List DecisionClosure
judged judge e cs = if owes_closer e then judge e cs else []

-- Only a row without a referent owes a closer.
owes_closer-referent :
    (e : ChainEntry) (r : Text) → e.decision_entry_id ≡ some r → owes_closer e ≡ false
unfolding owes_closer
owes_closer-referent e r h = ground arith

module _ (edge_closed : Bool) (e : ChainEntry) (w : Walk) where
  pub step-conflicted :
      (closure_step edge_closed e w).conflicted
      ≡ w.conflicted ++ judged (conflict_at edge_closed) e (closers_of e.id w.unmatched)
  unfolding closure_step sort_closed
  step-conflicted = ground (arith, append-nil w.conflicted, owes_closer-referent e)

  pub step-unresolved :
      (closure_step edge_closed e w).unresolved
      ≡ w.unresolved ++ judged (open_at edge_closed) e (closers_of e.id w.unmatched)
  unfolding closure_step sort_closed
  step-unresolved = ground (arith, append-nil w.unresolved, owes_closer-referent e)

  pub step-unchecked :
      (closure_step edge_closed e w).unchecked
      ≡ w.unchecked ++ judged (unchecked_at edge_closed) e (closers_of e.id w.unmatched)
  unfolding closure_step sort_closed
  step-unchecked = ground (arith, append-nil w.unchecked, owes_closer-referent e)

  pub step-decisions_checked :
      (closure_step edge_closed e w).decisions_checked
      ≡ w.decisions_checked + (if owes_closer e then 1 else 0)
  unfolding closure_step sort_closed
  step-decisions_checked = ground (arith, owes_closer-referent e)

-- A list that a round only adds one judgement to, collected over a walk and reversed at its end.
module _ (edge_closed : Bool) (found : Walk → List DecisionClosure)
    (judge : ChainEntry → List CloserRef → List DecisionClosure)
    (short : (e : ChainEntry) (cs : List CloserRef)
      → reverse (judged judge e cs) ≡ judged judge e cs)
    (adds : (e : ChainEntry) (w : Walk)
      → found (closure_step edge_closed e w)
        ≡ found w ++ judged judge e (closers_of e.id w.unmatched)) where
  collected :
      (es : List ChainEntry) (w : Walk)
      → Distinct es
      → reverse (found (walk_back edge_closed es w))
        ≡ reports judge (λ k. closers_of k w.unmatched) es ++ reverse (found w)
  unfolding walk_back
  collected [] w h = refl
  collected (e ∷ es) w h =
      let v = walk_back edge_closed es w in
      let now = judged judge e (closers_of e.id v.unmatched) in
      reverse (found (closure_step edge_closed e v))
      ≡⟨ ap reverse (adds e v) ⟩ reverse (found v ++ now)
      ≡⟨ reverse-append (found v) now ⟩ reverse now ++ reverse (found v)
      ≡⟨ ap₂ ◌++◌ (short e (closers_of e.id v.unmatched)) (collected es w h.1) ⟩
        now ++ (reports judge (λ k. closers_of k w.unmatched) es ++ reverse (found w))
      ≡⟨ ap
          (λ cs.
            judged judge e cs
            ++ (reports judge (λ k. closers_of k w.unmatched) es ++ reverse (found w)))
          (closers_of-walk_back edge_closed es w e.id h.0) ⟩
        judged judge e (closers_of e.id w.unmatched ++ named e.id es)
        ++ (reports judge (λ k. closers_of k w.unmatched) es ++ reverse (found w))
      ≡⟨ sym (
          append_assoc (judged judge e (closers_of e.id w.unmatched ++ named e.id es))
            (reports judge (λ k. closers_of k w.unmatched) es) (reverse (found w))) ⟩
        reports judge (λ k. closers_of k w.unmatched) (e ∷ es) ++ reverse (found w) ∎

conflict_at-short :
    (b : Bool) (e : ChainEntry) (cs : List CloserRef)
    → reverse (judged (conflict_at b) e cs) ≡ judged (conflict_at b) e cs
conflict_at-short b e cs = ground arith

open_at-short :
    (b : Bool) (e : ChainEntry) (cs : List CloserRef)
    → reverse (judged (open_at b) e cs) ≡ judged (open_at b) e cs
open_at-short b e cs = ground arith

unchecked_at-short :
    (b : Bool) (e : ChainEntry) (cs : List CloserRef)
    → reverse (judged (unchecked_at b) e cs) ≡ judged (unchecked_at b) e cs
unchecked_at-short b e cs = ground arith

reports-held :
    (judge : ChainEntry → List CloserRef → List DecisionClosure) (f g : Text → List CloserRef)
    (es : List ChainEntry)
    → ((k : Text) → f k ≡ g k)
    → reports judge f es ++ [] ≡ reports judge g es
reports-held judge f g es h =
    append-nil (reports judge f es) ∙ ap (λ t. reports judge t es) (fun_ext h)

counted :
    (edge_closed : Bool) (es : List ChainEntry) (w : Walk)
    → (walk_back edge_closed es w).decisions_checked
      ≡ w.decisions_checked + length (filter owes_closer es)
unfolding walk_back
counted edge_closed [] w = omega arith
counted edge_closed (e ∷ es) w = ground (
  arith,
  step-decisions_checked edge_closed e (walk_back edge_closed es w),
  counted edge_closed es w,
)

-- For rows with distinct ids the check counts the decisions that owe a closer, and reports on each of
-- them, oldest first, by all the closers that name it: those of the carry, then those of the newer
-- rows of the range, newest first. Under a closed edge those with two or more closers are conflicted
-- and those with none unresolved; under an open edge each is unchecked.
pub check_decision_closure-reports :
    (es : List ChainEntry) (carry : List CloserRef) (edge_closed : Bool)
    → Distinct es
    → let v = check_decision_closure es carry edge_closed in
      let held = λ (k : Text). naming k carry in
      (v.decisions_checked ≡ length (filter owes_closer es))
      × (v.conflicted ≡ reports (conflict_at edge_closed) held es)
      × (v.unresolved ≡ reports (open_at edge_closed) held es)
      × (v.unchecked ≡ reports (unchecked_at edge_closed) held es)
unfolding check_decision_closure closers_of
check_decision_closure-reports es carry b h = (
  counted b es (seeded carry) ∙ omega arith,
  collected b Walk.conflicted (conflict_at b) (conflict_at-short b) (step-conflicted b) es
        (seeded carry) h
      ∙ reports-held (conflict_at b) _ _ es held_eq,
  collected b Walk.unresolved (open_at b) (open_at-short b) (step-unresolved b) es (seeded carry) h
      ∙ reports-held (open_at b) _ _ es held_eq,
  collected b Walk.unchecked (unchecked_at b) (unchecked_at-short b) (step-unchecked b) es
        (seeded carry) h
      ∙ reports-held (unchecked_at b) _ _ es held_eq,
)
  where
    held_eq : (k : Text) → closers_of k (seed [] carry) ≡ naming k carry
    held_eq k = closers_of-seed k [] carry
