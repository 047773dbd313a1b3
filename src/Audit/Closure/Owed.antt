-- ===== src/Audit/Closure/Owed.antt =====
-- The map of unmatched closers, and which rows it holds for a decision when the walk reaches it.
use commitment_workbench.Prelude.{
  ◌+◌, ◌≡◌, refl, sym, ap, ◌∙◌, ◌≢◌, inl, inr, Bool, none, some, List, [], ◌∷◌, ◌++◌, append-nil,
  append_assoc, arith, Text, text_eq, text_eq_iff, Option-cases, All, filter, if◌then◌else◌,
}
use commitment_workbench.Audit.Chain.{ChainEntry}
use commitment_workbench.Audit.Closure.{
  CloserRef, Unmatched, closers_of, delete, add_closer, seed, Walk, closer_ref, closure_step,
  walk_back, sort_closed,
}

-- The closers among `cs` that name `k`.
abbrev pub naming : Text → List CloserRef → List CloserRef
naming k = filter (λ c. text_eq c.referent_id k)

-- The closer that a row is of `k`, if it names it.
abbrev pub names_of : Text → ChainEntry → List CloserRef
names_of k e = elim e.decision_entry_id [
  | none ↦ []
  | some r ↦ if text_eq r k then closer_ref e r ∷ [] else []
]

-- The rows of a range that name `k`, newest first.
abbrev pub named : Text → List ChainEntry → List CloserRef
named k [] = []
named k (e ∷ es) = named k es ++ names_of k e

pub closers_of-delete :
    (k j : Text) (m : Unmatched)
    → closers_of k (delete j m) ≡ (if text_eq j k then [] else closers_of k m)
unfolding closers_of delete
closers_of-delete k j [] = ground arith
closers_of-delete k j ((i, refs) ∷ m) =
    ground (arith, text_eq_iff i j, text_eq_iff i k, text_eq_iff j k, closers_of-delete k j m)

pub closers_of-add_closer :
    (k : Text) (c : CloserRef) (m : Unmatched)
    → closers_of k (add_closer c m) ≡ closers_of k m ++ naming k (c ∷ [])
unfolding closers_of add_closer
closers_of-add_closer k c [] = ground arith
closers_of-add_closer k c ((i, refs) ∷ m) = ground (
  arith,
  text_eq_iff i c.referent_id,
  text_eq_iff i k,
  text_eq_iff c.referent_id k,
  append-nil refs,
  append-nil (closers_of k m),
  closers_of-add_closer k c m,
)

pub closers_of-seed :
    (k : Text) (m : Unmatched) (cs : List CloserRef)
    → closers_of k (seed m cs) ≡ closers_of k m ++ naming k cs
unfolding seed
closers_of-seed k m [] = sym (append-nil (closers_of k m))
closers_of-seed k m (c ∷ cs) =
    closers_of-seed k (add_closer c m) cs
    ∙ (ap (λ t. t ++ naming k cs) (closers_of-add_closer k c m)
        ∙ (append_assoc (closers_of k m) (naming k (c ∷ [])) (naming k cs)
            ∙ ap (◌++◌ (closers_of k m)) (naming-cons c)))
  where
    naming-cons : (c : CloserRef) → naming k (c ∷ []) ++ naming k cs ≡ naming k (c ∷ cs)
    naming-cons c = ground arith

sort_closed-unmatched :
    (e : ChainEntry) (cs : List CloserRef) (w : Walk) → (sort_closed e cs w).unmatched ≡ w.unmatched
unfolding sort_closed
sort_closed-unmatched e [] w = refl
sort_closed-unmatched e (c ∷ []) w = refl
sort_closed-unmatched e (c ∷ d ∷ cs) w = refl

-- What a round leaves in the map: nothing under the row's id, and one more closer if the row is one.
pub step-unmatched :
    (edge_closed : Bool) (e : ChainEntry) (w : Walk)
    → (closure_step edge_closed e w).unmatched ≡ elim e.decision_entry_id [
      | none ↦ delete e.id w.unmatched
      | some r ↦ add_closer (closer_ref e r) (delete e.id w.unmatched)
    ]
unfolding closure_step
step-unmatched edge_closed e w = ground (
  arith,
  sort_closed-unmatched e (closers_of e.id w.unmatched) (record w {
    unmatched = delete e.id w.unmatched;
    decisions_checked = w.decisions_checked + 1;
  }),
)

closers_of-step :
    (edge_closed : Bool) (e : ChainEntry) (w : Walk) (k : Text)
    → e.id ≢ k
    → closers_of k (closure_step edge_closed e w).unmatched
      ≡ closers_of k w.unmatched ++ names_of k e
closers_of-step edge_closed e w k ne = elim (Option-cases e.decision_entry_id) [
  | inl h ↦ ground (
    arith,
    step-unmatched edge_closed e w,
    closers_of-delete k e.id w.unmatched,
    text_eq_iff e.id k,
    append-nil (closers_of k w.unmatched),
  )
  | inr (r, h) ↦ ground (
    arith,
    step-unmatched edge_closed e w,
    closers_of-delete k e.id w.unmatched,
    closers_of-add_closer k (closer_ref e r) (delete e.id w.unmatched),
    text_eq_iff e.id k,
  )
]

-- After the walk over rows none of which is `k`, the map holds for `k` what it held before, and then
-- the rows that name `k`, newest first.
pub closers_of-walk_back :
    (edge_closed : Bool) (es : List ChainEntry) (w : Walk) (k : Text)
    → All (λ e. e.id ≢ k) es
    → closers_of k (walk_back edge_closed es w).unmatched ≡ closers_of k w.unmatched ++ named k es
unfolding walk_back
closers_of-walk_back edge_closed [] w k h = sym (append-nil (closers_of k w.unmatched))
closers_of-walk_back edge_closed (e ∷ es) w k h =
    closers_of-step edge_closed e (walk_back edge_closed es w) k h.0
    ∙ (ap (λ t. t ++ names_of k e) (closers_of-walk_back edge_closed es w k h.1)
        ∙ append_assoc (closers_of k w.unmatched) (named k es) (names_of k e))
