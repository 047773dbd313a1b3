-- ===== src/Audit/Closure/Carry.antt =====
-- decision-closure.ts: the carry, and the map that is seeded with it.
use commitment_workbench.Prelude.{
  ◌≡◌, refl, sym, ap, subst, ◌∙◌, ◌≢◌, inl, inr, Bool, List, [], ◌∷◌, ◌++◌, append-nil,
  append_assoc, arith, Text, text_eq, text_eq_iff, text_eq_refl, Bool-cases, Option-cases, All,
}
use commitment_workbench.Audit.Chain.{ChainEntry}
use commitment_workbench.Audit.Closure.{
  CloserRef, Unmatched, delete, add_closer, seed, values, Walk, closer_ref, closure_step, walk_back,
}
use commitment_workbench.Audit.Closure.Owed.{step-unmatched}

abbrev pub NoKey : Text → Unmatched → Type 0
NoKey j = All (λ p. p.0 ≢ j)

-- Every key has one list, which is not empty and whose closers name the key.
abbrev pub IsGrouped : Unmatched → Type 0
IsGrouped [] = Unit {0}
IsGrouped ((j, refs) ∷ m) =
    (refs ≢ []) × All (λ c. c.referent_id ≡ j) refs × NoKey j m × IsGrouped m

NoKey-delete : (j k : Text) (m : Unmatched) → NoKey j m → NoKey j (delete k m)
unfolding delete
NoKey-delete j k [] h = tt
NoKey-delete j k ((i, refs) ∷ m) h = ground (arith, NoKey-delete j k m h.1)

delete-IsGrouped : (k : Text) (m : Unmatched) → IsGrouped m → IsGrouped (delete k m)
unfolding delete
delete-IsGrouped k [] h = tt
delete-IsGrouped k ((i, refs) ∷ m) h =
    ground (arith, delete-IsGrouped k m h.3, NoKey-delete i k m h.2)

NoKey-add_closer :
    (j : Text) (c : CloserRef) (m : Unmatched)
    → c.referent_id ≢ j
    → NoKey j m
    → NoKey j (add_closer c m)
unfolding add_closer
NoKey-add_closer j c [] ne h = (ne, tt)
NoKey-add_closer j c ((i, refs) ∷ m) ne h = ground (arith, NoKey-add_closer j c m ne h.1)

All-naming-snoc :
    (j : Text) (refs : List CloserRef) (c : CloserRef)
    → All (λ x. x.referent_id ≡ j) refs
    → c.referent_id ≡ j
    → All (λ x. x.referent_id ≡ j) (refs ++ c ∷ [])
All-naming-snoc j [] c h e = (e, tt)
All-naming-snoc j (x ∷ refs) c h e = (h.0, All-naming-snoc j refs c h.1 e)

snoc_ne_nil : (refs : List CloserRef) (c : CloserRef) → refs ++ c ∷ [] ≢ []
snoc_ne_nil [] c h = cc
snoc_ne_nil (x ∷ refs) c h = cc

add_closer-IsGrouped : (c : CloserRef) (m : Unmatched) → IsGrouped m → IsGrouped (add_closer c m)
unfolding add_closer
add_closer-IsGrouped c [] h = ((λ e. cc e), (refl, tt), tt, tt)
add_closer-IsGrouped c ((i, refs) ∷ m) h = elim (Bool-cases (text_eq i c.referent_id)) [
  | inl e ↦ rw e (
    snoc_ne_nil refs c,
    All-naming-snoc i refs c h.1 (sym ((text_eq_iff i c.referent_id).0 e)),
    h.2,
    h.3,
  )
  | inr e ↦ rw e (
    h.0,
    h.1,
    NoKey-add_closer i c m (λ q. ground (arith, text_eq_iff i c.referent_id)) h.2,
    add_closer-IsGrouped c m h.3,
  )
]

step-IsGrouped :
    (b : Bool) (e : ChainEntry) (w : Walk)
    → IsGrouped w.unmatched
    → IsGrouped (closure_step b e w).unmatched
step-IsGrouped b e w h = elim (Option-cases e.decision_entry_id) [
  | inl q ↦ rw (step-unmatched b e w, q) (delete-IsGrouped e.id w.unmatched h)
  | inr (r, q) ↦
      rw (step-unmatched b e w, q)
        (add_closer-IsGrouped (closer_ref e r) (delete e.id w.unmatched)
          (delete-IsGrouped e.id w.unmatched h))
]

pub walk_back-IsGrouped :
    (b : Bool) (es : List ChainEntry) (w : Walk)
    → IsGrouped w.unmatched
    → IsGrouped (walk_back b es w).unmatched
unfolding walk_back
walk_back-IsGrouped b [] w h = h
walk_back-IsGrouped b (e ∷ es) w h =
    step-IsGrouped b e (walk_back b es w) (walk_back-IsGrouped b es w h)

pub seed-IsGrouped : (m : Unmatched) (cs : List CloserRef) → IsGrouped m → IsGrouped (seed m cs)
unfolding seed
seed-IsGrouped m [] h = h
seed-IsGrouped m (c ∷ cs) h = seed-IsGrouped (add_closer c m) cs (add_closer-IsGrouped c m h)

-- Seeding with the closers of one more group puts the group at the end.
add_closer_last :
    (c : CloserRef) (m : Unmatched) (refs : List CloserRef)
    → NoKey c.referent_id m
    → add_closer c (m ++ (c.referent_id, refs) ∷ []) ≡ m ++ (c.referent_id, refs ++ c ∷ []) ∷ []
unfolding add_closer
add_closer_last c [] refs h = rw (text_eq_refl c.referent_id) refl
add_closer_last c ((i, rs) ∷ m) refs h =
    ground (arith, text_eq_iff i c.referent_id, add_closer_last c m refs h.1)

add_closer_new :
    (c : CloserRef) (m : Unmatched)
    → NoKey c.referent_id m
    → add_closer c m ≡ m ++ (c.referent_id, c ∷ []) ∷ []
unfolding add_closer
add_closer_new c [] h = refl
add_closer_new c ((i, rs) ∷ m) h =
    ground (arith, text_eq_iff i c.referent_id, add_closer_new c m h.1)

seed_last :
    (m : Unmatched) (j : Text) (refs cs : List CloserRef)
    → NoKey j m
    → All (λ c. c.referent_id ≡ j) cs
    → seed (m ++ (j, refs) ∷ []) cs ≡ m ++ (j, refs ++ cs) ∷ []
unfolding seed
seed_last m j refs [] h a = ap (λ r. m ++ (j, r) ∷ []) (sym (append-nil refs))
seed_last m j refs (c ∷ cs) h a =
    let put : add_closer c (m ++ (j, refs) ∷ []) ≡ m ++ (j, refs ++ c ∷ []) ∷ [] =
      subst (λ k. add_closer c (m ++ (k, refs) ∷ []) ≡ m ++ (k, refs ++ c ∷ []) ∷ []) a.0
        (add_closer_last c m refs (subst (λ k. NoKey k m) (sym a.0) h)) in
    ap (λ n. seed n cs) put
    ∙ (seed_last m j (refs ++ c ∷ []) cs h a.1
        ∙ ap (λ r. m ++ (j, r) ∷ []) (append_assoc refs (c ∷ []) cs))

seed_group :
    (m : Unmatched) (j : Text) (refs : List CloserRef)
    → NoKey j m
    → refs ≢ []
    → All (λ c. c.referent_id ≡ j) refs
    → seed m refs ≡ m ++ (j, refs) ∷ []
unfolding seed
seed_group m j [] h ne a = absurd (ne refl)
seed_group m j (c ∷ cs) h ne a =
    let put : add_closer c m ≡ m ++ (j, c ∷ []) ∷ [] =
      subst (λ k. add_closer c m ≡ m ++ (k, c ∷ []) ∷ []) a.0
        (add_closer_new c m (subst (λ k. NoKey k m) (sym a.0) h)) in
    ap (λ n. seed n cs) put ∙ seed_last m j (c ∷ []) cs h a.1

seed-append : (m : Unmatched) (cs ds : List CloserRef) → seed m (cs ++ ds) ≡ seed (seed m cs) ds
unfolding seed
seed-append m [] ds = refl
seed-append m (c ∷ cs) ds = seed-append (add_closer c m) cs ds

NoKey-append : (j : Text) (m n : Unmatched) → NoKey j m → NoKey j n → NoKey j (m ++ n)
NoKey-append j [] n h k = k
NoKey-append j (p ∷ m) n h k = (h.0, NoKey-append j m n h.1 k)

-- `Apart m n`: no key of `n` is one of `m`.
abbrev Apart : Unmatched → Unmatched → Type 0
Apart m = All (λ p. NoKey p.0 m)

Apart-snoc :
    (m n : Unmatched) (j : Text) (refs : List CloserRef)
    → Apart m n
    → NoKey j n
    → Apart (m ++ (j, refs) ∷ []) n
Apart-snoc m [] j refs a h = tt
Apart-snoc m (p ∷ n) j refs a h = (
  NoKey-append p.0 m ((j, refs) ∷ []) a.0 ((λ e. h.0 (sym e)), tt),
  Apart-snoc m n j refs a.1 h.1,
)

seed-values_from : (m n : Unmatched) → IsGrouped n → Apart m n → seed m (values n) ≡ m ++ n
unfolding seed values
seed-values_from m [] g a = sym (append-nil m)
seed-values_from m ((j, refs) ∷ n) g a =
    seed-append m refs (values n)
    ∙ (ap (λ k. seed k (values n)) (seed_group m j refs a.0 g.0 g.1)
        ∙ (seed-values_from (m ++ (j, refs) ∷ []) n g.3 (Apart-snoc m n j refs a.1 g.2)
            ∙ append_assoc m ((j, refs) ∷ []) n))

Apart-nil : (n : Unmatched) → Apart [] n
Apart-nil [] = tt
Apart-nil (p ∷ n) = (tt, Apart-nil n)

pub seed-values : (n : Unmatched) → IsGrouped n → seed [] (values n) ≡ n
seed-values n g = seed-values_from [] n g (Apart-nil n)
