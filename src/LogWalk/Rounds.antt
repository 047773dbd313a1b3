-- ===== src/LogWalk/Rounds.antt =====
-- What the walk's pages, verified one by one, say of the log as a whole.
use commitment_workbench.Prelude.{
  ℕ, zero, suc, ◌≡◌, refl, sym, ap, ap₂, subst, ◌∙◌, inl, inr, Bool, true, ◌||◌, Option, none, some,
  List, [], ◌∷◌, ◌++◌, reverse, reverse-cons, flatten, map, append-nil, append_assoc, Text, head?,
  Bool-cases, leb,
}
use mathlib.Core.List.{reverse-append}
use commitment_workbench.Audit.Chain.{ChainEntry, ChainVerdict, verify_chain_range}
use commitment_workbench.Audit.Chain.Pages.{verify_pages_sound}
use commitment_workbench.Audit.Closure.{ClosureVerdict, check_decision_closure}
use commitment_workbench.Audit.Closure.Pages.{check_decision_closure-append}
use commitment_workbench.LogWalk.{
  AuditListResponse, WalkState, StopReason, Round, ends, goes_on, initial, last_of, take_page,
  handle_page, round, loop, audit_max_pages, has_stalled, after_page, is_none,
}

-- The rows that the walk has delivered, oldest first.
abbrev pub rows : List (List ChainEntry) → List ChainEntry
rows [] = []
rows (p ∷ ps) = rows ps ++ reverse p

pub rows-snoc :
    (ps : List (List ChainEntry)) (p : List ChainEntry) → rows (ps ++ p ∷ []) ≡ reverse p ++ rows ps
rows-snoc [] p = sym (append-nil (reverse p))
rows-snoc (q ∷ ps) p =
    ap (λ r. r ++ reverse q) (rows-snoc ps p) ∙ append_assoc (reverse p) (rows ps) (reverse q)

abbrev pub init_of : ChainEntry → List ChainEntry → List ChainEntry
init_of e [] = []
init_of e (x ∷ xs) = e ∷ init_of x xs

-- A page read backwards begins with its last row.
reverse-page :
    (e : ChainEntry) (xs : List ChainEntry)
    → reverse (e ∷ xs) ≡ last_of e xs ∷ reverse (init_of e xs)
reverse-page e [] = refl
reverse-page e (x ∷ xs) =
    reverse-cons e (x ∷ xs)
    ∙ (ap (λ t. t ++ e ∷ []) (reverse-page x xs)
        ∙ ap (◌∷◌ (last_of x xs)) (sym (reverse-cons e (init_of x xs))))

module _ {ℓ κ} {A : Type ℓ} {B : Type κ} (f : A → List B) where
  unfoldable pub collect : List A → List B
  collect xs = flatten (map f (reverse xs))

  collect-snoc : (xs : List A) (x : A) → collect (xs ++ x ∷ []) ≡ f x ++ collect xs
  unfolding collect mathlib.Core.List.flatten
  collect-snoc xs x = ap (λ t. flatten (map f t)) (reverse-append xs (x ∷ []))

append_empty : {A : Type 0} (xs ys : List A) → xs ++ ys ≡ [] → (xs ≡ []) × (ys ≡ [])
append_empty [] ys h = (refl, h)
append_empty (x ∷ xs) ys h = cc h

module _ (sha256 : Text → Text) where
  -- The state's verdicts are right about the rows delivered so far.
  pub record Agrees (s : WalkState) : Type 0 where
    pub boundary_first : s.boundary ≡ head? (rows s.delivered)
    pub no_breaks :
        collect ChainVerdict.breaks s.pages ≡ []
        → (verify_chain_range sha256 (rows s.delivered) none).breaks ≡ []
    pub conflicts :
        (check_decision_closure (rows s.delivered) [] true).conflicted
        ≡ collect ClosureVerdict.conflicted s.closures
    pub carried : (check_decision_closure (rows s.delivered) [] true).carry ≡ s.closure_carry

  pub initial-Agrees : Agrees initial
  unfolding collect mathlib.Core.List.flatten verify_chain_range check_decision_closure
  initial-Agrees = record {
    boundary_first = refl;
    no_breaks = λ h. refl;
    conflicts = refl;
    carried = refl;
  }

  -- A page in front of what was verified before: the breaks.
  page_breaks :
      (y : ChainEntry) (ys newer : List ChainEntry)
      → (verify_chain_range sha256 (y ∷ ys) (head? newer)).breaks ≡ []
      → (verify_chain_range sha256 newer none).breaks ≡ []
      → (verify_chain_range sha256 (y ∷ ys ++ newer) none).breaks ≡ []
  page_breaks y ys [] h k =
      subst (λ t. (verify_chain_range sha256 (y ∷ t) none).breaks ≡ []) (sym (append-nil ys)) h
  page_breaks y ys (b ∷ bs) h k = verify_pages_sound sha256 y b ys bs none h k

  take_page-Agrees :
      (first : ChainEntry) (rest : List ChainEntry) (s : WalkState)
      → Agrees s
      → Agrees (take_page sha256 true first rest s)
  unfolding take_page
  take_page-Agrees first rest s a =
      let page = first ∷ rest in
      let old = rows s.delivered in
      let asc = reverse-page first rest in
      let all = rows-snoc s.delivered page in
      let pair = check_decision_closure-append (reverse page) old [] true in
      record {
        boundary_first = sym (ap head? (all ∙ ap (λ t. t ++ old) asc));
        no_breaks = λ h.
            let v = verify_chain_range sha256 (reverse page) s.boundary in
            let (now, before) =
              append_empty v.breaks (collect ChainVerdict.breaks s.pages)
                (sym (collect-snoc ChainVerdict.breaks s.pages v) ∙ h) in
            let mine : (verify_chain_range sha256
                  (last_of first rest ∷ reverse (init_of first rest)) (head? old)).breaks
                ≡ [] =
              ap₂ (λ t b. (verify_chain_range sha256 t b).breaks) (sym asc) (sym a.boundary_first)
              ∙ now in
            ap (λ t. (verify_chain_range sha256 t none).breaks) (all ∙ ap (λ t. t ++ old) asc)
            ∙ page_breaks (last_of first rest) (reverse (init_of first rest)) old mine
                (a.no_breaks before);
        conflicts =
            ap (λ t. (check_decision_closure t [] true).conflicted) all
            ∙ (ap ClosureVerdict.conflicted pair
                ∙ (ap₂ ◌++◌
                      (ap (λ c. (check_decision_closure (reverse page) c true).conflicted)
                        a.carried)
                      a.conflicts
                    ∙ sym (collect-snoc ClosureVerdict.conflicted s.closures _)));
        carried =
            ap (λ t. (check_decision_closure t [] true).carry) all
            ∙ (ap ClosureVerdict.carry pair
                ∙ ap (λ c. (check_decision_closure (reverse page) c true).carry) a.carried);
      }

  module _ (fetch : ℕ → Option Text → AuditListResponse) (aborted : ℕ → Bool) where
    abbrev RoundAgrees : Round → Type 0
    RoundAgrees (ends s reason) = Agrees s
    RoundAgrees (goes_on s) = Agrees s

    same_facts :
        (s : WalkState) (c : Option Text) (e : Bool)
        → Agrees s
        → Agrees (record s { cursor = c; cursor_exhausted = e })
    same_facts s c e a = record {
      boundary_first = a.boundary_first;
      no_breaks = a.no_breaks;
      conflicts = a.conflicts;
      carried = a.carried;
    }

    after_page-Agrees :
        (s : WalkState) (next : Option Text) → Agrees s → RoundAgrees (after_page s next)
    after_page-Agrees s none a = same_facts s s.cursor true a
    after_page-Agrees s (some c) a = same_facts s (some c) s.cursor_exhausted a

    handle_page-Agrees :
        (page : List ChainEntry) (next : Option Text) (s : WalkState)
        → Agrees s
        → RoundAgrees (handle_page sha256 fetch aborted true page next s)
    unfolding handle_page
    handle_page-Agrees [] next s a = same_facts s s.cursor (is_none next || s.cursor_exhausted) a
    handle_page-Agrees (first ∷ rest) next s a =
        elim (Bool-cases (has_stalled s.previous_oldest first)) [
          | inl e ↦ rw e a
          | inr e ↦ rw e (
              after_page-Agrees (take_page sha256 true first rest s) next
                (take_page-Agrees first rest s a))
        ]

    round-Agrees : (s : WalkState) → Agrees s → RoundAgrees (round sha256 fetch aborted true s)
    unfolding round
    round-Agrees s a = elim (Bool-cases (aborted s.pages_fetched)) [
      | inl e ↦ rw e a
      | inr e ↦ elim (Bool-cases (leb audit_max_pages s.pages_fetched)) [
        | inl f ↦ rw (e, f) a
        | inr f ↦
            rw (e, f)
              (let r = fetch s.pages_fetched s.cursor in
                handle_page-Agrees r.entries r.next_cursor s a)
      ]
    ]

    abbrev pub EndsWell : Option (WalkState × StopReason) → Type 0
    EndsWell none = Unit {0}
    EndsWell (some (s, reason)) = Agrees s

    pub loop-Agrees :
        (f : ℕ) (s : WalkState) → Agrees s → EndsWell (loop sha256 fetch aborted f true s)
    unfolding loop
    loop-Agrees zero s a = tt
    loop-Agrees (suc f) s a =
        go (round sha256 fetch aborted true s) (round-Agrees s a) (loop-Agrees f)
      where
        go :
            (r : Round)
            → RoundAgrees r
            → ((t : WalkState) → Agrees t → EndsWell (loop sha256 fetch aborted f true t))
            → EndsWell (elim r [
              | ends s' reason ↦ some (s', reason)
              | goes_on s' ↦ loop sha256 fetch aborted f true s'
            ])
        go (ends t reason) h ih = h
        go (goes_on t) h ih = ih t h
