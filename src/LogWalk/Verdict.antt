-- ===== src/LogWalk/Verdict.antt =====
-- The walk ends, and what its exit code 0 says of the log.
use commitment_workbench.Prelude.{
  ℕ, zero, suc, ◌+◌, ◌≤◌, ◌<◌, ◌≡◌, refl, sym, subst, ◌∙◌, inl, inr, Bool, true, false, Option,
  none, some, List, [], ◌∷◌, arith, Text, Bool-cases, leb,
}
use commitment_workbench.Audit.Chain.{ChainEntry, verify_chain_range}
use commitment_workbench.Audit.Closure.{check_decision_closure}
use commitment_workbench.LogWalk.{
  AuditListResponse, WalkState, StopReason, Round, ends, goes_on, initial, take_page, handle_page,
  after_page, round, loop, walk_audit_chain, audit_max_pages, has_stalled,
}
use commitment_workbench.LogWalk.Summary.{summarize_walk, exit_code-zero, is_head_unchecked, last?}
use commitment_workbench.LogWalk.Rounds.{
  Agrees, rows, initial-Agrees, loop-Agrees, EndsWell, collect,
}

module _ (sha256 : Text → Text) (fetch : ℕ → Option Text → AuditListResponse)
    (aborted : ℕ → Bool) where
  -- A round that goes on was below the ceiling and has fetched one page more.
  abbrev Advances : WalkState → Round → Type 0
  Advances s (ends t reason) = Unit {0}
  Advances s (goes_on t) = t.pages_fetched ≡ s.pages_fetched + 1

  take_page-pages_fetched :
      (verify : Bool) (first : ChainEntry) (rest : List ChainEntry) (s : WalkState)
      → (take_page sha256 verify first rest s).pages_fetched ≡ s.pages_fetched + 1
  unfolding take_page
  take_page-pages_fetched true first rest s = refl
  take_page-pages_fetched false first rest s = refl

  after_page-Advances :
      (s t : WalkState) (next : Option Text)
      → t.pages_fetched ≡ s.pages_fetched + 1
      → Advances s (after_page t next)
  after_page-Advances s t none h = tt
  after_page-Advances s t (some c) h = h

  handle_page-Advances :
      (verify : Bool) (page : List ChainEntry) (next : Option Text) (s : WalkState)
      → Advances s (handle_page sha256 fetch aborted verify page next s)
  unfolding handle_page
  handle_page-Advances verify [] next s = tt
  handle_page-Advances verify (first ∷ rest) next s =
      elim (Bool-cases (has_stalled s.previous_oldest first)) [
        | inl e ↦ rw e tt
        | inr e ↦ rw e (
            after_page-Advances s (take_page sha256 verify first rest s) next
              (take_page-pages_fetched verify first rest s))
      ]

  abbrev Bounded : WalkState → Round → Type 0
  Bounded s (ends t reason) = Unit {0}
  Bounded s (goes_on t) =
      (t.pages_fetched ≡ s.pages_fetched + 1) × (s.pages_fetched < audit_max_pages)

  Bounded-of :
      (s : WalkState) (r : Round) → Advances s r → s.pages_fetched < audit_max_pages → Bounded s r
  Bounded-of s (ends t reason) h k = tt
  Bounded-of s (goes_on t) h k = (h, k)

  round-Bounded : (verify : Bool) (s : WalkState) → Bounded s (round sha256 fetch aborted verify s)
  unfolding round
  round-Bounded verify s = elim (Bool-cases (aborted s.pages_fetched)) [
    | inl e ↦ rw e tt
    | inr e ↦ elim (Bool-cases (leb audit_max_pages s.pages_fetched)) [
      | inl f ↦ rw (e, f) tt
      | inr f ↦
          rw (e, f)
            (let r = fetch s.pages_fetched s.cursor in
              Bounded-of s _ (handle_page-Advances verify r.entries r.next_cursor s) (ground arith))
    ]
  ]

  abbrev Ends : Option (WalkState × StopReason) → Type 0
  Ends o = (t : WalkState) × (reason : StopReason) × (o ≡ some (t, reason))

  loop-Ends :
      (f : ℕ) (verify : Bool) (s : WalkState)
      → audit_max_pages < f + s.pages_fetched
      → s.pages_fetched ≤ audit_max_pages
      → Ends (loop sha256 fetch aborted f verify s)
  unfolding loop
  loop-Ends zero verify s h k = absurd (omega arith)
  loop-Ends (suc f) verify s h k =
      go (round sha256 fetch aborted verify s) (round-Bounded verify s) (loop-Ends f verify)
    where
      go :
          (r : Round)
          → Bounded s r
          → ((t : WalkState)
              → audit_max_pages < f + t.pages_fetched
              → t.pages_fetched ≤ audit_max_pages
              → Ends (loop sha256 fetch aborted f verify t))
          → Ends (elim r [
            | ends s' reason ↦ some (s', reason)
            | goes_on s' ↦ loop sha256 fetch aborted f verify s'
          ])
      go (ends t reason) b ih = (t, reason, refl)
      go (goes_on t) b ih = ih t (omega arith) (omega arith)

  -- The walk ends, whatever the client answers and whenever it is cancelled: the page ceiling bounds it.
  pub walk_audit_chain_ends :
      (verify : Bool)
      → (s : WalkState) × (reason : StopReason) × (walk_audit_chain sha256 fetch aborted verify
          ≡ some (s, reason))
  unfolding walk_audit_chain
  walk_audit_chain_ends verify =
      loop-Ends (suc audit_max_pages) verify initial (omega arith) (omega arith)

  walk_audit_chain-Agrees :
      (s : WalkState) (reason : StopReason)
      → walk_audit_chain sha256 fetch aborted true ≡ some (s, reason)
      → Agrees sha256 s
  unfolding walk_audit_chain
  walk_audit_chain-Agrees s reason h =
      subst (EndsWell sha256 fetch aborted) h
        (loop-Agrees sha256 fetch aborted (suc audit_max_pages) initial (initial-Agrees sha256))

  -- The summary of a verifying walk lists exactly the conflicted decisions that the closure check finds
  -- in all the rows delivered, taken as one range under a closed edge.
  pub summarize_walk-conflicted :
      (s : WalkState) (reason : StopReason)
      → walk_audit_chain sha256 fetch aborted true ≡ some (s, reason)
      → (summarize_walk s.pages s.closures s.cursor_exhausted reason).conflicted
        ≡ (check_decision_closure (rows s.delivered) [] true).conflicted
  unfolding summarize_walk collect
  summarize_walk-conflicted s reason h = sym (walk_audit_chain-Agrees s reason h).conflicts

  -- When a verifying walk's exit code is 0, the rows that it delivered, taken as one range, have no
  -- break and no conflicted decision, the walk saw the oldest row kept, and the head is not unchecked.
  pub exit_code_zero_sound :
      (s : WalkState) (reason : StopReason)
      → walk_audit_chain sha256 fetch aborted true ≡ some (s, reason)
      → (summarize_walk s.pages s.closures s.cursor_exhausted reason).exit_code ≡ 0
      → ((verify_chain_range sha256 (rows s.delivered) none).breaks ≡ [])
        × ((check_decision_closure (rows s.delivered) [] true).conflicted ≡ [])
        × (s.cursor_exhausted ≡ true)
        × (is_head_unchecked (last? s.pages) ≡ false)
  unfolding summarize_walk collect
  exit_code_zero_sound s reason h z =
      let a = walk_audit_chain-Agrees s reason h in
      let (b, c, e, u) = exit_code-zero _ _ reason s.cursor_exhausted _ z in
      (a.no_breaks b, a.conflicts ∙ c, e, u)
