-- ===== src/Handoff/Accepts.antt =====
-- validateCommitmentLedger: which ledgers it accepts.
use commitment_workbench.Prelude.{
  ℕ, suc, ◌≡◌, refl, ap, subst, sym, ◌∙◌, ◌↔◌, Bool, true, false, not, ◌&&◌, some, List, [], ◌∷◌,
  ◌++◌, arith, All, Text, codes, text_eq, text_eq→eq, text_eq_refl, ltb, length, take,
  if◌then◌else◌,
}
use commitment_workbench.Contracts.{
  Message, Snapshot, Citation, Item, Ledger, max_ledger_items, max_issues, is_ledger,
}
use commitment_workbench.Handoff.{
  Host, valid, failure, slice, indexed, issue, cited_issues, citation_issues, item_issues,
  ledger_issues, validate_commitment_snapshot, validate_commitment_ledger, validate_against,
  result_of_issues,
}
use commitment_workbench.Handoff.Evidence.{
  IsCited, IsExact, IsExactItem, no_issues, unless-none, items_lem, accepted,
}
use commitment_workbench.Handoff.Coverage.{IsCovered, coverage_iff}

same_text : (s t : Text) → s ≡ t → text_eq s t ≡ true
same_text s t e = subst (λ u. text_eq s u ≡ true) e (text_eq_refl s)

cited_none :
    (path : Text) (ms : List Message) (e : Citation) (m : Message)
    → IsCited ms e m
    → cited_issues path e (some m) ≡ []
unfolding cited_issues
cited_none path ms e m c =
    let inside : ltb (length m.body) e.end ≡ false = ground (arith, c.within) in
    rw
      (
        same_text m.body_hash e.body_hash c.hash_eq,
        inside,
        c.start_whole,
        c.end_whole,
        same_text (slice e.start e.end m.body) e.quote c.exact,
      )
      refl

citations_none :
    (ms : List Message) (prefix : Text) (j : ℕ) (es : List Citation)
    → All (IsExact ms) es
    → citation_issues ms prefix j es ≡ []
unfolding citation_issues
citations_none ms prefix j [] h = refl
citations_none ms prefix j (e ∷ es) ((m, c), h) =
    rw (c.found, cited_none (indexed prefix j) ms e m c) (citations_none ms prefix (suc j) es h)

items_none :
    (ms : List Message) (i : ℕ) (xs : List Item)
    → All (IsExactItem ms) xs
    → item_issues ms i xs ≡ []
unfolding item_issues
items_none ms i [] h = refl
items_none ms i (x ∷ xs) h =
    rw
      (
        citations_none ms (indexed (codes "items") i ++ codes ".evidence") 0 x.evidence h.0.0,
        citations_none ms (indexed (codes "items") i ++ codes ".priorEvidence") 0 x.prior_evidence
            h.0.1,
      )
      (items_none ms (suc i) xs h.1)

-- What an accepted ledger is.
pub record IsAccepted (host : Host) (s : Snapshot) (l : Ledger) : Type 0 where
  pub schema_passes : is_ledger host.is_timestamp host.is_after l ≡ true
  pub same_id : l.snapshot_id ≡ s.snapshot_id
  pub same_hash : l.snapshot_hash ≡ s.snapshot_hash
  pub exact : All (IsExactItem s.messages) l.items
  pub covered : IsCovered s l

module _ (host : Host) (s : Snapshot) (l : Ledger) where
  ledger_issues_iff :
      is_ledger host.is_timestamp host.is_after l ≡ true
      → (ledger_issues s l ≡ []) ↔ IsAccepted host s l
  unfolding ledger_issues
  ledger_issues_iff schema = (
    (λ h.
        let (bound, rest) = no_issues _ _ h in
        let (items, coverage) = no_issues _ _ rest in
        let same : (text_eq l.snapshot_id s.snapshot_id && text_eq l.snapshot_hash s.snapshot_hash)
            ≡ true =
          unless-none _ _ bound in
        record {
          schema_passes = schema;
          same_id = text_eq→eq l.snapshot_id s.snapshot_id (ground (arith, same));
          same_hash = text_eq→eq l.snapshot_hash s.snapshot_hash (ground (arith, same));
          exact = items_lem s.messages 0 l.items items;
          covered = (coverage_iff s l).0 coverage;
        }),
    λ k.
        rw
          (
            same_text l.snapshot_id s.snapshot_id k.same_id,
            same_text l.snapshot_hash s.snapshot_hash k.same_hash,
            items_none s.messages 0 l.items k.exact,
            (coverage_iff s l).1 k.covered,
          )
          refl,
  )

  is_ledger-few :
      is_ledger host.is_timestamp host.is_after l ≡ true
      → ltb max_ledger_items (length l.items) ≡ false
  unfolding is_ledger
  is_ledger-few h = ground (arith, h)

  -- Against a snapshot that is valid, a ledger is accepted exactly when it passes its schema, it has the
  -- snapshot's id and hash, each citation quotes the exact text of a message of the snapshot at a span
  -- that splits no pair and names the hash of its body, and the coverage is told as it is: the ledger
  -- names each truncated message as often as the snapshot has it, in any order, gives the snapshot's
  -- number of omitted messages, and names a limitation unless nothing is truncated and it is known that
  -- nothing is omitted.
  pub validate_commitment_ledger-accepts_iff :
      validate_commitment_snapshot host s ≡ valid s
      → (validate_commitment_ledger host s l ≡ valid l) ↔ IsAccepted host s l
  unfolding validate_commitment_ledger
  validate_commitment_ledger-accepts_iff v = (
    (λ h.
        go (is_ledger host.is_timestamp host.is_after l) refl
          (sym (ap (validate_against host l) v) ∙ h)),
    λ k.
        ap (validate_against host l) v
        ∙ rw
            (
              is_ledger-few k.schema_passes,
              k.schema_passes,
              (ledger_issues_iff k.schema_passes).1 k,
            )
            refl,
  )
    where
      go :
          (b : Bool)
          → is_ledger host.is_timestamp host.is_after l ≡ b
          → (if ltb max_ledger_items (length l.items)
              then failure
                  (issue (codes "bounds") (codes "items") (codes "Ledger item bound exceeded") ∷ [])
              else if not b
              then failure (take max_issues (host.ledger_report l))
              else result_of_issues l (ledger_issues s l))
            ≡ valid l
          → IsAccepted host s l
      go true e h = (ledger_issues_iff e).0 (
          accepted (ltb max_ledger_items (length l.items)) true l l
            (issue (codes "bounds") (codes "items") (codes "Ledger item bound exceeded") ∷ [])
            (take max_issues (host.ledger_report l)) (ledger_issues s l) h)
      go false e h = absurd (refused (ltb max_ledger_items (length l.items)) h)
        where
          refused :
              (c : Bool)
              → ¬ (
                  (if c
                    then failure (
                        issue (codes "bounds") (codes "items") (codes "Ledger item bound exceeded")
                        ∷ [])
                    else failure (take max_issues (host.ledger_report l)))
                  ≡ valid l)
          refused true = λ q. cc q
          refused false = λ q. cc q
