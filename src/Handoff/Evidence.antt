-- ===== src/Handoff/Evidence.antt =====
-- validateCommitmentLedger: what an accepted ledger cites.
use commitment_workbench.Prelude.{
  ℕ, suc, ◌≤◌, ◌≡◌, refl, subst, ◌∙◌, Bool, true, false, not, take, ◌&&◌, Option, none, some, List,
  [], ◌∷◌, ◌++◌, arith, All, Text, codes, text_eq, text_eq→eq, ltb, length, if◌then◌else◌,
}
use commitment_workbench.Contracts.{
  is_snapshot, is_ledger, max_issues, Message, Snapshot, Citation, Item, Ledger, max_ledger_items,
  max_messages,
}
use commitment_workbench.Handoff.{
  Issue, valid, failure, unless, result_of_issues, get_message, slice, is_surrogate_boundary,
  indexed, issue, cited_issues, citation_issues, item_issues, ledger_issues, snapshot_issues,
  body_issues, validate_commitment_snapshot, validate_commitment_ledger, validate_against, Host,
}

-- The citation is the exact text of a message, at a span that splits no pair, under the body's hash.
pub record IsCited (ms : List Message) (e : Citation) (m : Message) : Type 0 where
  pub found : get_message e.message_id ms ≡ some m
  pub hash_eq : m.body_hash ≡ e.body_hash
  pub within : e.end ≤ length m.body
  pub start_whole : is_surrogate_boundary m.body e.start ≡ true
  pub end_whole : is_surrogate_boundary m.body e.end ≡ true
  pub exact : slice e.start e.end m.body ≡ e.quote

abbrev pub IsExact : List Message → Citation → Type 0
IsExact ms e = (m : Message) × IsCited ms e m

abbrev pub IsExactItem : List Message → Item → Type 0
IsExactItem ms x = All (IsExact ms) x.evidence × All (IsExact ms) x.prior_evidence

pub no_issues : (a b : List Issue) → a ++ b ≡ [] → (a ≡ []) × (b ≡ [])
no_issues [] b h = (refl, h)
no_issues (i ∷ a) b h = cc h

pub unless-none : (b : Bool) (i : Issue) → unless b i ≡ [] → b ≡ true
unless-none true i h = refl
unless-none false i h = cc h

span_lem :
    (bad exact : Bool) (i k : Issue)
    → (if bad then i ∷ [] else unless exact k) ≡ []
    → (bad ≡ false) × (exact ≡ true)
span_lem true exact i k h = cc h
span_lem false exact i k h = (refl, unless-none exact k h)

cited_lem :
    (path : Text) (ms : List Message) (e : Citation) (o : Option Message)
    → get_message e.message_id ms ≡ o
    → cited_issues path e o ≡ []
    → IsExact ms e
unfolding cited_issues
cited_lem path ms e none g h = cc h
cited_lem path ms e (some m) g h =
    let (a, b) = no_issues _ _ h in
    let (fits, exact) = span_lem _ _ _ _ b in
    (
      m,
      record {
        found = g;
        hash_eq = text_eq→eq m.body_hash e.body_hash (unless-none _ _ a);
        within = ground (arith, fits);
        start_whole = ground (arith, fits);
        end_whole = ground (arith, fits);
        exact = text_eq→eq (slice e.start e.end m.body) e.quote exact;
      },
    )

citations_lem :
    (ms : List Message) (prefix : Text) (j : ℕ) (es : List Citation)
    → citation_issues ms prefix j es ≡ []
    → All (IsExact ms) es
unfolding citation_issues
citations_lem ms prefix j [] h = tt
citations_lem ms prefix j (e ∷ es) h =
    let (now, rest) =
      no_issues (cited_issues (indexed prefix j) e (get_message e.message_id ms))
        (citation_issues ms prefix (suc j) es) h in
    (
      cited_lem (indexed prefix j) ms e (get_message e.message_id ms) refl now,
      citations_lem ms prefix (suc j) es rest,
    )

pub items_lem :
    (ms : List Message) (i : ℕ) (xs : List Item)
    → item_issues ms i xs ≡ []
    → All (IsExactItem ms) xs
unfolding item_issues
items_lem ms i [] h = tt
items_lem ms i (x ∷ xs) h =
    let (a, rest) = no_issues _ _ h in
    let (b, more) = no_issues _ _ rest in
    (
      (
        citations_lem ms (indexed (codes "items") i ++ codes ".evidence") 0 x.evidence a,
        citations_lem ms (indexed (codes "items") i ++ codes ".priorEvidence") 0 x.prior_evidence b,
      ),
      items_lem ms (suc i) xs more,
    )

module _ (host : Host) where
  -- Every body has the hash that stands beside it.
  hashed_bodies :
      (i : ℕ) (ms : List Message)
      → body_issues host i ms ≡ []
      → All (λ m. host.sha256 m.body ≡ m.body_hash) ms
  unfolding body_issues
  hashed_bodies i [] h = tt
  hashed_bodies i (m ∷ ms) h =
      let (now, rest) = no_issues _ _ h in
      (
        text_eq→eq (host.sha256 m.body) m.body_hash (unless-none _ _ now),
        hashed_bodies (suc i) ms rest,
      )

result_of_issues-valid :
    {A : Type 0} (a b : A) (is : List Issue) → result_of_issues a is ≡ valid b → (is ≡ []) × (a ≡ b)
result_of_issues-valid a b [] h = (refl, cc h)
result_of_issues-valid a b (i ∷ is) h = cc h

pick : (b : Bool) (k m : Message) → (if b then some k else none) ≡ some m → k ≡ m
pick true k m h = cc h
pick false k m h = cc h

pub accepted :
    {A : Type 0} (b c : Bool) (a k : A) (early late is : List Issue)
    → (if b then failure early else if not c then failure late else result_of_issues a is) ≡ valid k
    → is ≡ []
accepted true c a k early late is h = cc h
accepted false false a k early late is h = cc h
accepted false true a k early late is h = (result_of_issues-valid a k is h).0

-- A message that is found has whatever all have.
found_lem :
    (P : Message → Type 0) (id : Text) (ms : List Message) (m : Message)
    → All P ms
    → get_message id ms ≡ some m
    → P m
unfolding get_message
found_lem P id [] m a h = cc h
found_lem P id (k ∷ ms) m a h = go (get_message id ms) (found_lem P id ms m a.1) h
  where
    go :
        (o : Option Message)
        → (o ≡ some m → P m)
        → elim o as (λ _. Option Message) [
          | some n ↦ some n
          | none ↦ if text_eq k.id id then some k else none
        ]
          ≡ some m
        → P m
    go (some n) ih q = ih q
    go none ih q = subst P (pick (text_eq k.id id) k m q) a.0

module _ (sha256 : Text → Text) where
  -- A citation of exact text, whose message has a body of the hash that the citation names.
  abbrev pub IsAnchored : List Message → Citation → Type 0
  IsAnchored ms e = (m : Message) × IsCited ms e m × (sha256 m.body ≡ e.body_hash)

  abbrev pub IsAnchoredItem : List Message → Item → Type 0
  IsAnchoredItem ms x = All (IsAnchored ms) x.evidence × All (IsAnchored ms) x.prior_evidence

  anchored :
      (ms : List Message) (es : List Citation)
      → All (λ m. sha256 m.body ≡ m.body_hash) ms
      → All (IsExact ms) es
      → All (IsAnchored ms) es
  anchored ms [] h a = tt
  anchored ms (e ∷ es) h ((m, c), a) = (
    (m, c, found_lem (λ k. sha256 k.body ≡ k.body_hash) e.message_id ms m h c.found ∙ c.hash_eq),
    anchored ms es h a,
  )

  anchored_items :
      (ms : List Message) (xs : List Item)
      → All (λ m. sha256 m.body ≡ m.body_hash) ms
      → All (IsExactItem ms) xs
      → All (IsAnchoredItem ms) xs
  anchored_items ms [] h a = tt
  anchored_items ms (x ∷ xs) h a = (
    (anchored ms x.evidence h a.0.0, anchored ms x.prior_evidence h a.0.1),
    anchored_items ms xs h a.1,
  )

module _ (host : Host) (s : Snapshot) (l k : Ledger) where
  ledger_lem :
      ledger_issues s l ≡ []
      → All (λ m. host.sha256 m.body ≡ m.body_hash) s.messages
      → (l.snapshot_id ≡ s.snapshot_id)
        × (l.snapshot_hash ≡ s.snapshot_hash)
        × All (IsAnchoredItem host.sha256 s.messages) l.items
  unfolding ledger_issues
  ledger_lem h bodies =
      let (bound, rest) = no_issues _ _ h in
      let (items, coverage) = no_issues _ _ rest in
      let same : (text_eq l.snapshot_id s.snapshot_id && text_eq l.snapshot_hash s.snapshot_hash)
          ≡ true =
        unless-none _ _ bound in
      (
        text_eq→eq l.snapshot_id s.snapshot_id (ground (arith, same)),
        text_eq→eq l.snapshot_hash s.snapshot_hash (ground (arith, same)),
        anchored_items host.sha256 s.messages l.items bodies (items_lem s.messages 0 l.items items),
      )

  snapshot_bodies :
      snapshot_issues host s ≡ [] → All (λ m. host.sha256 m.body ≡ m.body_hash) s.messages
  unfolding snapshot_issues
  snapshot_bodies h =
      let (_, rest) = no_issues _ _ h in
      let (bodies, _) = no_issues _ _ rest in hashed_bodies host 0 s.messages bodies

  -- A ledger that is accepted has the snapshot's id and hash, and each of its citations, the prior ones
  -- included, names a message of the snapshot whose body has the named hash, and quotes the exact text
  -- of that body at a span that lies in it and splits no surrogate pair.
  pub validate_commitment_ledger_sound :
      validate_commitment_ledger host s l ≡ valid k
      → (l.snapshot_id ≡ s.snapshot_id)
        × (l.snapshot_hash ≡ s.snapshot_hash)
        × All (IsAnchoredItem host.sha256 s.messages) l.items
  unfolding validate_commitment_ledger validate_commitment_snapshot
  validate_commitment_ledger_sound h =
      go (ltb max_messages (length s.messages)) (is_snapshot host.is_timestamp host.is_after s)
        (snapshot_issues host s) refl h
    where
      go :
          (b c : Bool) (is : List Issue)
          → snapshot_issues host s ≡ is
          → validate_against host l (
              if b
              then failure (
                  issue
                    (codes "bounds")
                    (codes "messages")
                    (codes "Snapshot message bound exceeded")
                  ∷ [])
              else if not c
              then failure (take max_issues (host.snapshot_report s))
              else result_of_issues s is)
            ≡ valid k
          → (l.snapshot_id ≡ s.snapshot_id)
            × (l.snapshot_hash ≡ s.snapshot_hash)
            × All (IsAnchoredItem host.sha256 s.messages) l.items
      go true c is e q = cc q
      go false false is e q = cc q
      go false true (i ∷ is) e q = cc q
      go false true [] e q =
          ledger_lem
            (accepted (ltb max_ledger_items (length l.items))
              (is_ledger host.is_timestamp host.is_after l) l k
              (issue (codes "bounds") (codes "items") (codes "Ledger item bound exceeded") ∷ [])
              (take max_issues (host.ledger_report l)) (ledger_issues s l) q)
            (snapshot_bodies e)
