-- ===== src/Governance/Policy/Winner.antt =====
-- evaluatePolicy stated without its sort: which entry authorises an action.
use commitment_workbench.Prelude.{
  ◌≡◌, refl, subst, ◌≢◌, ◌⊎◌, inl, inr, ◌↔◌, true, false, none, some, List, arith, Text,
  text_eq_iff, Bool-cases, filter, any,
}
use commitment_workbench.Prelude.Member.{
  Member, All-Member, any-true-Member, any_of_Member, Member-filter, filter-Member,
}
use commitment_workbench.Governance.Policy.{
  PolicyEntry, PolicyAction, allow, deny, allows, denies, of_entry, malformed, is_malformed,
  outranks, wildcard, entry_match, before, decide_by, evaluate_policy,
}
use commitment_workbench.Governance.Policy.Order.{head?-sort}

module _ {P : Type 0} (lower : Text → Text) (action : PolicyAction P) where
  abbrev pub Matches : PolicyEntry → Type 0
  Matches e = entry_match lower e action ≡ true

  -- No matching entry has a malformed priority.
  abbrev pub IsSound : List PolicyEntry → Type 0
  IsSound xs = (d : PolicyEntry) → Member d xs → Matches d → is_malformed d ≡ false

  -- `e` is listed, matches, allows, and lies strictly above every matching deny.
  pub record Authorises (xs : List PolicyEntry) (e : PolicyEntry) : Type 0 where
    pub listed : Member e xs
    pub matches : Matches e
    pub permits : e.decision ≡ allows
    pub above_denies :
        (d : PolicyEntry)
        → Member d xs
        → Matches d
        → d.decision ≡ denies
        → outranks e.priority d.priority ≡ true

  matched : List PolicyEntry → List PolicyEntry
  matched xs = filter (λ e. entry_match lower e action) xs

  matched-IsSound : (xs : List PolicyEntry) → IsSound xs → any is_malformed (matched xs) ≡ false
  unfolding matched
  matched-IsSound xs h = elim (Bool-cases (any is_malformed (matched xs))) [
    | inl e ↦
        let (d, r, q) = any-true-Member is_malformed (matched xs) e in
        let (m, t) = filter-Member _ d xs r in cc (h d m t)
    | inr e ↦ e
  ]

  IsSound-of_matched : (xs : List PolicyEntry) → any is_malformed (matched xs) ≡ false → IsSound xs
  unfolding matched
  IsSound-of_matched xs h d m t = elim (Bool-cases (is_malformed d)) [
    | inl e ↦ cc (any_of_Member is_malformed d (matched xs) (Member-filter _ d xs m t) e)
    | inr e ↦ e
  ]

  -- A first entry that allows lies strictly above each deny, since a tie goes to the deny.
  first_above :
      (m d : PolicyEntry)
      → is_malformed m ≡ false
      → is_malformed d ≡ false
      → before d m ≡ false
      → m.decision ≡ allows
      → d.decision ≡ denies
      → outranks m.priority d.priority ≡ true
  unfolding before
  first_above m d fm fd h a b = ground arith

  -- Against an entry that outranks every deny, a first entry cannot be a deny.
  first_permits :
      (m e : PolicyEntry)
      → is_malformed m ≡ false
      → before e m ≡ false
      → (m.decision ≡ denies → outranks e.priority m.priority ≡ true)
      → m.decision ≡ allows
  unfolding before
  first_permits m e fm h k = ground arith

  -- The three ways in which an evaluation ends, each with what holds of the entries.
  abbrev Ends : List PolicyEntry → Type 0
  Ends xs =
      ((any is_malformed (matched xs) ≡ true)
        × (evaluate_policy lower xs action
            ≡ record { decision = deny; source = malformed; entry_id = none }))
      ⊎ (IsSound xs
          × ((e : PolicyEntry) → Member e xs → ¬ Matches e)
          × (evaluate_policy lower xs action ≡ decide_by none))
      ⊎ ((m : PolicyEntry) × IsSound xs
          × Member m xs
          × Matches m
          × ((d : PolicyEntry) → Member d xs → Matches d → before d m ≡ false)
          × (evaluate_policy lower xs action ≡ decide_by (some m)))

  evaluate_policy-Ends : (xs : List PolicyEntry) → Ends xs
  unfolding matched evaluate_policy
  evaluate_policy-Ends xs = elim (Bool-cases (any is_malformed (matched xs))) [
    | inl e ↦ inl (e, rw e refl)
    | inr e ↦ inr (elim (head?-sort (matched xs) e) [
      | inl (none_left, h) ↦ inl (
        IsSound-of_matched xs e,
        (λ d m t. elim (subst (Member d) none_left (Member-filter _ d xs m t)) [ ]),
        rw (e, h) refl,
      )
      | inr (m, h, v) ↦
          let (listed, t) = filter-Member _ m xs v.0 in
          inr (
            m,
            IsSound-of_matched xs e,
            listed,
            t,
            (λ d r q.
                All-Member (λ x. before x m ≡ false) d (matched xs) v.1 (Member-filter _ d xs r q)),
            rw (e, h) refl,
          )
    ])
  ]

  Authorises-of_first :
      (xs : List PolicyEntry) (m : PolicyEntry)
      → IsSound xs
      → Member m xs
      → Matches m
      → ((d : PolicyEntry) → Member d xs → Matches d → before d m ≡ false)
      → m.decision ≡ allows
      → Authorises xs m
  Authorises-of_first xs m sound listed t first permits = record {
    listed = listed;
    matches = t;
    permits = permits;
    above_denies = λ d r q denies_d.
        first_above m d (sound m listed t) (sound d r q) (first d r q) permits denies_d;
  }

  -- The evaluator allows an action exactly when no matching entry has a malformed priority and some
  -- listed entry matches, allows, and has a strictly higher priority than every matching deny entry.
  pub evaluate_policy-allow_iff :
      (xs : List PolicyEntry)
      → ((evaluate_policy lower xs action).decision ≡ allow)
        ↔ (IsSound xs × ((e : PolicyEntry) × Authorises xs e))
  unfolding decide_by
  evaluate_policy-allow_iff xs = elim (evaluate_policy-Ends xs) [
    | inl (bad, h) ↦ ((λ a. cc h), λ (sound, (e, v)). cc (matched-IsSound xs sound, bad))
    | inr (inl (sound, nothing, h)) ↦
        ((λ a. cc h), λ (s, (e, v)). absurd (nothing e v.listed v.matches))
    | inr (inr (m, sound, listed, t, first, h)) ↦ (
      (λ a. (sound, (m, Authorises-of_first xs m sound listed t first (ground (arith, h))))),
      λ (s, (e, v)).
          let permits : m.decision ≡ allows =
            first_permits m e (sound m listed t) (first e v.listed v.matches)
              (v.above_denies m listed t) in
          rw (h, permits) refl,
    )
  ]

  -- An evaluation ends in `allow` or in `deny`: it never asks for a confirmation.
  evaluate_policy_decided :
      (xs : List PolicyEntry)
      → let d = (evaluate_policy lower xs action).decision in (d ≡ allow) ⊎ (d ≡ deny)
  unfolding decide_by
  evaluate_policy_decided xs = elim (evaluate_policy-Ends xs) [
    | inl (bad, h) ↦ inr (rw h refl)
    | inr (inl (sound, nothing, h)) ↦ inr (rw h refl)
    | inr (inr (m, sound, listed, t, first, h)) ↦ rw h (ground arith)
  ]

  -- `e` names the action's own service, verb and noun (the noun up to case), and no wildcard.
  pub record IsExact (e : PolicyEntry) : Type 0 where
    pub service_eq : e.service ≡ action.service
    pub verb_eq : e.verb ≡ action.verb
    pub noun_eq : lower e.noun ≡ lower action.noun
    pub no_wildcard : (e.service ≢ wildcard) × (e.verb ≢ wildcard) × (e.noun ≢ wildcard)

  Matches-IsExact : (e : PolicyEntry) → e.decision ≡ allows → Matches e → IsExact e
  unfolding entry_match
  Matches-IsExact e h t = ground (
    arith,
    text_eq_iff e.service wildcard,
    text_eq_iff e.verb wildcard,
    text_eq_iff e.noun wildcard,
    text_eq_iff e.service action.service,
    text_eq_iff e.verb action.verb,
    text_eq_iff (lower e.noun) (lower action.noun),
  )

  -- When the evaluator allows an action, the entry that it names in its result is listed, authorises
  -- the action, and names the action's service, verb and noun with no wildcard in any position.
  pub evaluate_policy-allow-IsExact :
      (xs : List PolicyEntry)
      → (evaluate_policy lower xs action).decision ≡ allow
      → (e : PolicyEntry) × Authorises xs e
        × IsExact e
        × (evaluate_policy lower xs action
            ≡ record { decision = allow; source = of_entry e.source; entry_id = some e.id })
  unfolding decide_by
  evaluate_policy-allow-IsExact xs a = elim (evaluate_policy-Ends xs) [
    | inl (bad, h) ↦ cc h
    | inr (inl (sound, nothing, h)) ↦ cc h
    | inr (inr (m, sound, listed, t, first, h)) ↦
        let permits : m.decision ≡ allows = ground (arith, h) in
        (
          m,
          Authorises-of_first xs m sound listed t first permits,
          Matches-IsExact m permits t,
          rw (h, permits) refl,
        )
  ]

  -- The evaluator reports `malformed`, and then denies, exactly when a matching entry has a malformed
  -- priority.
  pub evaluate_policy-malformed_iff :
      (xs : List PolicyEntry)
      → (evaluate_policy lower xs action
          ≡ record { decision = deny; source = malformed; entry_id = none })
        ↔ ((d : PolicyEntry) × Member d xs × Matches d × (is_malformed d ≡ true))
  unfolding decide_by matched
  evaluate_policy-malformed_iff xs = elim (evaluate_policy-Ends xs) [
    | inl (bad, h) ↦ (
      (λ _.
          let (d, r, q) = any-true-Member is_malformed (matched xs) bad in
          let (m, t) = filter-Member (λ e. entry_match lower e action) d xs r in (d, m, t, q)),
      λ _. h,
    )
    | inr (inl (sound, nothing, h)) ↦ ((λ e. cc h), λ (d, r, t, q). absurd (nothing d r t))
    | inr (inr (m, sound, listed, t, first, h)) ↦ ((λ e. cc h), λ (d, r, u, q). cc (sound d r u))
  ]

  abbrev pub SameMembers : List PolicyEntry → List PolicyEntry → Type 0
  SameMembers xs ys = (e : PolicyEntry) → Member e xs ↔ Member e ys

  allow_of_members :
      (xs ys : List PolicyEntry)
      → SameMembers xs ys
      → (evaluate_policy lower xs action).decision ≡ allow
      → (evaluate_policy lower ys action).decision ≡ allow
  allow_of_members xs ys same h =
      let (sound, (e, v)) = (evaluate_policy-allow_iff xs).0 h in
      (evaluate_policy-allow_iff ys).1 (
        (λ d r t. sound d ((same d).1 r) t),
        (
          e,
          record {
            listed = (same e).0 v.listed;
            matches = v.matches;
            permits = v.permits;
            above_denies = λ d r t k. v.above_denies d ((same d).1 r) t k;
          },
        ),
      )

  -- Two lists with the same entries, in any order and with any repetitions, get the same decision.
  pub evaluate_policy_order_free :
      (xs ys : List PolicyEntry)
      → SameMembers xs ys
      → (evaluate_policy lower xs action).decision ≡ (evaluate_policy lower ys action).decision
  evaluate_policy_order_free xs ys same = ground (
    arith,
    evaluate_policy_decided xs,
    evaluate_policy_decided ys,
    allow_of_members xs ys same,
    allow_of_members ys xs (λ e. ((same e).1, (same e).0)),
  )
