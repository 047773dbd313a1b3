-- ===== src/Handoff/Coverage.antt =====
-- What validateCommitmentLedger asks of the coverage that a ledger reports.
use commitment_workbench.Prelude.{
  ℕ, ◌≡◌, refl, ap, ◌≢◌, ◌⊎◌, ◌↔◌, inl, inr, Bool, true, false, not, ◌&&◌, ◌||◌, Option, none, some,
  List, [], ◌∷◌, arith, Text,
}
use commitment_workbench.Contracts.{Snapshot, Ledger}
use commitment_workbench.Handoff.{
  coverage_issues, is_empty_list, omitted_eq, truncated_ids, equal_string_sets,
}
use commitment_workbench.Handoff.Evidence.{no_issues, unless-none}
use commitment_workbench.Handoff.Sets.{occurrences, equal_string_sets_iff}

omitted_eq_refl : (o : Option ℕ) → omitted_eq o o ≡ true
omitted_eq_refl none = refl
omitted_eq_refl (some n) = ground arith

omitted_eq→eq : (o p : Option ℕ) → omitted_eq o p ≡ true → o ≡ p
omitted_eq→eq none none h = refl
omitted_eq→eq none (some n) h = cc
omitted_eq→eq (some m) none h = cc
omitted_eq→eq (some m) (some n) h = let same : m ≡ n = ground (arith, h) in ap some same

-- The ledger names the messages that the snapshot has truncated, each as often and in any order, gives
-- the snapshot's number of omitted messages, and names a limitation unless the snapshot is complete: no
-- message is truncated, and it is known that none is omitted.
pub record IsCovered (s : Snapshot) (l : Ledger) : Type 0 where
  pub truncated_named :
      (t : Text) → occurrences t l.truncated_message_ids ≡ occurrences t (truncated_ids s)
  pub omitted_named : l.omitted_messages ≡ s.omitted_messages
  pub limited : ((truncated_ids s ≡ []) × (s.omitted_messages ≡ some 0)) ⊎ (l.limitations ≢ [])

limits_lem :
    (truncated limitations : List Text) (omitted : Option ℕ)
    → not (
        (not (is_empty_list truncated) || not (omitted_eq omitted (some 0)))
        && is_empty_list limitations)
      ≡ true
    → ((truncated ≡ []) × (omitted ≡ some 0)) ⊎ (limitations ≢ [])
limits_lem truncated (x ∷ xs) omitted h = inr (λ e. cc)
limits_lem [] [] omitted h = inl (refl, omitted_eq→eq omitted (some 0) (ground (arith, h)))
limits_lem (t ∷ ts) [] omitted h = cc

limits_back :
    (truncated limitations : List Text) (omitted : Option ℕ)
    → ((truncated ≡ []) × (omitted ≡ some 0)) ⊎ (limitations ≢ [])
    → not (
        (not (is_empty_list truncated) || not (omitted_eq omitted (some 0)))
        && is_empty_list limitations)
      ≡ true
limits_back truncated [] omitted (inl (e, f)) = rw (e, f) refl
limits_back truncated (x ∷ xs) omitted (inl (e, f)) = rw (e, f) refl
limits_back truncated [] omitted (inr n) = absurd (n refl)
limits_back truncated (x ∷ xs) omitted (inr n) =
    go (not (is_empty_list truncated) || not (omitted_eq omitted (some 0)))
  where
    go : (b : Bool) → not (b && false) ≡ true
    go true = refl
    go false = refl

pub coverage_iff : (s : Snapshot) (l : Ledger) → (coverage_issues s l ≡ []) ↔ IsCovered s l
unfolding coverage_issues
coverage_iff s l = (
  (λ h.
      let (now, rest) = no_issues _ _ h in
      let sets : (equal_string_sets l.truncated_message_ids (truncated_ids s)
            && omitted_eq l.omitted_messages s.omitted_messages)
          ≡ true =
        unless-none _ _ now in
      record {
        truncated_named =
            (equal_string_sets_iff l.truncated_message_ids (truncated_ids s)).0
              (ground (arith, sets));
        omitted_named = omitted_eq→eq l.omitted_messages s.omitted_messages (ground (arith, sets));
        limited =
            limits_lem (truncated_ids s) l.limitations s.omitted_messages (unless-none _ _ rest);
      }),
  λ k.
      rw
        (
          (equal_string_sets_iff l.truncated_message_ids (truncated_ids s)).1 k.truncated_named,
          k.omitted_named,
          omitted_eq_refl s.omitted_messages,
          limits_back (truncated_ids s) l.limitations s.omitted_messages k.limited,
        )
        refl,
)
