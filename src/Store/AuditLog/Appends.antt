-- ===== src/Store/AuditLog/Appends.antt =====
-- insertRow of audit-log.ts as an operation on whole logs.
use commitment_workbench.Prelude.{
  ◌≡◌, ◌⊎◌, inl, inr, codes, refl, sym, subst, Bool, true, false, Option, none, some, List, [], ◌∷◌,
  ◌++◌, arith, All, any, if◌then◌else◌, Text, text_eq, text_eq_iff, text_lt_irrefl, ◌&&◌, ◌==◌,
}
use commitment_workbench.Audit.Chain.{ChainEntry}
use commitment_workbench.Store.Tables.{insert_unique}
use commitment_workbench.Store.AuditLog.{
  AuditEntryParams, Env, AuditEntryResult, derive_monotonic_epoch_id, newer, same_key, result_of,
  row_of, insert_row, epoch_of, or_default, with_result, is_in, origins, satisfies_checks,
}
use commitment_workbench.Store.AuditLog.Epochs.{Upto, derive-Upto}
use commitment_workbench.Store.AuditLog.Placed.{IsLog, Placed-IsLog}

-- What the constraints of the table ask of a write.
pub record IsStorable (p : AuditEntryParams) : Type 0 where
  pub decision_known :
      (p.decision ≡ codes "allow") ⊎ (p.decision ≡ codes "deny") ⊎ (p.decision ≡ codes "pending")
  pub outcome_known :
      (p.outcome ≡ codes "success") ⊎ (p.outcome ≡ codes "error") ⊎ (p.outcome ≡ codes "timeout")
  pub origin_known :
      (p.origin ≡ none)
      ⊎ (p.origin ≡ some (codes "human"))
      ⊎ (p.origin ≡ some (codes "mcp_commission"))
  pub latency_number : text_eq p.latency_ms.text (codes "NaN") ≡ false

one_of_three : (a b c s : Text) → (s ≡ a) ⊎ (s ≡ b) ⊎ (s ≡ c) → is_in (a ∷ b ∷ c ∷ []) s ≡ true
one_of_three a b c s h = ground (arith, h, text_eq_iff s a, text_eq_iff s b, text_eq_iff s c)

origin_lem :
    (o : Option Text)
    → (o ≡ none) ⊎ (o ≡ some (codes "human")) ⊎ (o ≡ some (codes "mcp_commission"))
    → is_in origins (or_default o (codes "human")) ≡ true
unfolding text_eq
origin_lem o (inl e) = rw e refl
origin_lem o (inr (inl e)) = rw e refl
origin_lem o (inr (inr e)) = rw e refl

module _ (sha256 : Text → Text) (env : Env) (p : AuditEntryParams) (referent : Option Text) where
  derived-Upto : (t : List ChainEntry) → p.epoch_id ≡ none → All (Upto (epoch_of env p t)) t
  derived-Upto t h =
      subst (λ o. All (Upto (or_default o (derive_monotonic_epoch_id env.today t))) t) (sym h)
        (derive-Upto env.today t)

  row-IsLog :
      (t : List ChainEntry)
      → p.epoch_id ≡ none
      → IsLog sha256 t
      → IsLog sha256 (t ++ row_of sha256 env p referent t ∷ [])
        × All (λ y. newer (row_of sha256 env p referent t) y ≡ true) t
  unfolding row_of
  row-IsLog t h log =
      Placed-IsLog sha256 (epoch_of env p t) t (row_of sha256 env p referent t) log
        (derived-Upto t h) refl
        (record { epoch_eq = refl; prev_eq = refl; sequence_eq = refl; link_eq = refl })

  -- A later row has another key.
  free_key :
      (t : List ChainEntry) (e : ChainEntry)
      → All (λ y. newer e y ≡ true) t
      → any (λ r. text_eq e.id r.id) t ≡ false
      → any (same_key e) t ≡ false
  free_key [] e a f = refl
  free_key (x ∷ t) e a f =
      let other : text_eq e.id x.id ≡ false = ground arith in
      let rest : any (λ r. text_eq e.id r.id) t ≡ false = ground arith in
      let apart : (text_eq e.epoch_id x.epoch_id && e.sequence_num == x.sequence_num) ≡ false =
        keys_apart e x a.0 in
      ground (arith, free_key t e a.1 rest)
    where
      keys_apart :
          (a b : ChainEntry)
          → newer a b ≡ true
          → (text_eq a.epoch_id b.epoch_id && a.sequence_num == b.sequence_num) ≡ false
      keys_apart a b h =
          unfold newer in
          ground (arith, text_eq_iff a.epoch_id b.epoch_id, text_lt_irrefl a.epoch_id)

  row-satisfies_checks :
      (t : List ChainEntry)
      → IsStorable p
      → satisfies_checks (row_of sha256 env p referent t) ≡ true
  unfolding row_of satisfies_checks
  row-satisfies_checks t k =
      rw
        (
          one_of_three (codes "allow") (codes "deny") (codes "pending") p.decision k.decision_known,
          one_of_three (codes "success") (codes "error") (codes "timeout") p.outcome
              k.outcome_known,
          origin_lem p.origin k.origin_known,
          k.latency_number,
        )
        refl

  -- An append whose epoch is the clock's and whose id is new goes through, where its decision is allow,
  -- deny or pending, its outcome is success, error or timeout, its origin is absent, human or
  -- mcp_commission, and its latency is not NaN: it adds one row at the end of the log, whatever the clock
  -- says, and the log stays a chain with rising keys.
  pub insert_row-appends :
      (t : List ChainEntry)
      → p.epoch_id ≡ none
      → IsStorable p
      → IsLog sha256 t
      → any (λ r. text_eq env.uuid r.id) t ≡ false
      → (e : ChainEntry) × (insert_row sha256 env p referent t ≡ some (result_of e, t ++ e ∷ []))
        × IsLog sha256 (t ++ e ∷ [])
        × (e.decision_entry_id ≡ referent)
  unfolding insert_row insert_unique
  insert_row-appends t h storable log new =
      let (grown, high) = row-IsLog t h log in
      let e = row_of sha256 env p referent t in
      let free = free_key t e high (unfold row_of in new) in
      (e, rw (row-satisfies_checks t storable, free) refl, grown, unfold row_of in refl)

  -- What any append leaves, a refused one included.
  pub insert_row-IsLog :
      (t u : List ChainEntry) (r : AuditEntryResult)
      → p.epoch_id ≡ none
      → IsLog sha256 t
      → insert_row sha256 env p referent t ≡ some (r, u)
      → IsLog sha256 u
  unfolding insert_row insert_unique
  insert_row-IsLog t u r h log k =
      go (satisfies_checks (row_of sha256 env p referent t))
        (any (same_key (row_of sha256 env p referent t)) t) k
    where
      e : ChainEntry
      e = row_of sha256 env p referent t

      go :
          (c b : Bool)
          → with_result e (if c then if b then none else some (t ++ e ∷ []) else none) ≡ some (r, u)
          → IsLog sha256 u
      go false b q = cc
      go true true q = cc
      go true false q = subst (IsLog sha256) (cc q) (row-IsLog t h log).0
