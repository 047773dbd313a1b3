-- ===== src/Store/AuditLog/Epochs.antt =====
-- The epoch and the predecessor that an append reads, for a log whose rows were written in rising order.
use commitment_workbench.Prelude.{
  ◌≡◌, refl, sym, ap, subst, ◌∙◌, ◌⊎◌, inl, inr, Bool, true, false, Option, none, some, List, [],
  ◌∷◌, ◌++◌, reverse, arith, All, Bool-cases, filter, filter-append, head?, if◌then◌else◌, Text,
  text_eq, text_eq_iff, text_eq_refl, text_lt, text_lt_irrefl, text_lt_trans, text_lt_total,
}
use commitment_workbench.Audit.Chain.{ChainEntry}
use commitment_workbench.Store.Tables.{order_by}
use commitment_workbench.Store.AuditLog.{
  max_epoch, derive_monotonic_epoch_id, newer, by_sequence, last_in_epoch, last_overall,
}
use commitment_workbench.Store.AuditLog.Order.{Rising, order_by-Rising, reverse-snoc}

-- `b` is no later than the text `m`.
abbrev pub Upto : Text → ChainEntry → Type 0
Upto m r = text_lt m r.epoch_id ≡ false

pub not_lt_trans : (a b c : Text) → text_lt a b ≡ false → text_lt b c ≡ false → text_lt a c ≡ false
not_lt_trans a b c h k = elim (Bool-cases (text_lt a c)) [
  | inr e ↦ e
  | inl e ↦ elim (Bool-cases (text_lt b a)) [
    | inl f ↦ cc (text_lt_trans b a c f e, k)
    | inr f ↦ let same = text_lt_total a b h f in cc (same, k)
  ]
]

pub All-Upto :
    (m k : Text) (t : List ChainEntry) → text_lt k m ≡ false → All (Upto m) t → All (Upto k) t
All-Upto m k [] h a = tt
All-Upto m k (r ∷ t) h a = (not_lt_trans k m r.epoch_id h a.0, All-Upto m k t h a.1)

-- MAX bounds each row's epoch.
max_epoch-Upto :
    (t : List ChainEntry)
    → ((max_epoch t ≡ none) × (t ≡ [])) ⊎ ((m : Text) × (max_epoch t ≡ some m) × All (Upto m) t)
unfolding max_epoch
max_epoch-Upto [] = inl (refl, refl)
max_epoch-Upto (r ∷ t) = elim (max_epoch-Upto t) [
  | inl (e, n) ↦ inr (r.epoch_id, rw e refl, (text_lt_irrefl r.epoch_id, rw n tt))
  | inr (m, e, a) ↦ elim (Bool-cases (text_lt m r.epoch_id)) [
    | inl l ↦ inr (
      r.epoch_id,
      rw (e, l) refl,
      (text_lt_irrefl r.epoch_id, All-Upto m r.epoch_id t (asym m r.epoch_id l) a),
    )
    | inr l ↦ inr (m, rw (e, l) refl, (l, a))
  ]
]
  where
    asym : (a b : Text) → text_lt a b ≡ true → text_lt b a ≡ false
    asym a b h = elim (Bool-cases (text_lt b a)) [
      | inr k ↦ k
      | inl k ↦ cc (text_lt_trans a b a h k, text_lt_irrefl a)
    ]

-- The clamp: no stored epoch is later than the one derived.
pub derive-Upto :
    (today : Text) (t : List ChainEntry) → All (Upto (derive_monotonic_epoch_id today t)) t
unfolding derive_monotonic_epoch_id
derive-Upto today t = go (max_epoch t) refl (max_epoch-Upto t)
  where
    go :
        (o : Option Text)
        → max_epoch t ≡ o
        → ((max_epoch t ≡ none) × (t ≡ [])) ⊎ ((m : Text) × (max_epoch t ≡ some m) × All (Upto m) t)
        → All (Upto (elim o [ none ↦ today | some m ↦ if text_lt today m then m else today ])) t
    go o e (inl (_, n)) = rw n tt
    go none e (inr (m, q, a)) = cc (sym e ∙ q)
    go (some k) e (inr (m, q, a)) = elim (Bool-cases (text_lt today k)) [
      | inl l ↦ rw l (same a)
      | inr l ↦ rw l (All-Upto k today t l (same a))
    ]
      where
        same : All (Upto m) t → All (Upto k) t
        same h = subst (λ x. All (Upto x) t) (cc (sym e ∙ q)) h

Rising-same_epoch :
    (epoch : Text) (t : List ChainEntry)
    → Rising newer t
    → Rising by_sequence (filter (λ r. text_eq r.epoch_id epoch) t)
unfolding by_sequence
Rising-same_epoch epoch [] s = tt
Rising-same_epoch epoch (r ∷ t) s = elim (Bool-cases (text_eq r.epoch_id epoch)) [
  | inl e ↦ rw e (later t s.0 e, Rising-same_epoch epoch t s.1)
  | inr e ↦ rw e (Rising-same_epoch epoch t s.1)
]
  where
    above :
        (x : ChainEntry)
        → newer x r ≡ true
        → text_eq r.epoch_id epoch ≡ true
        → text_eq x.epoch_id epoch ≡ true
        → by_sequence x r ≡ true
    above x h e f =
        let same : r.epoch_id ≡ x.epoch_id =
          ground (arith, text_eq_iff r.epoch_id epoch, text_eq_iff x.epoch_id epoch) in
        unfold newer by_sequence in ground (arith, text_lt_irrefl x.epoch_id)

    later :
        (xs : List ChainEntry)
        → All (λ x. newer x r ≡ true) xs
        → text_eq r.epoch_id epoch ≡ true
        → All (λ x. by_sequence x r ≡ true) (filter (λ x. text_eq x.epoch_id epoch) xs)
    later [] h e = tt
    later (x ∷ xs) h e = elim (Bool-cases (text_eq x.epoch_id epoch)) [
      | inl f ↦ rw f (above x h.0 e f, later xs h.1 e)
      | inr f ↦ rw f (later xs h.1 e)
    ]

-- The rows of an epoch that is later than all are none.
none_in_epoch :
    (epoch : Text) (t : List ChainEntry)
    → All (λ r. text_lt r.epoch_id epoch ≡ true) t
    → filter (λ r. text_eq r.epoch_id epoch) t ≡ []
none_in_epoch epoch [] h = refl
none_in_epoch epoch (r ∷ t) h =
    ground (arith, text_eq_iff r.epoch_id epoch, text_lt_irrefl epoch, none_in_epoch epoch t h.1)

pub newer_epoch : (a b : ChainEntry) → newer a b ≡ true → text_lt a.epoch_id b.epoch_id ≡ false
unfolding newer
newer_epoch a b h = ground (
  arith,
  text_eq_iff b.epoch_id a.epoch_id,
  text_lt_irrefl a.epoch_id,
  text_lt_trans b.epoch_id a.epoch_id b.epoch_id,
  text_lt_irrefl b.epoch_id,
)

pub last_overall-snoc :
    (s : List ChainEntry) (l : ChainEntry)
    → Rising newer (s ++ l ∷ [])
    → last_overall (s ++ l ∷ []) ≡ some l
unfolding last_overall
last_overall-snoc s l r = ap head? (order_by-Rising newer (s ++ l ∷ []) r ∙ reverse-snoc s l)

pub last_in_epoch-snoc :
    (s : List ChainEntry) (l : ChainEntry)
    → Rising newer (s ++ l ∷ [])
    → last_in_epoch l.epoch_id (s ++ l ∷ []) ≡ some l
unfolding last_in_epoch
last_in_epoch-snoc s l r = ap head? (
    order_by-Rising by_sequence (filter p (s ++ l ∷ []))
      (Rising-same_epoch l.epoch_id (s ++ l ∷ []) r)
    ∙ ap reverse kept
    ∙ reverse-snoc (filter p s) l)
  where
    p : ChainEntry → Bool
    p r = text_eq r.epoch_id l.epoch_id

    kept : filter p (s ++ l ∷ []) ≡ filter p s ++ l ∷ []
    kept = filter-append p s (l ∷ []) ∙ rw (text_eq_refl l.epoch_id) refl

pub last_in_epoch-none :
    (epoch : Text) (t : List ChainEntry)
    → All (λ r. text_lt r.epoch_id epoch ≡ true) t
    → last_in_epoch epoch t ≡ none
unfolding last_in_epoch order_by
last_in_epoch-none epoch t h = rw (none_in_epoch epoch t h) refl
