-- ===== src/Store/AuditLog/Placed.antt =====
-- audit-log.ts: the logs that insertRow builds, and the place that it gives a row in one.
use commitment_workbench.Prelude.{
  ◌+◌, ◌≡◌, refl, sym, ap, ap₂, subst, ◌∙◌, ◌≢◌, ◌⊎◌, inl, inr, true, false, Option, none, some,
  List, [], ◌∷◌, ◌++◌, arith, All, Bool-cases, Text, text_eq, text_eq_iff, text_lt, text_lt_irrefl,
  text_lt_total,
}
use commitment_workbench.Audit.Hash.{genesis_sentinel as sentinel_text}
use commitment_workbench.Audit.Chain.{ChainEntry}
use commitment_workbench.Audit.Chain.Links.{HasSentinel, MayFollow, IsIntact, IsChain}
use commitment_workbench.Store.Tables.{order_by}
use commitment_workbench.Store.AuditLog.{newer, last_overall, place_of, place_after, hash_of}
use commitment_workbench.Store.AuditLog.Order.{
  newer_trans, Rising, Rising-snoc, Rising-last, Ended, empty, ended, Ended-all,
}
use commitment_workbench.Store.AuditLog.Epochs.{
  Upto, newer_epoch, last_overall-snoc, last_in_epoch-snoc, last_in_epoch-none, not_lt_trans,
}

last_of_All :
    (P : ChainEntry → Type 0) (s : List ChainEntry) (l : ChainEntry) → All P (s ++ l ∷ []) → P l
last_of_All P [] l h = h.0
last_of_All P (x ∷ s) l h = last_of_All P s l h.1

Member-snoc :
    (P : ChainEntry → Type 0) (s : List ChainEntry) (l : ChainEntry)
    → All P s
    → P l
    → All P (s ++ l ∷ [])
Member-snoc P [] l h p = (p, tt)
Member-snoc P (x ∷ s) l h p = (h.0, Member-snoc P s l h.1 p)

-- Two rows apart, by way of the last: `e` after `l`, and `l` after all.
newer-All :
    (s : List ChainEntry) (l e : ChainEntry)
    → newer e l ≡ true
    → All (λ y. newer l y ≡ true) s
    → All (λ y. newer e y ≡ true) s
newer-All [] l e h a = tt
newer-All (x ∷ s) l e h a = (newer_trans e l x h a.0, newer-All s l e h a.1)

earlier-All :
    (s : List ChainEntry) (l : ChainEntry) (epoch : Text)
    → text_lt l.epoch_id epoch ≡ true
    → All (λ y. newer l y ≡ true) s
    → All (λ y. text_lt y.epoch_id epoch ≡ true) s
earlier-All [] l epoch h a = tt
earlier-All (x ∷ s) l epoch h a =
    (go (Bool-cases (text_lt x.epoch_id epoch)), earlier-All s l epoch h a.1)
  where
    go :
        (text_lt x.epoch_id epoch ≡ true) ⊎ (text_lt x.epoch_id epoch ≡ false)
        → text_lt x.epoch_id epoch ≡ true
    go (inl e) = e
    go (inr e) =
        let back = not_lt_trans l.epoch_id x.epoch_id epoch (newer_epoch l x a.0) e in cc (back, h)

module _ (sha256 : Text → Text) where
  IsChain-snoc :
      (p : Option ChainEntry) (s : List ChainEntry) (l e : ChainEntry)
      → IsChain sha256 p (s ++ l ∷ [])
      → IsIntact sha256 e
      → HasSentinel e
      → MayFollow l e
      → IsChain sha256 p ((s ++ l ∷ []) ++ e ∷ [])
  IsChain-snoc p [] l e (i, g, k, rest) a b c = (i, g, k, (a, b, c, tt))
  IsChain-snoc p (x ∷ s) l e (i, g, k, rest) a b c =
      (i, g, k, IsChain-snoc (some x) s l e rest a b c)

  -- The rows of the log: in the order in which they were written they are a chain with rising keys.
  pub record IsLog (t : List ChainEntry) : Type 0 where
    pub rising : Rising newer t
    pub chain : IsChain sha256 none t

  -- `e` stands in the place that `place_of` gives.
  pub record Placed (epoch : Text) (t : List ChainEntry) (e : ChainEntry) : Type 0 where
    pub epoch_eq : e.epoch_id ≡ epoch
    pub prev_eq : e.prev_hash ≡ (place_of epoch t).prev_hash
    pub sequence_eq : e.sequence_num ≡ (place_of epoch t).sequence_num
    pub link_eq : e.epoch_prev_hash ≡ (place_of epoch t).epoch_prev_hash

  same_epoch-IsLog :
      (s : List ChainEntry) (l e : ChainEntry)
      → IsLog (s ++ l ∷ [])
      → IsIntact sha256 e
      → e.epoch_id ≡ l.epoch_id
      → e.prev_hash ≡ l.hash
      → e.sequence_num ≡ l.sequence_num + 1
      → IsLog ((s ++ l ∷ []) ++ e ∷ []) × All (λ y. newer e y ≡ true) (s ++ l ∷ [])
  same_epoch-IsLog s l e log intact epoch prev seq =
      let (high, _) = Rising-last newer s l log.rising in
      let first : newer e l ≡ true =
        unfold newer in ground (arith, text_eq_iff l.epoch_id e.epoch_id) in
      let all = Member-snoc (λ y. newer e y ≡ true) s l (newer-All s l e first high) first in
      (
        record {
          rising = Rising-snoc newer (s ++ l ∷ []) e log.rising all;
          chain =
              IsChain-snoc none s l e log.chain intact (inl (λ h. omega (arith, h, seq)))
                (inl (sym epoch, inr prev));
        },
        all,
      )

  new_epoch-IsLog :
      (s : List ChainEntry) (l e : ChainEntry)
      → IsLog (s ++ l ∷ [])
      → IsIntact sha256 e
      → text_lt l.epoch_id e.epoch_id ≡ true
      → e.prev_hash ≡ sentinel_text
      → e.sequence_num ≡ 0
      → e.epoch_prev_hash ≡ some l.hash
      → IsLog ((s ++ l ∷ []) ++ e ∷ []) × All (λ y. newer e y ≡ true) (s ++ l ∷ [])
  new_epoch-IsLog s l e log intact later prev seq link =
      let (high, _) = Rising-last newer s l log.rising in
      let first : newer e l ≡ true = unfold newer in ground arith in
      let all = Member-snoc (λ y. newer e y ≡ true) s l (newer-All s l e first high) first in
      let apart : l.epoch_id ≢ e.epoch_id = λ same.
        cc (subst (λ x. text_lt x e.epoch_id ≡ true) same later, text_lt_irrefl e.epoch_id) in
      (
        record {
          rising = Rising-snoc newer (s ++ l ∷ []) e log.rising all;
          chain = IsChain-snoc none s l e log.chain intact (inr prev) (inr (apart, seq, link));
        },
        all,
      )

  -- The row that `place_of` places extends the log.
  pub Placed-IsLog :
      (epoch : Text) (t : List ChainEntry) (e : ChainEntry)
      → IsLog t
      → All (Upto epoch) t
      → IsIntact sha256 e
      → Placed epoch t e
      → IsLog (t ++ e ∷ []) × All (λ y. newer e y ≡ true) t
  Placed-IsLog epoch t e log high intact = go (Ended-all t) log high
    where
      go :
          {u : List ChainEntry}
          → Ended u
          → IsLog u
          → All (Upto epoch) u
          → Placed epoch u e
          → IsLog (u ++ e ∷ []) × All (λ y. newer e y ≡ true) u
      go empty lg h p = (
        record {
          rising = (tt, tt);
          chain = (intact, inr (p.prev_eq ∙ unfold place_of order_by in refl), tt, tt);
        },
        tt,
      )
      go (ended s l) lg h p =
          let (below, _) = Rising-last newer s l lg.rising in
          elim (Bool-cases (text_eq l.epoch_id epoch)) [
            | inl same ↦
                let q : l.epoch_id ≡ epoch = ground (arith, text_eq_iff l.epoch_id epoch) in
                let pl : place_of epoch (s ++ l ∷ [])
                    ≡ place_after (some l) (hash_of (last_overall (s ++ l ∷ []))) =
                  subst
                    (λ x.
                      place_of x (s ++ l ∷ [])
                      ≡ place_after (some l) (hash_of (last_overall (s ++ l ∷ []))))
                    q
                    (unfold place_of in
                      ap (λ o. place_after o (hash_of (last_overall (s ++ l ∷ []))))
                        (last_in_epoch-snoc s l lg.rising)) in
                same_epoch-IsLog s l e lg intact (p.epoch_eq ∙ sym q)
                  (p.prev_eq ∙ ap (λ x. x.prev_hash) pl)
                  (p.sequence_eq ∙ ap (λ x. x.sequence_num) pl)
            | inr other ↦
                let later : text_lt l.epoch_id epoch ≡ true =
                  beyond (last_of_All (Upto epoch) s l h) other in
                let none_there = last_in_epoch-none epoch (s ++ l ∷ []) (
                  Member-snoc (λ r. text_lt r.epoch_id epoch ≡ true) s l
                    (earlier-All s l epoch later below) later) in
                let pl : place_of epoch (s ++ l ∷ []) ≡ place_after none (some l.hash) =
                  unfold place_of in
                  ap₂ place_after none_there (ap hash_of (last_overall-snoc s l lg.rising)) in
                new_epoch-IsLog s l e lg intact (rw p.epoch_eq later)
                  (p.prev_eq ∙ ap (λ x. x.prev_hash) pl)
                  (p.sequence_eq ∙ ap (λ x. x.sequence_num) pl)
                  (p.link_eq ∙ ap (λ x. x.epoch_prev_hash) pl)
          ]
        where
          beyond :
              text_lt epoch l.epoch_id ≡ false
              → text_eq l.epoch_id epoch ≡ false
              → text_lt l.epoch_id epoch ≡ true
          beyond a b = elim (Bool-cases (text_lt l.epoch_id epoch)) [
            | inl c ↦ c
            | inr c ↦
                let same = text_lt_total l.epoch_id epoch c a in
                ground (arith, text_eq_iff l.epoch_id epoch)
          ]
