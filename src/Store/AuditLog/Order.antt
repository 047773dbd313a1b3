-- ===== src/Store/AuditLog/Order.antt =====
-- The order of the chain, and what a descending read of rows that were stored in this order gives.
use commitment_workbench.Prelude.{
  ◌≡◌, refl, sym, ap, ◌∙◌, Bool, true, false, List, [], ◌∷◌, ◌++◌, reverse, reverse-cons, arith,
  All, text_eq_iff, text_lt_irrefl, text_lt_trans,
}
use commitment_workbench.Audit.Chain.{ChainEntry}
use commitment_workbench.Store.Tables.{place, order_by, Sorted}
use commitment_workbench.Store.AuditLog.{newer}

pub newer_irrefl : (a : ChainEntry) → newer a a ≡ false
unfolding newer
newer_irrefl a = ground (arith, text_lt_irrefl a.epoch_id)

pub newer_trans : (a b c : ChainEntry) → newer a b ≡ true → newer b c ≡ true → newer a c ≡ true
unfolding newer
newer_trans a b c h k = ground (
  arith,
  text_eq_iff b.epoch_id a.epoch_id,
  text_eq_iff c.epoch_id b.epoch_id,
  text_eq_iff c.epoch_id a.epoch_id,
  text_lt_trans c.epoch_id b.epoch_id a.epoch_id,
)

-- Each row goes before the rows stored later, in the order that `lt` reads backwards.
abbrev pub Rising {ℓ} : {A : Type ℓ} → (A → A → Bool) → List A → Type 0
Rising lt = Sorted (λ a b. lt b a)

module _ {ℓ} {A : Type ℓ} where
  All-snoc : (P : A → Type 0) (xs : List A) (x : A) → All P xs → P x → All P (xs ++ x ∷ [])
  All-snoc P [] x h p = (p, tt)
  All-snoc P (y ∷ xs) x h p = (h.0, All-snoc P xs x h.1 p)

  pub Rising-snoc :
      (lt : A → A → Bool) (xs : List A) (x : A)
      → Rising lt xs
      → All (λ y. lt x y ≡ true) xs
      → Rising lt (xs ++ x ∷ [])
  Rising-snoc lt [] x s h = (tt, tt)
  Rising-snoc lt (y ∷ xs) x s h =
      (All-snoc (λ z. lt z y ≡ true) xs x s.0 h.0, Rising-snoc lt xs x s.1 h.1)

  -- The last row of a rising list comes after every other.
  pub Rising-last :
      (lt : A → A → Bool) (xs : List A) (x : A)
      → Rising lt (xs ++ x ∷ [])
      → All (λ y. lt x y ≡ true) xs × Rising lt xs
  Rising-last lt [] x s = (tt, tt)
  Rising-last lt (y ∷ xs) x s =
      let (h, r) = Rising-last lt xs x s.1 in ((last xs s.0, h), (init xs s.0, r))
    where
      last : (zs : List A) → All (λ z. lt z y ≡ true) (zs ++ x ∷ []) → lt x y ≡ true
      last [] h = h.0
      last (z ∷ zs) h = last zs h.1

      init : (zs : List A) → All (λ z. lt z y ≡ true) (zs ++ x ∷ []) → All (λ z. lt z y ≡ true) zs
      init [] h = tt
      init (z ∷ zs) h = (h.0, init zs h.1)

  place-end :
      (lt : A → A → Bool) (x : A) (ys : List A)
      → All (λ y. lt y x ≡ true) ys
      → place lt x ys ≡ ys ++ x ∷ []
  unfolding place
  place-end lt x [] h = refl
  place-end lt x (y ∷ ys) h = rw (h.0, place-end lt x ys h.1) refl

  pub All-reverse : (P : A → Type 0) (xs : List A) → All P xs → All P (reverse xs)
  All-reverse P [] h = tt
  All-reverse P (x ∷ xs) h =
      rw (reverse-cons x xs) (All-snoc P (reverse xs) x (All-reverse P xs h.1) h.0)

  -- A descending read of a rising list is its reverse.
  pub order_by-Rising :
      (lt : A → A → Bool) (xs : List A) → Rising lt xs → order_by lt xs ≡ reverse xs
  unfolding order_by
  order_by-Rising lt [] s = refl
  order_by-Rising lt (x ∷ xs) s =
      ap (place lt x) (order_by-Rising lt xs s.1)
      ∙ place-end lt x (reverse xs) (All-reverse (λ y. lt y x ≡ true) xs s.0)
      ∙ sym (reverse-cons x xs)

  pub reverse-snoc : (xs : List A) (x : A) → reverse (xs ++ x ∷ []) ≡ x ∷ reverse xs
  reverse-snoc [] x = refl
  reverse-snoc (y ∷ xs) x =
      reverse-cons y (xs ++ x ∷ [])
      ∙ ap (λ t. t ++ y ∷ []) (reverse-snoc xs x)
      ∙ ap (◌∷◌ x) (sym (reverse-cons y xs))

  -- A list is empty or has a last element.
  pub data Ended : List A → Type ℓ where
    empty : Ended []
    ended : (xs : List A) (x : A) → Ended (xs ++ x ∷ [])

  pub Ended-all : (xs : List A) → Ended xs
  Ended-all [] = empty
  Ended-all (x ∷ xs) = go (Ended-all xs)
    where
      go : {ys : List A} → Ended ys → Ended (x ∷ ys)
      go empty = ended [] x
      go (ended zs z) = ended (x ∷ zs) z
