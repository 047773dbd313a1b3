-- ===== src/Prelude/Member.antt =====
-- Membership as a family that can be matched, and what it says of filters.
use commitment_workbench.Prelude.{
  ◌≡◌, refl, sym, subst, inl, inr, Bool, true, false, List, [], ◌∷◌, arith, Bool-cases, All, Any,
  here, there, filter, any, if◌then◌else◌,
}

abbrev pub Member {ℓ} : {A : Type ℓ} → A → List A → Type ℓ
Member a = Any (λ x. a ≡ x)

module _ {ℓ} {A : Type ℓ} where
  pub All-Member {κ} : (P : A → Type κ) (a : A) (xs : List A) → All P xs → Member a xs → P a
  All-Member P a [] h r = elim r [ ]
  All-Member P a (x ∷ xs) h (here e) = subst P (sym e) h.0
  All-Member P a (x ∷ xs) h (there r) = All-Member P a xs h.1 r

  pub Member-All {κ} : (P : A → Type κ) (xs : List A) → ((a : A) → Member a xs → P a) → All P xs
  Member-All P [] h = tt
  Member-All P (x ∷ xs) h = (h x (here refl), Member-All P xs (λ a r. h a (there r)))

  pub any-true-Member :
      (p : A → Bool) (xs : List A) → any p xs ≡ true → (a : A) × Member a xs × (p a ≡ true)
  any-true-Member p [] h = cc
  any-true-Member p (x ∷ xs) h = elim (Bool-cases (p x)) [
    | inl e ↦ (x, here refl, e)
    | inr e ↦ let (a, r, q) = any-true-Member p xs (ground arith) in (a, there r, q)
  ]

  pub any_of_Member :
      (p : A → Bool) (a : A) (xs : List A) → Member a xs → p a ≡ true → any p xs ≡ true
  any_of_Member p a [] r h = elim r [ ]
  any_of_Member p a (x ∷ xs) (here e) h =
      let q : p x ≡ true = subst (λ y. p y ≡ true) e h in ground arith
  any_of_Member p a (x ∷ xs) (there r) h = ground (arith, any_of_Member p a xs r h)

  Member-keep :
      (b : Bool) (p : A → Bool) (a x : A) (xs : List A)
      → Member a (filter p xs)
      → Member a (if b then x ∷ filter p xs else filter p xs)
  Member-keep true p a x xs r = there r
  Member-keep false p a x xs r = r

  pub Member-filter :
      (p : A → Bool) (a : A) (xs : List A) → Member a xs → p a ≡ true → Member a (filter p xs)
  Member-filter p a [] r h = elim r [ ]
  Member-filter p a (x ∷ xs) (here e) h =
      let q : p x ≡ true = subst (λ y. p y ≡ true) e h in rw q (here e)
  Member-filter p a (x ∷ xs) (there r) h = Member-keep (p x) p a x xs (Member-filter p a xs r h)

  from_keep :
      (b : Bool) (p : A → Bool) (a x : A) (xs : List A)
      → p x ≡ b
      → (Member a (filter p xs) → Member a xs × (p a ≡ true))
      → Member a (if b then x ∷ filter p xs else filter p xs)
      → Member a (x ∷ xs) × (p a ≡ true)
  from_keep true p a x xs e ih (here q) = (here q, subst (λ y. p y ≡ true) (sym q) e)
  from_keep true p a x xs e ih (there r) = let (m, t) = ih r in (there m, t)
  from_keep false p a x xs e ih r = let (m, t) = ih r in (there m, t)

  pub filter-Member :
      (p : A → Bool) (a : A) (xs : List A) → Member a (filter p xs) → Member a xs × (p a ≡ true)
  filter-Member p a [] r = elim r [ ]
  filter-Member p a (x ∷ xs) r = from_keep (p x) p a x xs refl (filter-Member p a xs) r
