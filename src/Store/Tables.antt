-- ===== src/Store/Tables.antt =====
-- What the SQL statements of the helpers do to a table, and the laws of ORDER BY on distinct keys.
use commitment_workbench.Prelude.Member.{Member}
use commitment_workbench.Prelude.{
  map, ◌≡◌, refl, ap, ◌∙◌, ◌⊎◌, inl, inr, Bool, true, false, Option, none, some, List, [], ◌∷◌,
  ◌++◌, arith, All, here, there, Bool-cases, filter, any, if◌then◌else◌, not,
}

module _ {ℓ} {A : Type ℓ} where
  -- UPDATE … SET f WHERE p
  unfoldable pub update_where : (A → Bool) → (A → A) → List A → List A
  update_where p f [] = []
  update_where p f (r ∷ rs) = (if p r then f r else r) ∷ update_where p f rs

  -- DELETE … WHERE p
  unfoldable pub delete_where : (A → Bool) → List A → List A
  delete_where p rs = filter (λ r. not (p r)) rs

  -- INSERT, where `same` is a conflict with the new row's key: `none` is a thrown constraint violation.
  unfoldable pub insert_unique : (A → A → Bool) → A → List A → Option (List A)
  insert_unique same r rs = if any (same r) rs then none else some (rs ++ r ∷ [])

  -- INSERT OR IGNORE, and ON CONFLICT … DO NOTHING
  unfoldable pub insert_or_ignore : (A → A → Bool) → A → List A → List A
  insert_or_ignore same r rs = if any (same r) rs then rs else rs ++ r ∷ []

  -- The first row that meets a test: SELECT … WHERE p LIMIT 1
  unfoldable pub select_one : (A → Bool) → List A → Option A
  select_one p [] = none
  select_one p (r ∷ rs) = if p r then some r else select_one p rs

  -- `rows.length > 0`, or `rows[0]` is there
  abbrev pub is_some : Option A → Bool
  is_some none = false
  is_some (some a) = true

  -- A row goes behind those that precede it, in front of those that do not.
  unfoldable pub place : (A → A → Bool) → A → List A → List A
  place lt x [] = x ∷ []
  place lt x (y ∷ ys) = let rest = place lt x ys in if lt y x then y ∷ rest else x ∷ y ∷ ys

  -- ORDER BY, where `lt a b` puts `a` first
  unfoldable pub order_by : (A → A → Bool) → List A → List A
  unfolding place
  order_by lt [] = []
  order_by lt (x ∷ xs) = place lt x (order_by lt xs)

module _ {ℓ} {A : Type ℓ} where
  place-Member :
      (lt : A → A → Bool) (x a : A) (ys : List A) → Member a (place lt x ys) → Member a (x ∷ ys)
  unfolding place
  place-Member lt x a [] m = m
  place-Member lt x a (y ∷ ys) m = go (lt y x) (place-Member lt x a ys) m
    where
      behind : Member a (x ∷ ys) → Member a (x ∷ y ∷ ys)
      behind (here e) = here e
      behind (there k) = there (there k)

      go :
          (b : Bool)
          → (Member a (place lt x ys) → Member a (x ∷ ys))
          → Member a (if b then y ∷ place lt x ys else x ∷ y ∷ ys)
          → Member a (x ∷ y ∷ ys)
      go true ih (here e) = there (here e)
      go true ih (there k) = behind (ih k)
      go false ih k = k

  -- ORDER BY brings no row of its own.
  pub order_by-Member :
      (lt : A → A → Bool) (a : A) (xs : List A) → Member a (order_by lt xs) → Member a xs
  unfolding order_by
  order_by-Member lt a [] m = m
  order_by-Member lt a (x ∷ xs) m =
      go (order_by-Member lt a xs) (place-Member lt x a (order_by lt xs) m)
    where
      go :
          (Member a (order_by lt xs) → Member a xs)
          → Member a (x ∷ order_by lt xs)
          → Member a (x ∷ xs)
      go ih (here e) = here e
      go ih (there k) = there (ih k)

  Member-place :
      (lt : A → A → Bool) (x a : A) (ys : List A) → Member a (x ∷ ys) → Member a (place lt x ys)
  unfolding place
  Member-place lt x a [] m = m
  Member-place lt x a (y ∷ ys) m = go (lt y x) (Member-place lt x a ys) m
    where
      go :
          (b : Bool)
          → (Member a (x ∷ ys) → Member a (place lt x ys))
          → Member a (x ∷ y ∷ ys)
          → Member a (if b then y ∷ place lt x ys else x ∷ y ∷ ys)
      go true ih (here e) = there (ih (here e))
      go true ih (there (here e)) = here e
      go true ih (there (there k)) = there (ih (there k))
      go false ih k = k

  -- ORDER BY loses no row.
  pub Member-order_by :
      (lt : A → A → Bool) (a : A) (xs : List A) → Member a xs → Member a (order_by lt xs)
  unfolding order_by
  Member-order_by lt a [] m = m
  Member-order_by lt a (x ∷ xs) (here e) = Member-place lt x a (order_by lt xs) (here e)
  Member-order_by lt a (x ∷ xs) (there m) =
      Member-place lt x a (order_by lt xs) (there (Member-order_by lt a xs m))

  pub Member-map {κ} :
      {B : Type κ} (f : A → B) (a : A) (xs : List A) → Member a xs → Member (f a) (map f xs)
  Member-map f a [] m = elim m [ ]
  Member-map f a (x ∷ xs) (here e) = here (ap f e)
  Member-map f a (x ∷ xs) (there m) = there (Member-map f a xs m)

  pub map-Member {κ} :
      {B : Type κ} (f : A → B) (b : B) (xs : List A)
      → Member b (map f xs)
      → (a : A) × Member a xs × (b ≡ f a)
  map-Member f b [] m = elim m [ ]
  map-Member f b (x ∷ xs) (here e) = (x, here refl, e)
  map-Member f b (x ∷ xs) (there m) = let (a, k, e) = map-Member f b xs m in (a, there k, e)

module _ {ℓ} {A : Type ℓ} (lt : A → A → Bool) where
  abbrev pub Sorted : List A → Type 0
  Sorted [] = Unit {0}
  Sorted (x ∷ xs) = All (λ y. lt x y ≡ true) xs × Sorted xs

  -- Of any two rows one goes first: no two have the same key.
  abbrev pub Apart : List A → Type 0
  Apart [] = Unit {0}
  Apart (x ∷ xs) = All (λ y. (lt x y ≡ true) ⊎ (lt y x ≡ true)) xs × Apart xs

module _ {ℓ} {A : Type ℓ} (lt : A → A → Bool) (irrefl : (a : A) → lt a a ≡ false)
    (trans : (a b c : A) → lt a b ≡ true → lt b c ≡ true → lt a c ≡ true) where
  asym : (a b : A) → lt a b ≡ true → lt b a ≡ false
  asym a b h = elim (Bool-cases (lt b a)) [
    | inl k ↦ absurd (cc (trans a b a h k, irrefl a))
    | inr k ↦ k
  ]

  All-place : (P : A → Type 0) (x : A) (ys : List A) → P x → All P ys → All P (place lt x ys)
  unfolding place
  All-place P x [] p h = (p, tt)
  All-place P x (y ∷ ys) p h = elim (Bool-cases (lt y x)) [
    | inl e ↦ rw e (h.0, All-place P x ys p h.1)
    | inr e ↦ rw e (p, h)
  ]

  All-order_by : (P : A → Type 0) (xs : List A) → All P xs → All P (order_by lt xs)
  unfolding order_by
  All-order_by P [] h = tt
  All-order_by P (x ∷ xs) h = All-place P x (order_by lt xs) h.0 (All-order_by P xs h.1)

  All-after :
      (x y : A) (ys : List A)
      → lt x y ≡ true
      → All (λ z. lt y z ≡ true) ys
      → All (λ z. lt x z ≡ true) ys
  All-after x y [] e h = tt
  All-after x y (z ∷ ys) e h = (trans x y z e h.0, All-after x y ys e h.1)

  first_of_apart : (x y : A) → (lt x y ≡ true) ⊎ (lt y x ≡ true) → lt y x ≡ false → lt x y ≡ true
  first_of_apart x y (inl e) h = e
  first_of_apart x y (inr e) h = cc

  place-Sorted :
      (x : A) (ys : List A)
      → All (λ y. (lt x y ≡ true) ⊎ (lt y x ≡ true)) ys
      → Sorted lt ys
      → Sorted lt (place lt x ys)
  unfolding place
  place-Sorted x [] a s = (tt, tt)
  place-Sorted x (y ∷ ys) a s = elim (Bool-cases (lt y x)) [
    | inl e ↦ rw e (All-place (λ z. lt y z ≡ true) x ys e s.0, place-Sorted x ys a.1 s.1)
    | inr e ↦ let front = first_of_apart x y a.0 e in rw e ((front, All-after x y ys front s.0), s)
  ]

  -- Rows with distinct keys come out in their strict order.
  pub order_by-Sorted : (xs : List A) → Apart lt xs → Sorted lt (order_by lt xs)
  unfolding order_by
  order_by-Sorted [] a = tt
  order_by-Sorted (x ∷ xs) a =
      place-Sorted x (order_by lt xs) (All-order_by (λ y. (lt x y ≡ true) ⊎ (lt y x ≡ true)) xs a.0)
        (order_by-Sorted xs a.1)

  filter-place_front :
      (p : A → Bool) (x : A) (ys : List A)
      → All (λ z. lt x z ≡ true) ys
      → place lt x (filter p ys) ≡ x ∷ filter p ys
  unfolding place
  filter-place_front p x [] h = refl
  filter-place_front p x (y ∷ ys) h = ground (arith, asym x y h.0, filter-place_front p x ys h.1)

  filter-place :
      (p : A → Bool) (x : A) (ys : List A)
      → All (λ y. (lt x y ≡ true) ⊎ (lt y x ≡ true)) ys
      → Sorted lt ys
      → filter p (place lt x ys) ≡ (if p x then place lt x (filter p ys) else filter p ys)
  unfolding place
  filter-place p x [] a s = ground arith
  filter-place p x (y ∷ ys) a s = elim (Bool-cases (lt y x)) [
    | inl e ↦ ground (arith, filter-place p x ys a.1 s.1)
    | inr e ↦
        let front = first_of_apart x y a.0 e in
        ground (
          arith,
          filter-place_front p x (y ∷ ys) (front, All-after x y ys front s.0),
          filter-place_front p x ys (All-after x y ys front s.0),
        )
  ]

  -- WHERE and ORDER BY commute.
  pub filter-order_by :
      (p : A → Bool) (xs : List A)
      → Apart lt xs
      → filter p (order_by lt xs) ≡ order_by lt (filter p xs)
  unfolding order_by
  filter-order_by p [] a = refl
  filter-order_by p (x ∷ xs) a =
      filter-place p x (order_by lt xs)
        (All-order_by (λ y. (lt x y ≡ true) ⊎ (lt y x ≡ true)) xs a.0) (order_by-Sorted xs a.1)
      ∙ both (p x) (filter-order_by p xs a.1)
    where
      both :
          (b : Bool)
          → filter p (order_by lt xs) ≡ order_by lt (filter p xs)
          → (if b then place lt x (filter p (order_by lt xs)) else filter p (order_by lt xs))
            ≡ order_by lt (if b then x ∷ filter p xs else filter p xs)
      both true h = ap (place lt x) h
      both false h = h

  none_after : (c : A) (xs : List A) → All (λ a. lt a c ≡ true) xs → filter (lt c) xs ≡ []
  none_after c [] h = refl
  none_after c (x ∷ xs) h = ground (arith, asym x c h.0, none_after c xs h.1)

  keep_after : (c : A) (xs : List A) → All (λ a. lt c a ≡ true) xs → filter (lt c) xs ≡ xs
  keep_after c [] h = refl
  keep_after c (x ∷ xs) h = ground (arith, h.0, keep_after c xs h.1)

  -- In a strict order the rows after `c` are those that stand behind it.
  pub filter-after :
      (xs ys : List A) (c : A) → Sorted lt (xs ++ c ∷ ys) → filter (lt c) (xs ++ c ∷ ys) ≡ ys
  filter-after [] ys c s = rw (irrefl c) (keep_after c ys s.0)
  filter-after (x ∷ xs) ys c s = rw (asym x c (before_c xs s.0)) (filter-after xs ys c s.1)
    where
      before_c : (zs : List A) → All (λ y. lt x y ≡ true) (zs ++ c ∷ ys) → lt x c ≡ true
      before_c [] h = h.0
      before_c (z ∷ zs) h = before_c zs h.1
