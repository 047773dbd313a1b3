-- ===== src/Governance/Policy/Order.antt =====
-- The head of the stable sort in evaluate-policy.ts: a member before which no other member goes.
use commitment_workbench.Prelude.{
  ◌≡◌, refl, ◌⊎◌, inl, inr, Bool, true, false, Option, none, some, List, [], ◌∷◌, arith, All, here,
  there, head?, if◌then◌else◌, any,
}
use commitment_workbench.Prelude.Member.{Member}
use commitment_workbench.Governance.Policy.{PolicyEntry, is_malformed, before, insert, sort}

-- What the head of a sorted list becomes when one more element is inserted.
abbrev better : PolicyEntry → Option PolicyEntry → PolicyEntry
better x none = x
better x (some y) = if before y x then y else x

head?-insert :
    (x : PolicyEntry) (ys : List PolicyEntry) → head? (insert x ys) ≡ some (better x (head? ys))
unfolding insert
head?-insert x [] = refl
head?-insert x (y ∷ ys) = ground arith

-- With finite priorities "not before" is transitive.
not_before_trans :
    (a b c : PolicyEntry)
    → is_malformed a ≡ false
    → is_malformed b ≡ false
    → is_malformed c ≡ false
    → before a b ≡ false
    → before b c ≡ false
    → before a c ≡ false
unfolding before
not_before_trans a b c fa fb fc h k = ground arith

before_irrefl : (a : PolicyEntry) → before a a ≡ false
unfolding before
before_irrefl a = ground arith

before_asym : (a b : PolicyEntry) → before a b ≡ true → before b a ≡ false
unfolding before
before_asym a b h = ground arith

abbrev pub IsFirst : PolicyEntry → List PolicyEntry → Type 0
IsFirst m xs = Member m xs × All (λ e. before e m ≡ false) xs

All-not_before :
    (x y : PolicyEntry) (xs : List PolicyEntry)
    → any is_malformed (x ∷ xs) ≡ false
    → is_malformed y ≡ false
    → before y x ≡ false
    → All (λ e. before e y ≡ false) xs
    → All (λ e. before e x ≡ false) xs
All-not_before x y [] f g h a = tt
All-not_before x y (e ∷ xs) f g h a = (
  not_before_trans e y x (ground arith) g (ground arith) a.0 h,
  All-not_before x y xs (ground arith) g h a.1,
)

any-false-Member :
    (m : PolicyEntry) (xs : List PolicyEntry)
    → any is_malformed xs ≡ false
    → Member m xs
    → is_malformed m ≡ false
any-false-Member m [] h r = elim r [ ]
any-false-Member m (x ∷ xs) h (here e) = ground arith
any-false-Member m (x ∷ xs) h (there r) = any-false-Member m xs (ground arith) r

better-IsFirst :
    (b : Bool) (x y : PolicyEntry) (xs : List PolicyEntry)
    → before y x ≡ b
    → any is_malformed (x ∷ xs) ≡ false
    → IsFirst y xs
    → IsFirst (if b then y else x) (x ∷ xs)
better-IsFirst true x y xs e f v = (there v.0, (before_asym y x e, v.1))
better-IsFirst false x y xs e f v = (
  here refl,
  (before_irrefl x, All-not_before x y xs f (any-false-Member y xs (ground arith) v.0) e v.1),
)

-- The sort's head is there exactly when the list has an element, and no element goes before it.
pub head?-sort :
    (xs : List PolicyEntry)
    → any is_malformed xs ≡ false
    → ((xs ≡ []) × (head? (sort xs) ≡ none))
      ⊎ ((m : PolicyEntry) × (head? (sort xs) ≡ some m) × IsFirst m xs)
unfolding sort
head?-sort [] f = inl (refl, refl)
head?-sort (x ∷ xs) f = inr (elim (head?-sort xs (ground arith)) [
  | inl (e, h) ↦ (x, rw (head?-insert x (sort xs), h) refl, rw e (here refl, (before_irrefl x, tt)))
  | inr (m, h, v) ↦ (
    better x (some m),
    rw (head?-insert x (sort xs), h) refl,
    better-IsFirst (before m x) x m xs refl f v,
  )
])
