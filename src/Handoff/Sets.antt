-- ===== src/Handoff/Sets.antt =====
-- equalStringSets: which lists of ids it takes for equal.
use commitment_workbench.Prelude.{
  ℕ, suc, ◌+◌, ◌<◌, ◌≡◌, refl, sym, ap, ap₂, ◌∙◌, ◌↔◌, inl, inr, true, false, ◌&&◌, List, [], ◌∷◌,
  arith, All, Bool-cases, Text, text_eq, text_eq→eq, text_eq_refl, text_lt, text_lt_irrefl,
  text_lt_trans, text_lt_total, length, if◌then◌else◌, ◌==◌,
}
use commitment_workbench.Handoff.{equal_string_sets, place_text, sort_texts, texts_eq}

-- How often a text is in a list
abbrev pub occurrences : Text → List Text → ℕ
occurrences t [] = 0
occurrences t (a ∷ rest) = (if text_eq t a then 1 else 0) + occurrences t rest

place-occurrences :
    (t a : Text) (xs : List Text) → occurrences t (place_text a xs) ≡ occurrences t (a ∷ xs)
place-occurrences t a [] = refl
place-occurrences t a (b ∷ bs) = elim (Bool-cases (text_lt b a)) [
  | inl h ↦ rw h (omega (arith, place-occurrences t a bs))
  | inr h ↦ rw h refl
]

sort-occurrences : (t : Text) (xs : List Text) → occurrences t (sort_texts xs) ≡ occurrences t xs
sort-occurrences t [] = refl
sort-occurrences t (a ∷ xs) =
    omega (arith, place-occurrences t a (sort_texts xs), sort-occurrences t xs)

place-length : (a : Text) (xs : List Text) → length (place_text a xs) ≡ suc (length xs)
place-length a [] = refl
place-length a (b ∷ bs) = elim (Bool-cases (text_lt b a)) [
  | inl h ↦ rw h (omega (arith, place-length a bs))
  | inr h ↦ rw h refl
]

sort-length : (xs : List Text) → length (sort_texts xs) ≡ length xs
sort-length [] = refl
sort-length (a ∷ xs) = omega (arith, place-length a (sort_texts xs), sort-length xs)

-- No text goes before an earlier one.
abbrev IsLeast : Text → List Text → Type 0
IsLeast a = All (λ b. text_lt b a ≡ false)

abbrev IsSorted : List Text → Type 0
IsSorted [] = Unit {0}
IsSorted (a ∷ rest) = IsLeast a rest × IsSorted rest

text_le_trans : (a b c : Text) → text_lt b a ≡ false → text_lt c b ≡ false → text_lt c a ≡ false
text_le_trans a b c h k = elim (Bool-cases (text_lt c a)) [
  | inr e ↦ e
  | inl e ↦ elim (Bool-cases (text_lt a b)) [
    | inl f ↦ absurd (cc (text_lt_trans c a b e f, k))
    | inr f ↦ absurd (cc (text_lt_total a b f h, e, k))
  ]
]

IsLeast-weaken : (a b : Text) (xs : List Text) → text_lt b a ≡ false → IsLeast b xs → IsLeast a xs
IsLeast-weaken a b [] h k = tt
IsLeast-weaken a b (c ∷ xs) h k = (text_le_trans a b c h k.0, IsLeast-weaken a b xs h k.1)

place-IsLeast :
    (m a : Text) (xs : List Text) → text_lt a m ≡ false → IsLeast m xs → IsLeast m (place_text a xs)
place-IsLeast m a [] h k = (h, tt)
place-IsLeast m a (b ∷ bs) h k = elim (Bool-cases (text_lt b a)) [
  | inl e ↦ rw e (k.0, place-IsLeast m a bs h k.1)
  | inr e ↦ rw e (h, k)
]

text_lt_asym : (a b : Text) → text_lt a b ≡ true → text_lt b a ≡ false
text_lt_asym a b h = elim (Bool-cases (text_lt b a)) [
  | inr e ↦ e
  | inl e ↦ absurd (cc (text_lt_trans a b a h e, text_lt_irrefl a))
]

place-IsSorted : (a : Text) (xs : List Text) → IsSorted xs → IsSorted (place_text a xs)
place-IsSorted a [] s = (tt, tt)
place-IsSorted a (b ∷ bs) s = elim (Bool-cases (text_lt b a)) [
  | inl e ↦ rw e (place-IsLeast b a bs (text_lt_asym b a e) s.0, place-IsSorted a bs s.1)
  | inr e ↦ rw e ((e, IsLeast-weaken a b bs e s.0), s)
]

sort-IsSorted : (xs : List Text) → IsSorted (sort_texts xs)
sort-IsSorted [] = tt
sort-IsSorted (a ∷ xs) = place-IsSorted a (sort_texts xs) (sort-IsSorted xs)

-- A text that is in a list is not before its least.
occurs-le :
    (t m : Text) (xs : List Text) → IsLeast m xs → 0 < occurrences t xs → text_lt t m ≡ false
occurs-le t m [] k h = absurd (omega arith)
occurs-le t m (a ∷ xs) k h = elim (Bool-cases (text_eq t a)) [
  | inl e ↦ cc (text_eq→eq t a e, k.0)
  | inr e ↦ occurs-le t m xs k.1 (rest e h)
]
  where
    rest :
        text_eq t a ≡ false
        → 0 < (if text_eq t a then 1 else 0) + occurrences t xs
        → 0 < occurrences t xs
    rest e h = ground (arith, e, h)

head_counts : (a : Text) (xs : List Text) → 0 < occurrences a (a ∷ xs)
head_counts a xs = rw (text_eq_refl a) (omega arith)

sorted_unique :
    (xs ys : List Text)
    → IsSorted xs
    → IsSorted ys
    → ((t : Text) → occurrences t xs ≡ occurrences t ys)
    → xs ≡ ys
sorted_unique [] [] s r h = refl
sorted_unique [] (b ∷ ys) s r h = absurd (omega (arith, h b, head_counts b ys))
sorted_unique (a ∷ xs) [] s r h = absurd (omega (arith, h a, head_counts a xs))
sorted_unique (a ∷ xs) (b ∷ ys) s r h =
    let low =
      occurs-le a b (b ∷ ys) (text_lt_irrefl b, r.0) (omega (arith, h a, head_counts a xs)) in
    let high =
      occurs-le b a (a ∷ xs) (text_lt_irrefl a, s.0) (omega (arith, h b, head_counts b ys)) in
    let same : a ≡ b = text_lt_total a b low high in
    ap₂ ◌∷◌ same (sorted_unique xs ys s.1 r.1 (λ t. tails t same))
  where
    tails : (t : Text) → a ≡ b → occurrences t xs ≡ occurrences t ys
    tails t e = omega (arith, h t, ap {B = ℕ} (λ c. if text_eq t c then 1 else 0) e)

texts_eq→eq : (xs ys : List Text) → texts_eq xs ys ≡ true → xs ≡ ys
texts_eq→eq [] [] h = refl
texts_eq→eq [] (b ∷ ys) h = cc
texts_eq→eq (a ∷ xs) [] h = cc
texts_eq→eq (a ∷ xs) (b ∷ ys) h =
    ap₂ ◌∷◌ (text_eq→eq a b (ground (arith, h))) (texts_eq→eq xs ys (ground (arith, h)))

texts_eq_refl : (xs : List Text) → texts_eq xs xs ≡ true
texts_eq_refl [] = refl
texts_eq_refl (a ∷ xs) = rw (text_eq_refl a) (texts_eq_refl xs)

-- Two lists are taken for equal exactly when each text is in both equally often, in whatever order.
pub equal_string_sets_iff :
    (a b : List Text)
    → (equal_string_sets a b ≡ true) ↔ ((t : Text) → occurrences t a ≡ occurrences t b)
unfolding equal_string_sets
equal_string_sets_iff a b = (
  (λ h t.
      let same = texts_eq→eq (sort_texts a) (sort_texts b) (ground (arith, h)) in
      sym (sort-occurrences t a) ∙ (ap (occurrences t) same ∙ sort-occurrences t b)),
  λ h.
      let same : sort_texts a ≡ sort_texts b =
        sorted_unique (sort_texts a) (sort_texts b) (sort-IsSorted a) (sort-IsSorted b)
          (λ t. sort-occurrences t a ∙ (h t ∙ sym (sort-occurrences t b))) in
      let long : length a ≡ length b = sym (sort-length a) ∙ (ap length same ∙ sort-length b) in
      rw (long, same) (both (length b) (sort_texts b)),
)
  where
    both : (n : ℕ) (xs : List Text) → (n == n && texts_eq xs xs) ≡ true
    both n xs = ground (arith, texts_eq_refl xs)
