-- ===== src/Audit/Hash/Framing.antt =====
-- The framing of hash.ts and the sequence of fields that it frames.
use commitment_workbench.Prelude.{
  ◌≡◌, refl, sym, ap₂, ◌∙◌, List, [], ◌∷◌, ◌++◌, append_assoc, flatten, arith, Text, length,
}
use commitment_workbench.Audit.Hash.{
  decimal, frame_field, EntryHashFields, field_texts, hash_input, compute_entry_hash,
}
use commitment_workbench.Audit.Hash.Decimal.{decimal_injective, IsDigits, decimal-IsDigits}

-- Up to the first `:` two texts that begin with digits agree in the digits and in what follows.
digits_split :
    (ds es s t : Text)
    → IsDigits ds
    → IsDigits es
    → ds ++ b':' ∷ s ≡ es ++ b':' ∷ t
    → (ds ≡ es) × (s ≡ t)
digits_split [] [] s t hd he e = (refl, ground arith)
digits_split [] (y ∷ es) s t hd he e = absurd (ground arith)
digits_split (x ∷ ds) [] s t hd he e = absurd (ground arith)
digits_split (x ∷ ds) (y ∷ es) s t hd he e =
    ground (arith, digits_split ds es s t hd.1 he.1 (ground arith))

append_split : (a b s t : Text) → length a ≡ length b → a ++ s ≡ b ++ t → (a ≡ b) × (s ≡ t)
append_split [] [] s t l e = (refl, e)
append_split [] (y ∷ b) s t l e = absurd (omega arith)
append_split (x ∷ a) [] s t l e = absurd (omega arith)
append_split (x ∷ a) (y ∷ b) s t l e =
    ground (arith, append_split a b s t (omega arith) (ground arith))

frame_split : (a b s t : Text) → frame_field a ++ s ≡ frame_field b ++ t → (a ≡ b) × (s ≡ t)
unfolding frame_field
frame_split a b s t e =
    let (d, r) =
      digits_split (decimal (length a)) (decimal (length b)) (a ++ s) (b ++ t)
        (decimal-IsDigits (length a)) (decimal-IsDigits (length b))
        (sym (append_assoc (decimal (length a)) (b':' ∷ a) s)
          ∙ (e ∙ append_assoc (decimal (length b)) (b':' ∷ b) t)) in
    append_split a b s t (decimal_injective (length a) (length b) d) r

-- Two sequences of as many fields whose framed concatenations are equal are equal: no choice of field
-- values can move a boundary between two fields.
pub hash_input_injective :
    (xs ys : List Text) → length xs ≡ length ys → hash_input xs ≡ hash_input ys → xs ≡ ys
unfolding hash_input mathlib.Core.List.flatten
hash_input_injective [] [] l e = refl
hash_input_injective [] (y ∷ ys) l e = absurd (omega arith)
hash_input_injective (x ∷ xs) [] l e = absurd (omega arith)
hash_input_injective (x ∷ xs) (y ∷ ys) l e =
    let (p, q) = frame_split x y (hash_input xs) (hash_input ys) e in
    ap₂ ◌∷◌ p (hash_input_injective xs ys (omega arith) q)

-- With a digest that has no collisions, rows with equal digests agree in every hashed field, an absent
-- field counting as an empty one.
pub compute_entry_hash_injective :
    (sha256 : Text → Text)
    → ((s t : Text) → sha256 s ≡ sha256 t → s ≡ t)
    → (a b : EntryHashFields) → compute_entry_hash sha256 a ≡ compute_entry_hash sha256 b
    → field_texts a ≡ field_texts b
unfolding compute_entry_hash
compute_entry_hash_injective sha256 injective a b e =
    hash_input_injective (field_texts a) (field_texts b) (unfold field_texts in refl)
      (injective _ _ e)
