-- ===== src/Audit/Chain/Tamper.antt =====
-- verify-chain.ts with a digest that has no collisions: the stored hash of a row and the rows before it.
use commitment_workbench.Prelude.{
  ◌≡◌, sym, ap, ap₂, ◌∙◌, ◌≢◌, inl, inr, Option, none, some, List, [], ◌∷◌, map, arith, Text,
  length,
}
use commitment_workbench.Audit.Hash.{field_texts, EntryHashFields}
use commitment_workbench.Audit.Hash.Framing.{compute_entry_hash_injective}
use commitment_workbench.Audit.Chain.{ChainEntry, verify_chain_range}
use commitment_workbench.Audit.Chain.Links.{
  MayFollow, newest_of, IsIntact, IsChain, verify_chain_range-clean_iff,
}

-- The rows after `e` continue its epoch, and none of them has sequence number 0.
abbrev pub IsRunPastGenesis : ChainEntry → List ChainEntry → Type 0
IsRunPastGenesis e [] = Unit {0}
IsRunPastGenesis e (x ∷ xs) =
    (e.epoch_id ≡ x.epoch_id) × (x.sequence_num ≢ 0) × IsRunPastGenesis x xs

prev_hash_of_linked :
    (e x : ChainEntry)
    → MayFollow e x
    → e.epoch_id ≡ x.epoch_id
    → x.sequence_num ≢ 0
    → x.prev_hash ≡ e.hash
prev_hash_of_linked e x (inl (_, inl z)) same nz = absurd (nz z)
prev_hash_of_linked e x (inl (_, inr p)) same nz = p
prev_hash_of_linked e x (inr (ne, _, _)) same nz = absurd (ne same)

-- The third of the framed fields.
third : List Text → Text
third [] = []
third (a ∷ []) = []
third (a ∷ b ∷ []) = []
third (a ∷ b ∷ c ∷ rest) = c

prev_hash_of_texts :
    (a b : EntryHashFields) → field_texts a ≡ field_texts b → a.prev_hash ≡ b.prev_hash
unfolding field_texts third
prev_hash_of_texts a b e = ap third e

abbrev pub texts_of : List ChainEntry → List (List Text)
texts_of = map (λ x. field_texts x.fields)

module _ (sha256 : Text → Text) (injective : (s t : Text) → sha256 s ≡ sha256 t → s ≡ t) where
  same_texts :
      (x y : ChainEntry)
      → IsIntact sha256 x
      → IsIntact sha256 y
      → x.hash ≡ y.hash
      → field_texts x.fields ≡ field_texts y.fields
  same_texts x y ix iy e =
      compute_entry_hash_injective sha256 injective x.fields y.fields (ix ∙ (e ∙ sym iy))

  same_run :
      (p q : Option ChainEntry) (x y : ChainEntry) (xs ys : List ChainEntry)
      → IsChain sha256 p (x ∷ xs)
      → IsChain sha256 q (y ∷ ys)
      → IsRunPastGenesis x xs
      → IsRunPastGenesis y ys
      → length xs ≡ length ys
      → (newest_of x xs).hash ≡ (newest_of y ys).hash
      → (x.hash ≡ y.hash) × (texts_of (x ∷ xs) ≡ texts_of (y ∷ ys))
  same_run p q x y [] [] cx cy rx ry l e = (e, ap (λ t. t ∷ []) (same_texts x y cx.0 cy.0 e))
  same_run p q x y [] (b ∷ ys) cx cy rx ry l e = absurd (omega arith)
  same_run p q x y (a ∷ xs) [] cx cy rx ry l e = absurd (omega arith)
  same_run p q x y (a ∷ xs) (b ∷ ys) cx cy rx ry l e =
      let (_, rest) = same_run (some x) (some y) a b xs ys cx.3 cy.3 rx.2 ry.2 (omega arith) e in
      let tail_eq : field_texts a.fields ≡ field_texts b.fields = same_head a b xs ys rest in
      let h : x.hash ≡ y.hash =
        sym (prev_hash_of_linked x a cx.3.2 rx.0 rx.1)
        ∙ (prev_hash_of_texts a.fields b.fields tail_eq
            ∙ prev_hash_of_linked y b cy.3.2 ry.0 ry.1) in
      (h, ap₂ ◌∷◌ (same_texts x y cx.0 cy.0 h) rest)
    where
      same_head :
          (a b : ChainEntry) (xs ys : List ChainEntry)
          → texts_of (a ∷ xs) ≡ texts_of (b ∷ ys)
          → field_texts a.fields ≡ field_texts b.fields
      same_head a b xs ys h = ground arith

  -- With a digest that has no collisions: take two ranges of the same length, each of one epoch, in
  -- which no row but the first may have sequence number 0. If the verifier reports no break in either, and
  -- their newest rows carry the same stored hash, then they agree row by row in every hashed field, an
  -- absent field counting as an empty one: under these conditions no hashed field of an earlier row can be
  -- changed under an unchanged newest hash.
  pub newest_hash_determines :
      (x y : ChainEntry) (xs ys : List ChainEntry)
      → (verify_chain_range sha256 (x ∷ xs) none).breaks ≡ []
      → (verify_chain_range sha256 (y ∷ ys) none).breaks ≡ []
      → IsRunPastGenesis x xs
      → IsRunPastGenesis y ys
      → length xs ≡ length ys
      → (newest_of x xs).hash ≡ (newest_of y ys).hash
      → texts_of (x ∷ xs) ≡ texts_of (y ∷ ys)
  newest_hash_determines x y xs ys h k rx ry l e =
      (same_run none none x y xs ys ((verify_chain_range-clean_iff sha256 x xs none).0 h).0
        ((verify_chain_range-clean_iff sha256 y ys none).0 k).0 rx ry l e).1
