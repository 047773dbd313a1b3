-- ===== src/ContextCodec/Whole.antt =====
-- packRow and the loop of encodeWorkflowRlmContext on a whole envelope.
use commitment_workbench.Prelude.{
  ℕ, zero, suc, ◌+◌, ◌-◌, ◌≤◌, ◌<◌, ◌≡◌, ◌≢◌, length, refl, subst, ◌⊎◌, inl, inr, true, false, List,
  [], ◌∷◌, ◌++◌, arith, Text, leb, ltb, ◌==◌,
}
use commitment_workbench.ContextCodec.{fail, ok, row_limit, row_utf8_max, max_rows}
use commitment_workbench.ContextCodec.Json.{
  utf8_bytes, is_well_formed, json_bytes_on, json_string_utf8_bytes,
}
use commitment_workbench.ContextCodec.Rows.{
  row_prefix_utf8, serialized_row_utf8_bytes, row_text, take_fitting, Packed, pack_taken, pack_row,
  pack_rows,
}
use commitment_workbench.ContextCodec.Sizes.{serialized_row-bytes}
use commitment_workbench.ContextCodec.Packing.{
  IsCut, take_fitting-IsCut, take_fitting-cons, row_text-IsPrintable, Printable-is_clean,
  decimal-length,
}

-- A row of the context: what it says of itself is right, and it holds the front of the envelope, all of
-- it or so much of it that less than 6 bytes of the bound of a row are left.
pub record IsRow (index : ℕ) (envelope : Text) (p : Packed) : Type 0 where
  pub row_eq : p.row ≡ row_text index p.fragment
  pub whole : p.fragment ++ p.left ≡ envelope
  pub bytes_eq : p.bytes ≡ utf8_bytes p.row
  pub small : p.bytes ≤ row_utf8_max
  pub fragment_ok : is_well_formed p.fragment ≡ true
  pub left_ok : is_well_formed p.left ≡ true
  pub full : (p.left ≡ []) ⊎ (row_utf8_max < p.bytes + 6)

abbrev packed_of : ℕ → Text × Text → Packed
packed_of index r = record {
  fragment = r.0;
  row = row_text index r.0;
  bytes = utf8_bytes (row_text index r.0);
  left = r.1;
}

same_number : (n : ℕ) → (n == n) ≡ true
same_number n = ground arith

module _ (index budget : ℕ) (envelope : Text) (r : Text × Text) where
  row_size :
      IsCut budget 0 envelope r
      → budget + (row_prefix_utf8 index + 3) ≡ row_utf8_max
      → (utf8_bytes (row_text index r.0) ≤ row_utf8_max)
        × ((r.1 ≡ []) ⊎ (row_utf8_max < utf8_bytes (row_text index r.0) + 6))
  row_size cut h =
      let size = serialized_row-bytes index r.0 (unfold is_well_formed in cut.taken_ok) in
      let exact : serialized_row_utf8_bytes index r.0
          ≡ row_prefix_utf8 index + (2 + json_bytes_on false r.0) + 1 =
        unfold serialized_row_utf8_bytes json_string_utf8_bytes in refl in
      (
        omega (arith, size, exact, cut.fits, h),
        elim cut.full [ inl e ↦ inl e | inr l ↦ inr (omega (arith, size, exact, l, h)) ],
      )

  cut-IsRow :
      IsCut budget 0 envelope r
      → budget + (row_prefix_utf8 index + 3) ≡ row_utf8_max
      → IsRow index envelope (packed_of index r)
  cut-IsRow cut h = record {
    row_eq = refl;
    whole = cut.whole;
    bytes_eq = refl;
    small = (row_size cut h).0;
    fragment_ok = unfold is_well_formed in cut.taken_ok;
    left_ok = unfold is_well_formed in cut.left_ok;
    full = (row_size cut h).1;
  }

pack_taken_lem :
    (index : ℕ) (r : Text × Text) (d : ℕ) (ds : Text)
    → r.0 ≡ d ∷ ds
    → utf8_bytes (row_text index r.0) ≡ serialized_row_utf8_bytes index r.0
    → utf8_bytes (row_text index r.0) ≤ row_utf8_max
    → pack_taken index r ≡ ok (packed_of index r)
unfolding pack_taken
pack_taken_lem index ([], left) d ds e size small = cc
pack_taken_lem index (c ∷ cs, left) d ds e size small =
    let within : ltb row_utf8_max (utf8_bytes (row_text index (c ∷ cs))) ≡ false =
      ground (arith, small) in
    let same : (utf8_bytes (row_text index (c ∷ cs)) == serialized_row_utf8_bytes index (c ∷ cs))
        ≡ true =
      subst (λ n. (utf8_bytes (row_text index (c ∷ cs)) == n) ≡ true) size
        (same_number (utf8_bytes (row_text index (c ∷ cs)))) in
    rw
      (
        same,
        within,
        Printable-is_clean (row_text index (c ∷ cs)) (row_text-IsPrintable index (c ∷ cs)),
      )
      refl

prefix_small : (index : ℕ) → index < max_rows → row_prefix_utf8 index + 3 ≤ 16400
unfolding row_prefix_utf8
prefix_small index h = omega (arith, h, decimal-length index)

pub pack_row-IsRow :
    (index c : ℕ) (cs : Text)
    → is_well_formed (c ∷ cs) ≡ true
    → index < max_rows
    → (p : Packed) × (pack_row (c ∷ cs) index ≡ ok p) × IsRow index (c ∷ cs) p
unfolding pack_row is_well_formed
pack_row-IsRow index c cs h k =
    let small = prefix_small index k in
    let overhead = row_prefix_utf8 index + 1 + 2 in
    let budget = row_utf8_max - overhead in
    let room : leb row_utf8_max overhead ≡ false = ground (arith, small) in
    let r = take_fitting budget false 0 (c ∷ cs) in
    let cut = take_fitting-IsCut budget (c ∷ cs) 0 (omega arith) h in
    let (d, ds, e) = take_fitting-cons budget c cs (omega (arith, small)) in
    let row = cut-IsRow index budget (c ∷ cs) r cut (omega (arith, small)) in
    (
      packed_of index r,
      rw room (
          pack_taken_lem index r d ds e (serialized_row-bytes index r.0 row.fragment_ok) row.small),
      row,
    )

-- The rows of an envelope, one behind the other.
abbrev pub IsPacking : ℕ → Text → List Packed → Type 0
IsPacking index envelope [] = envelope ≡ []
IsPacking index envelope (p ∷ ps) = IsRow index envelope p × IsPacking (suc index) p.left ps

-- Rows that hold the front of an envelope and not all of it.
abbrev pub IsFront : ℕ → Text → List Packed → Type 0
IsFront index envelope [] = envelope ≢ []
IsFront index envelope (p ∷ ps) = IsRow index envelope p × IsFront (suc index) p.left ps

-- The loop ends with the whole envelope in rows, or with all the rows made that were free and some of
-- the envelope left.
pub pack_rows-IsPacking :
    (free index : ℕ) (envelope : Text)
    → free + index ≤ max_rows
    → is_well_formed envelope ≡ true
    → ((pack_rows free envelope index ≡ fail row_limit)
        × (ps : List Packed) × (length ps ≡ free)
        × IsFront index envelope ps)
      ⊎ ((ps : List Packed) × (pack_rows free envelope index ≡ ok ps) × IsPacking index envelope ps)
unfolding pack_rows
pack_rows-IsPacking free index [] h k = inr ([], refl, refl)
pack_rows-IsPacking zero index (c ∷ cs) h k = inl (refl, [], refl, λ e. cc)
pack_rows-IsPacking (suc free) index (c ∷ cs) h k =
    let (p, e, row) = pack_row-IsRow index c cs k (omega (arith, h)) in
    elim (pack_rows-IsPacking free (suc index) p.left (omega (arith, h)) row.left_ok) [
      | inl (f, ps, l, front) ↦ inl (rw (e, f) refl, p ∷ ps, omega (arith, l), (row, front))
      | inr (ps, f, rest) ↦ inr (p ∷ ps, rw (e, f) refl, (row, rest))
    ]
