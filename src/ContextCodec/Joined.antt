-- ===== src/ContextCodec/Joined.antt =====
-- The rows of encodeWorkflowRlmContext joined to a context.
use commitment_workbench.Prelude.{
  ℕ, suc, ◌≡◌, refl, sym, ap, ap₂, subst, ◌∙◌, true, false, some, List, [], ◌∷◌, ◌++◌, map,
  append_assoc, arith, All, Text, codes, ◌==◌, any, any-append,
}
use commitment_workbench.Prelude.Units.{low_first}
use commitment_workbench.Audit.Hash.{decimal}
use commitment_workbench.Audit.Hash.Decimal.{decimal-IsDigits}
use commitment_workbench.ContextCodec.Json.{
  is_pair, quote_unit, quote_on, is_well_formed, well_formed_on,
}
use commitment_workbench.ContextCodec.Rows.{row_text, Packed}
use commitment_workbench.ContextCodec.Plan.{join_lines}
use commitment_workbench.ContextCodec.Sizes.{
  by_units, lone, after_pair, IsBasic, not_paired, IsAscii, Ascii-IsBasic, all-IsAscii,
  Digits-IsAscii, row_text_lem, quote_unit-IsBasic,
}
use commitment_workbench.ContextCodec.Packing.{IsPrintable, row_text-IsPrintable, absent}
use commitment_workbench.ContextCodec.Whole.{IsPacking}
use commitment_workbench.ContextCodec.Slices.{is_pair-append}
use commitment_workbench.ContextCodec.Reads.{IsReadable}
use commitment_workbench.ContextCodec.Decode.{
  split_lines, fragments, fragment_of, joined, read_context, fragment_of-row_text,
}

-- The rows of the context
abbrev pub rows_of : List Packed → List Text
rows_of ps = map (λ q. q.row) ps

well_formed-basic :
    (a b : Text)
    → All IsBasic a
    → well_formed_on false b ≡ true
    → well_formed_on false (a ++ b) ≡ true
unfolding well_formed_on
well_formed-basic [] b h k = k
well_formed-basic (c ∷ a) b h k = rw (not_paired c (a ++ b) h.0, h.0) (well_formed-basic a b h.1 k)

well_formed-append :
    (a b : Text)
    → low_first b ≡ false
    → well_formed_on false b ≡ true
    → well_formed_on false a ≡ true
    → well_formed_on false (a ++ b) ≡ true
unfolding well_formed_on
well_formed-append a b h k =
    by_units (λ u. well_formed_on false u ≡ true → well_formed_on false (u ++ b) ≡ true) (λ _. k)
      (λ c cs e ih w.
        let (basic, rest) = lone c cs e w in rw (is_pair-append c cs b h, e, basic) (ih rest))
      (λ c d cs e ih w. rw e (ih (after_pair c d cs e w))) a

pair-well_formed :
    (c d : ℕ) (u : Text)
    → is_pair c (d ∷ u) ≡ true
    → well_formed_on false u ≡ true
    → well_formed_on false (c ∷ d ∷ u) ≡ true
unfolding well_formed_on
pair-well_formed c d u e h = rw e h

quote_on-well_formed :
    (s t : Text)
    → well_formed_on false t ≡ true
    → well_formed_on false s ≡ true
    → well_formed_on false (quote_on false s ++ t) ≡ true
unfolding quote_on
quote_on-well_formed s t k =
    by_units
      (λ u. well_formed_on false u ≡ true → well_formed_on false (quote_on false u ++ t) ≡ true)
      (λ _. k)
      (λ c cs e ih w.
        let (basic, rest) = lone c cs e w in
        rw (e, append_assoc (quote_unit c) (quote_on false cs) t)
          (well_formed-basic (quote_unit c) (quote_on false cs ++ t) (quote_unit-IsBasic c basic)
            (ih rest)))
      (λ c d cs e ih w.
        rw e (pair-well_formed c d (quote_on false cs ++ t) e (ih (after_pair c d cs e w))))
      s

row-well_formed :
    (index : ℕ) (fragment : Text)
    → is_well_formed fragment ≡ true
    → is_well_formed (row_text index fragment) ≡ true
unfolding is_well_formed
row-well_formed index fragment h =
    let close : well_formed_on false (codes "\"}") ≡ true = unfold well_formed_on in refl in
    let quoted = quote_on-well_formed fragment (codes "\"}") close h in
    let front : (s u : Text)
        → All IsAscii s
        → well_formed_on false u ≡ true
        → well_formed_on false (s ++ u) ≡ true =
      λ s u a w. well_formed-basic s u (Ascii-IsBasic s a) w in
    subst (λ u. well_formed_on false u ≡ true) (sym (row_text_lem index fragment))
      (front (codes "{\"i\":")
        (decimal index ++ (codes ",\"c\":\"" ++ (quote_on false fragment ++ codes "\"}")))
        (all-IsAscii (codes "{\"i\":") refl)
        (front (decimal index) (codes ",\"c\":\"" ++ (quote_on false fragment ++ codes "\"}"))
          (Digits-IsAscii (decimal index) (decimal-IsDigits index))
          (front (codes ",\"c\":\"") (quote_on false fragment ++ codes "\"}")
            (all-IsAscii (codes ",\"c\":\"") refl) quoted)))

pub join_lines-well_formed :
    (rows : List Text)
    → All (λ r. is_well_formed r ≡ true) rows
    → is_well_formed (join_lines rows) ≡ true
unfolding join_lines is_well_formed
join_lines-well_formed [] h = unfold well_formed_on in refl
join_lines-well_formed (r ∷ []) h = h.0
join_lines-well_formed (r ∷ q ∷ rs) h =
    well_formed-append r (10 ∷ join_lines (q ∷ rs)) refl
      (unfold well_formed_on in join_lines-well_formed (q ∷ rs) h.1) h.0

pub join_lines-no_nul :
    (rows : List Text) → All (All IsPrintable) rows → any (λ c. c == 0) (join_lines rows) ≡ false
unfolding join_lines
join_lines-no_nul [] h = refl
join_lines-no_nul (r ∷ []) h = absent 0 r (omega arith) h.0
join_lines-no_nul (r ∷ q ∷ rs) h =
    rw (any-append (λ c. c == 0) r (10 ∷ join_lines (q ∷ rs)), absent 0 r (omega arith) h.0)
      (join_lines-no_nul (q ∷ rs) h.1)

split_lines-line : (r : Text) → All IsPrintable r → split_lines r ≡ r ∷ []
unfolding split_lines
split_lines-line [] h = refl
split_lines-line (c ∷ r) h =
    let other : (c == 10) ≡ false = ground (arith, h.0) in rw (other, split_lines-line r h.1) refl

split_lines-append :
    (r t : Text) → All IsPrintable r → split_lines (r ++ 10 ∷ t) ≡ r ∷ split_lines t
unfolding split_lines
split_lines-append [] t h = refl
split_lines-append (c ∷ r) t h =
    let other : (c == 10) ≡ false = ground (arith, h.0) in
    rw (other, split_lines-append r t h.1) refl

split_lines-join_lines :
    (r : Text) (rs : List Text)
    → All (All IsPrintable) (r ∷ rs)
    → split_lines (join_lines (r ∷ rs)) ≡ r ∷ rs
unfolding join_lines
split_lines-join_lines r [] h = split_lines-line r h.0
split_lines-join_lines r (q ∷ rs) h =
    split_lines-append r (join_lines (q ∷ rs)) h.0
    ∙ ap (λ u. r ∷ u) (split_lines-join_lines q rs h.1)

-- What the rows of a packing are.
pub record Rows (rows : List Text) : Type 0 where
  pub printable : All (All IsPrintable) rows
  pub formed : All (λ r. is_well_formed r ≡ true) rows
  pub readable : IsReadable rows

pub packing-Rows :
    (index : ℕ) (envelope : Text) (ps : List Packed)
    → IsPacking index envelope ps
    → Rows (rows_of ps)
packing-Rows index envelope [] k = record { printable = tt; formed = tt; readable = tt }
packing-Rows index envelope (p ∷ ps) (row, k) =
    let rest = packing-Rows (suc index) p.left ps k in
    record {
      printable = (
        subst (All IsPrintable) (sym row.row_eq) (row_text-IsPrintable index p.fragment),
        rest.printable,
      );
      formed = (
        ap is_well_formed row.row_eq ∙ row-well_formed index p.fragment row.fragment_ok,
        rest.formed,
      );
      readable = (omega (arith, row.bytes_eq, row.small), rest.readable);
    }

packing-fragments :
    (index : ℕ) (envelope : Text) (ps : List Packed)
    → IsPacking index envelope ps
    → fragments (rows_of ps) ≡ some envelope
unfolding fragments
packing-fragments index envelope [] k = ap some (sym k)
packing-fragments index envelope (p ∷ ps) (row, k) =
    ap₂ joined (ap fragment_of row.row_eq ∙ fragment_of-row_text index p.fragment row.fragment_ok)
      (packing-fragments (suc index) p.left ps k)
    ∙ ap some row.whole

-- The rows of a packing, joined, read back as the envelope.
pub packing-read_context :
    (index : ℕ) (envelope : Text) (p : Packed) (ps : List Packed)
    → IsPacking index envelope (p ∷ ps)
    → read_context (join_lines (rows_of (p ∷ ps))) ≡ some envelope
unfolding read_context
packing-read_context index envelope p ps k =
    let rows = packing-Rows index envelope (p ∷ ps) k in
    ap fragments (split_lines-join_lines p.row (rows_of ps) rows.printable)
    ∙ packing-fragments index envelope (p ∷ ps) k
