-- ===== src/ContextCodec/Slices.antt =====
-- Slices of rows: the bytes of a joined slice, and the splits of the rows into slices.
use commitment_workbench.Prelude.{
  ℕ, ◌+◌, ◌≤◌, ◌≡◌, refl, sym, ◌⊎◌, inl, inr, false, List, [], ◌∷◌, ◌++◌, flatten, arith, All, Text,
  length,
}
use commitment_workbench.Prelude.Units.{low_first}
use commitment_workbench.ContextCodec.{slice_rows, slice_utf8_max}
use commitment_workbench.ContextCodec.Json.{is_pair, utf8_on, utf8_bytes}
use commitment_workbench.ContextCodec.Plan.{join_lines}
use commitment_workbench.ContextCodec.Sizes.{by_units}

pub is_pair-append :
    (c : ℕ) (cs b : Text) → low_first b ≡ false → is_pair c (cs ++ b) ≡ is_pair c cs
is_pair-append c [] b h = ground (arith, h)
is_pair-append c (d ∷ cs) b h = refl

-- Text that does not begin inside a pair adds its own bytes.
utf8-before : (a b : Text) → low_first b ≡ false → utf8_bytes (a ++ b) ≡ utf8_bytes a + utf8_bytes b
unfolding utf8_bytes utf8_on
utf8-before a b h =
    by_units (λ u. utf8_on false (u ++ b) ≡ utf8_on false u + utf8_on false b) (omega arith)
      (λ c cs e k. rw (is_pair-append c cs b h, e) (omega (arith, k)))
      (λ c d cs e k. rw e (omega (arith, k))) a

-- Each row counts its bytes and a separator.
abbrev pub weight : List Text → ℕ
weight [] = 0
weight (r ∷ rs) = 1 + utf8_bytes r + weight rs

pub weight-append : (a b : List Text) → weight (a ++ b) ≡ weight a + weight b
weight-append [] b = omega arith
weight-append (r ∷ a) b = omega (arith, weight-append a b)

pub join_lines-bytes :
    (r : Text) (rs : List Text) → utf8_bytes (join_lines (r ∷ rs)) + 1 ≡ weight (r ∷ rs)
unfolding join_lines
join_lines-bytes r [] = omega arith
join_lines-bytes r (q ∷ rs) =
    let whole = utf8-before r (10 ∷ join_lines (q ∷ rs)) refl in
    let newline : utf8_bytes (10 ∷ join_lines (q ∷ rs)) ≡ 1 + utf8_bytes (join_lines (q ∷ rs)) =
      unfold utf8_bytes utf8_on in refl in
    omega (arith, whole, newline, join_lines-bytes q rs)

-- What one read can hold.
pub record IsSlice (g : List Text) : Type 0 where
  pub nonempty : 1 ≤ length g
  pub few : length g ≤ slice_rows
  pub small : utf8_bytes (join_lines g) ≤ slice_utf8_max

-- The rows are the groups, in order, and each can be read at once.
pub record IsSplit (groups : List (List Text)) (rows : List Text) : Type 0 where
  pub whole : flatten groups ≡ rows
  pub slices : All IsSlice groups

pub IsSlice-light : (g : List Text) → IsSlice g → weight g ≤ slice_utf8_max + 1
IsSlice-light [] s = omega arith
IsSlice-light (r ∷ rs) s = omega (arith, join_lines-bytes r rs, s.small)

pub light-IsSlice :
    (r : Text) (rs : List Text)
    → length (r ∷ rs) ≤ slice_rows
    → weight (r ∷ rs) ≤ slice_utf8_max + 1
    → IsSlice (r ∷ rs)
light-IsSlice r rs few light = record {
  nonempty = omega arith;
  few = few;
  small = omega (arith, join_lines-bytes r rs, light);
}

-- Two ways to cut one list.
pub append_cases {ℓ} :
    {A : Type ℓ} (xs ys us vs : List A)
    → xs ++ ys ≡ us ++ vs
    → ((w : List A) × (us ≡ xs ++ w) × (ys ≡ w ++ vs))
      ⊎ ((a : A) × (w : List A) × (xs ≡ us ++ a ∷ w) × (vs ≡ (a ∷ w) ++ ys))
append_cases [] ys us vs e = inl (us, refl, e)
append_cases (x ∷ xs) ys [] vs e = inr (x, xs, refl, sym e)
append_cases (x ∷ xs) ys (u ∷ us) vs e =
    let head : x ≡ u = cc e in
    elim (append_cases xs ys us vs (cc e)) [
      | inl (w, p, q) ↦ inl (w, cc (head, p), q)
      | inr (a, w, p, q) ↦ inr (a, w, cc (head, p), q)
    ]
