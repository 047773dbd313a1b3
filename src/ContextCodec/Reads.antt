-- ===== src/ContextCodec/Reads.antt =====
-- planContextSlices against the splits of the rows into slices.
use commitment_workbench.Prelude.{
  ℕ, zero, suc, ◌+◌, ◌≤◌, ◌<◌, ◌≡◌, refl, sym, ap, ap₂, subst, ◌∙◌, inl, inr, false, List, [], ◌∷◌,
  ◌++◌, flatten, append_assoc, arith, All, Bool-cases, Text, length, length-append, ltb,
}
use commitment_workbench.ContextCodec.{ok, slice_rows, slice_utf8_max}
use commitment_workbench.ContextCodec.Json.{utf8_bytes}
use commitment_workbench.ContextCodec.Plan.{
  join_lines, Slice, extend_slice, plan_on, plan_context_slices, cons_slice,
}
use commitment_workbench.ContextCodec.Slices.{
  weight-append, join_lines-bytes, IsSlice, IsSplit, IsSlice-light, light-IsSlice, append_cases,
}

-- The row behind a slice does not fit into it.
abbrev IsMaximal : List Text → List Text → Type 0
IsMaximal g [] = Unit {0}
IsMaximal g (r ∷ rs) = ¬ (IsSlice (g ++ r ∷ []))

-- Each group takes all the rows that fit.
abbrev IsGreedy : List (List Text) → List Text → Type 0
IsGreedy [] rows = rows ≡ []
IsGreedy (g ∷ gs) rows =
    (left : List Text) × (rows ≡ g ++ left) × IsSlice g × IsMaximal g left × IsGreedy gs left

greedy-IsSplit : (gs : List (List Text)) (rows : List Text) → IsGreedy gs rows → IsSplit gs rows
unfolding mathlib.Core.List.flatten
greedy-IsSplit [] rows e = record { whole = sym e; slices = tt }
greedy-IsSplit (g ∷ gs) rows (left, e, s, _, k) =
    let rest = greedy-IsSplit gs left k in
    record { whole = ap (λ u. g ++ u) rest.whole ∙ sym e; slices = (s, rest.slices) }

-- A part of a slice is a slice.
suffix-IsSlice : (u w : List Text) (r : Text) → IsSlice (u ++ r ∷ w) → IsSlice (r ∷ w)
suffix-IsSlice u w r s =
    light-IsSlice r w (omega (arith, s.few, length-append u (r ∷ w)))
      (omega (arith, IsSlice-light (u ++ r ∷ w) s, weight-append u (r ∷ w)))

prefix-IsSlice : (h w : List Text) (r : Text) → IsSlice (h ++ r ∷ w) → IsSlice (h ++ r ∷ [])
prefix-IsSlice [] w r s = light-IsSlice r [] (omega arith) (omega (arith, IsSlice-light (r ∷ w) s))
prefix-IsSlice (q ∷ h) w r s =
    light-IsSlice q (h ++ r ∷ [])
      (omega (arith, s.few, length-append h (r ∷ w), length-append h (r ∷ [])))
      (omega (
        arith,
        IsSlice-light (q ∷ h ++ r ∷ w) s,
        weight-append h (r ∷ w),
        weight-append h (r ∷ []),
      ))

-- A greedy plan of the rest of the rows is no longer than a split of all of them.
ahead :
    (groups gs : List (List Text)) (u rows : List Text)
    → All IsSlice groups
    → flatten groups ≡ u ++ rows
    → IsGreedy gs rows
    → length gs ≤ length groups
unfolding mathlib.Core.List.flatten
ahead groups [] u rows a e k = omega arith
ahead [] (h ∷ gs) u rows a e (left, p, s, m, k) =
    omega (arith, ap length e, ap length p, length-append u rows, length-append h left, s.nonempty)
ahead (g ∷ groups) (h ∷ gs) u rows a e (left, p, s, m, k) =
    elim (append_cases g (flatten groups) u rows e) [
      | inl (w, q, f) ↦
          let rest = ahead groups (h ∷ gs) w rows a.1 f (left, p, s, m, k) in omega (arith, rest)
      | inr (r, w, q, f) ↦ elim (append_cases (r ∷ w) (flatten groups) h left (sym f ∙ p)) [
        | inl (v, _, f') ↦ omega (arith, ahead groups gs v left a.1 f' k)
        | inr (r', w', q', f') ↦
            let part = suffix-IsSlice u w r (subst IsSlice q a.0) in
            let more = prefix-IsSlice h w' r' (subst IsSlice q' part) in
            absurd (subst (IsMaximal h) f' m more)
      ]
    ]

snoc-bytes :
    (q : Text) (g : List Text) (r : Text)
    → utf8_bytes (join_lines ((q ∷ g) ++ r ∷ []))
      ≡ utf8_bytes (join_lines (q ∷ g)) + (1 + utf8_bytes r)
snoc-bytes q g r =
    omega (arith, join_lines-bytes q (g ++ r ∷ []), join_lines-bytes q g, weight-append g (r ∷ []))

-- The slice that the inner loop ends with.
record IsExtended (rows : List Text) (out : ℕ × (ℕ × List Text)) (h : List Text) : Type 0 where
  rows_eq : rows ≡ h ++ out.1.1
  count_eq : out.0 ≡ length h
  bytes_eq : out.1.0 ≡ utf8_bytes (join_lines h)
  slice : IsSlice h
  maximal : IsMaximal h out.1.1

snoc-IsSlice :
    (q : Text) (g : List Text) (r : Text)
    → length (q ∷ g) < slice_rows
    → utf8_bytes (join_lines (q ∷ g)) + (1 + utf8_bytes r) ≤ slice_utf8_max
    → IsSlice ((q ∷ g) ++ r ∷ [])
snoc-IsSlice q g r few small = record {
  nonempty = omega arith;
  few = omega (arith, few, length-append g (r ∷ []));
  small = omega (arith, small, snoc-bytes q g r);
}

extend_slice-IsExtended :
    (rs g : List Text) (q : Text) (count bytes : ℕ)
    → count ≡ length (q ∷ g)
    → bytes ≡ utf8_bytes (join_lines (q ∷ g))
    → IsSlice (q ∷ g)
    → (h : List Text) × IsExtended ((q ∷ g) ++ rs) (extend_slice count bytes rs) h
unfolding extend_slice
extend_slice-IsExtended [] g q count bytes c b s =
    (q ∷ g, record { rows_eq = refl; count_eq = c; bytes_eq = b; slice = s; maximal = tt })
extend_slice-IsExtended (r ∷ rs) g q count bytes c b s = elim (Bool-cases (ltb count slice_rows)) [
  | inr full ↦ (
    q ∷ g,
    rw full (record {
      rows_eq = refl;
      count_eq = c;
      bytes_eq = b;
      slice = s;
      maximal = λ k. ground (arith, k.few, length-append g (r ∷ []), full, c);
    }),
  )
  | inl free ↦ elim (Bool-cases (ltb slice_utf8_max (bytes + (1 + utf8_bytes r)))) [
    | inl large ↦ (
      q ∷ g,
      rw (free, large)
          (record {
            rows_eq = refl;
            count_eq = c;
            bytes_eq = b;
            slice = s;
            maximal = λ k. ground (arith, k.small, snoc-bytes q g r, large, b);
          }),
    )
    | inr fits ↦
        let longer = snoc-IsSlice q g r (ground (arith, free, c)) (ground (arith, fits, b)) in
        let (h, k) =
          extend_slice-IsExtended rs (g ++ r ∷ []) q (count + 1) (bytes + (1 + utf8_bytes r))
            (omega (arith, c, length-append g (r ∷ []))) (omega (arith, b, snoc-bytes q g r))
            longer in
        (
          h,
          rw (free, fits)
              (record {
                rows_eq = ap (λ u. q ∷ u) (sym (append_assoc g (r ∷ []) rs)) ∙ k.rows_eq;
                count_eq = k.count_eq;
                bytes_eq = k.bytes_eq;
                slice = k.slice;
                maximal = k.maximal;
              }),
        )
  ]
]

-- The slices that a split of the rows makes.
abbrev pub slices_of : ℕ → List (List Text) → List Slice
slices_of start [] = []
slices_of start (g ∷ gs) =
    record { start = start; count = length g; utf8_bytes = utf8_bytes (join_lines g) }
    ∷ slices_of (start + length g) gs

-- Every row can be read by itself.
abbrev pub IsReadable : List Text → Type 0
IsReadable = All (λ r. utf8_bytes r ≤ slice_utf8_max)

IsReadable-after : (h left : List Text) → IsReadable (h ++ left) → IsReadable left
IsReadable-after [] left a = a
IsReadable-after (r ∷ h) left a = IsReadable-after h left a.1

one_row-IsSlice : (r : Text) → utf8_bytes r ≤ slice_utf8_max → IsSlice (r ∷ [])
one_row-IsSlice r h = light-IsSlice r [] (omega arith) (omega (arith, h))

first_slice :
    (start n b : ℕ) (g : List Text) (gs : List (List Text))
    → n ≡ length g
    → b ≡ utf8_bytes (join_lines g)
    → cons_slice
        (record { start = start; count = n; utf8_bytes = b })
        (ok (slices_of (start + n) gs))
      ≡ ok (slices_of start (g ∷ gs))
first_slice start n b g gs c e =
    ap₂ (λ m d. ok (record { start = start; count = m; utf8_bytes = d } ∷ slices_of (start + m) gs))
      c e

plan_on-IsGreedy :
    (fuel start : ℕ) (rows : List Text)
    → length rows ≤ fuel
    → IsReadable rows
    → (gs : List (List Text)) × (plan_on fuel start rows ≡ ok (slices_of start gs))
      × IsGreedy gs rows
unfolding plan_on
plan_on-IsGreedy fuel start [] h a = ([], refl, refl)
plan_on-IsGreedy zero start (r ∷ rows) h a = absurd (omega (arith, h))
plan_on-IsGreedy (suc fuel) start (r ∷ rows) h a =
    let (g, k) =
      extend_slice-IsExtended rows [] r 1 (utf8_bytes r) refl (unfold join_lines in refl)
        (one_row-IsSlice r a.0) in
    let out = extend_slice 1 (utf8_bytes r) rows in
    let readable = IsReadable-after g out.1.1 (subst IsReadable k.rows_eq a) in
    let shorter : length out.1.1 ≤ fuel =
      omega (arith, ap length k.rows_eq, length-append g out.1.1, k.slice.nonempty, h) in
    let (gs, e, rest) = plan_on-IsGreedy fuel (start + out.0) out.1.1 shorter readable in
    let fits : ltb slice_utf8_max (utf8_bytes r) ≡ false = ground (arith, a.0) in
    (
      g ∷ gs,
      rw (fits, e) (first_slice start out.0 out.1.0 g gs k.count_eq k.bytes_eq),
      (out.1.1, k.rows_eq, k.slice, k.maximal, rest),
    )

length-slices_of : (start : ℕ) (gs : List (List Text)) → length (slices_of start gs) ≡ length gs
length-slices_of start [] = refl
length-slices_of start (g ∷ gs) = omega (arith, length-slices_of (start + length g) gs)

module _ (rows : List Text) (readable : IsReadable rows) where
  pub plan_context_slices-IsGreedy :
      (gs : List (List Text)) × (plan_context_slices rows ≡ ok (slices_of 0 gs)) × IsGreedy gs rows
  unfolding plan_context_slices
  plan_context_slices-IsGreedy = plan_on-IsGreedy (length rows) 0 rows (omega arith) readable

  -- Where every row is within the bound of a read, the plan is made: its slices are, one behind the
  -- other and with their exact bytes, a split of all the rows into groups of 1 to 64 rows that joined
  -- by newlines take at most 20,000 bytes.
  pub plan_context_slices-covers :
      (gs : List (List Text)) × (plan_context_slices rows ≡ ok (slices_of 0 gs)) × IsSplit gs rows
  plan_context_slices-covers =
      let (gs, e, k) = plan_context_slices-IsGreedy in (gs, e, greedy-IsSplit gs rows k)

  -- No way to split the rows into groups that can be read at once has fewer groups than the plan has
  -- slices, where every row can be read by itself.
  pub plan_context_slices-least :
      (plan : List Slice) (groups : List (List Text))
      → plan_context_slices rows ≡ ok plan
      → IsSplit groups rows
      → length plan ≤ length groups
  plan_context_slices-least plan groups p split =
      let (gs, e, k) = plan_context_slices-IsGreedy in
      let same : plan ≡ slices_of 0 gs = cc (p, e) in
      omega (
        arith,
        ap length same,
        length-slices_of 0 gs,
        ahead groups gs [] rows split.slices split.whole k,
      )
