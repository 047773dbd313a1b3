-- ===== src/ContextCodec/Plan.antt =====
-- The joined context and planContextSlices.
use commitment_workbench.Prelude.{
  ℕ, zero, suc, ◌+◌, not, List, [], ◌∷◌, ◌++◌, Text, ltb, length, if◌then◌else◌,
}
use commitment_workbench.ContextCodec.{
  Result, fail, error, ok, unencodable, slice_rows, slice_utf8_max,
}
use commitment_workbench.ContextCodec.Json.{utf8_bytes}

-- rows.join("\n")
unfoldable pub join_lines : List Text → Text
join_lines [] = []
join_lines (r ∷ []) = r
join_lines (r ∷ q ∷ rs) = r ++ 10 ∷ join_lines (q ∷ rs)

pub record Slice : Type 0 where
  pub start : ℕ
  pub count : ℕ
  pub utf8_bytes : ℕ

-- The inner loop of planContextSlices: the count, the bytes and the rows behind the slice.
unfoldable pub extend_slice : ℕ → ℕ → List Text → ℕ × (ℕ × List Text)
extend_slice count bytes [] = (count, (bytes, []))
extend_slice count bytes (r ∷ rs) =
    let extra = 1 + utf8_bytes r in
    let longer = extend_slice (count + 1) (bytes + extra) rs in
    if not (ltb count slice_rows)
    then (count, (bytes, r ∷ rs))
    else if ltb slice_utf8_max (bytes + extra)
    then (count, (bytes, r ∷ rs))
    else longer

abbrev pub cons_slice : Slice → Result (List Slice) → Result (List Slice)
cons_slice s (fail e) = fail e
cons_slice s error = error
cons_slice s (ok ss) = ok (s ∷ ss)

-- The outer loop, on fuel.
unfoldable pub plan_on : ℕ → ℕ → List Text → Result (List Slice)
unfolding extend_slice
plan_on fuel start [] = ok []
plan_on zero start (r ∷ rs) = ok []
plan_on (suc fuel) start (r ∷ rs) =
    let (count, (bytes, left)) = extend_slice 1 (utf8_bytes r) rs in
    let rest = plan_on fuel (start + count) left in
    if ltb slice_utf8_max (utf8_bytes r)
    then fail unencodable
    else cons_slice (record { start = start; count = count; utf8_bytes = bytes }) rest

-- Each slice has a row at least, so as much fuel as there are rows is enough.
unfoldable pub plan_context_slices : List Text → Result (List Slice)
unfolding plan_on
plan_context_slices rows = plan_on (length rows) 0 rows
