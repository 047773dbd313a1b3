-- ===== src/ContextCodec/Rows.antt =====
-- packRow and the loop over the envelope.
use commitment_workbench.Prelude.{
  ℕ, zero, suc, ◌+◌, ◌-◌, max, Bool, true, false, not, ◌||◌, List, [], ◌∷◌, ◌++◌, Text, codes, leb,
  ltb, ◌==◌, any, length, if◌then◌else◌,
}
use commitment_workbench.Audit.Hash.{decimal}
use commitment_workbench.ContextCodec.{
  Result, fail, error, ok, row_limit, unencodable, row_utf8_max,
}
use commitment_workbench.ContextCodec.Json.{
  is_pair, utf8_bytes, json_char_utf8_bytes, json_string, json_string_utf8_bytes,
}

unfoldable pub row_prefix_utf8 : ℕ → ℕ
row_prefix_utf8 index = 5 + length (decimal index) + 5

unfoldable pub serialized_row_utf8_bytes : ℕ → Text → ℕ
unfolding row_prefix_utf8 json_string_utf8_bytes
serialized_row_utf8_bytes index fragment =
    row_prefix_utf8 index + json_string_utf8_bytes fragment + 1

-- JSON.stringify({ i: index, c: fragment })
unfoldable pub row_text : ℕ → Text → Text
unfolding json_string
row_text index fragment =
    codes "{\"i\":" ++ (decimal index ++ (codes ",\"c\":" ++ (json_string fragment ++ codes "}")))

-- The loop of packRow: what it takes of the envelope, and what is left.
unfoldable pub take_fitting : ℕ → Bool → ℕ → Text → Text × Text
take_fitting budget skip used [] = ([], [])
take_fitting budget true used (c ∷ cs) =
    let (taken, left) = take_fitting budget false used cs in (c ∷ taken, left)
take_fitting budget false used (c ∷ cs) =
    let paired = is_pair c cs in
    let sum = used + json_char_utf8_bytes c paired in
    let (taken, left) = take_fitting budget paired sum cs in
    if ltb budget sum then ([], c ∷ cs) else (c ∷ taken, left)

pub record Packed : Type 0 where
  pub fragment : Text
  pub row : Text
  pub bytes : ℕ
  pub left : Text

abbrev pub is_clean : Text → Bool
is_clean row = not (any (λ c. c == 10) row || any (λ c. c == 0) row)

abbrev pub checked : Packed → ℕ → Result Packed
checked p expected =
    if not (p.bytes == expected)
    then fail unencodable
    else if ltb row_utf8_max p.bytes || not (is_clean p.row)
    then fail unencodable
    else ok p

unfoldable pub pack_taken : ℕ → Text × Text → Result Packed
unfolding utf8_bytes row_text serialized_row_utf8_bytes
pack_taken index ([], left) = fail unencodable
pack_taken index (c ∷ cs, left) =
    let row = row_text index (c ∷ cs) in
    checked (record { fragment = c ∷ cs; row = row; bytes = utf8_bytes row; left = left })
      (serialized_row_utf8_bytes index (c ∷ cs))

-- The row with this index, from what is left of the envelope.
unfoldable pub pack_row : Text → ℕ → Result Packed
unfolding row_prefix_utf8 take_fitting pack_taken
pack_row envelope index =
    let overhead = row_prefix_utf8 index + 1 + 2 in
    if leb row_utf8_max overhead
    then fail unencodable
    else pack_taken index (take_fitting (row_utf8_max - overhead) false 0 envelope)

abbrev pub cons_row : Packed → Result (List Packed) → Result (List Packed)
cons_row p (fail e) = fail e
cons_row p error = error
cons_row p (ok ps) = ok (p ∷ ps)

-- The next row, then the rows of what it leaves.
abbrev pub and_rows : Result Packed → (Text → Result (List Packed)) → Result (List Packed)
and_rows (fail e) rows = fail e
and_rows error rows = error
and_rows (ok p) rows = cons_row p (rows p.left)

-- The loop of encodeWorkflowRlmContext over the envelope: `free` is how many rows may still be added.
unfoldable pub pack_rows : ℕ → Text → ℕ → Result (List Packed)
pack_rows free [] index = ok []
pack_rows zero (c ∷ cs) index = fail row_limit
pack_rows (suc free) (c ∷ cs) index =
    and_rows (pack_row (c ∷ cs) index) (λ left. pack_rows free left (suc index))

abbrev pub max_row_bytes : ℕ → List Packed → ℕ
max_row_bytes acc [] = acc
max_row_bytes acc (p ∷ ps) = max_row_bytes (max acc p.bytes) ps
