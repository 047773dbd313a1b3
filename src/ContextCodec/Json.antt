-- ===== src/ContextCodec/Json.antt =====
-- The built-in text functions that rlm-context-codec.ts uses, and its own counts of the same bytes.
use commitment_workbench.Prelude.{
  ℕ, ◌+◌, ◌/◌, ◌%◌, Bool, true, false, not, ◌&&◌, ◌||◌, [], ◌∷◌, ◌++◌, Text, ltb, ◌==◌,
  if◌then◌else◌,
}
use commitment_workbench.Prelude.Units.{is_high, is_low, low_first, has_short_escape}

-- The unit `c` with the unit behind it is a surrogate pair. In the loops below a flag says that the next
-- unit is the second of a pair.
abbrev pub is_pair : ℕ → Text → Bool
is_pair c cs = is_high c && low_first cs

-- TextEncoder: an unpaired surrogate becomes U+FFFD, of three bytes.
abbrev pub utf8_unit : ℕ → Bool → ℕ
utf8_unit c paired = if ltb c 128 then 1 else if ltb c 2048 then 2 else if paired then 4 else 3

unfoldable pub utf8_on : Bool → Text → ℕ
utf8_on skip [] = 0
utf8_on true (c ∷ cs) = utf8_on false cs
utf8_on false (c ∷ cs) = let paired = is_pair c cs in utf8_unit c paired + utf8_on paired cs

unfoldable pub utf8_bytes : Text → ℕ
unfolding utf8_on
utf8_bytes s = utf8_on false s

-- JSON.stringify of a string
abbrev pub hex_digit : ℕ → ℕ
hex_digit d = if ltb d 10 then 48 + d else 87 + d

abbrev pub unicode_escape : ℕ → Text
unicode_escape c =
    92
    ∷ 117
    ∷ hex_digit (c / 4096)
    ∷ hex_digit (c / 256 % 16)
    ∷ hex_digit (c / 16 % 16)
    ∷ hex_digit (c % 16)
    ∷ []

abbrev pub short_escape : ℕ → ℕ
short_escape c =
    if c == 8
    then 98
    else if c == 9
    then 116
    else if c == 10
    then 110
    else if c == 12
    then 102
    else if c == 13
    then 114
    else c

abbrev pub quote_unit : ℕ → Text
quote_unit c =
    if has_short_escape c
    then 92 ∷ short_escape c ∷ []
    else if ltb c 32 || is_high c || is_low c
    then unicode_escape c
    else c ∷ []

unfoldable pub quote_on : Bool → Text → Text
quote_on skip [] = []
quote_on true (c ∷ cs) = c ∷ quote_on false cs
quote_on false (c ∷ cs) =
    let paired = is_pair c cs in (if paired then c ∷ [] else quote_unit c) ++ quote_on paired cs

unfoldable pub json_string : Text → Text
unfolding quote_on
json_string s = 34 ∷ quote_on false s ++ 34 ∷ []

-- String.prototype.isWellFormed
unfoldable pub well_formed_on : Bool → Text → Bool
well_formed_on skip [] = true
well_formed_on true (c ∷ cs) = well_formed_on false cs
well_formed_on false (c ∷ cs) =
    let paired = is_pair c cs in (paired || not (is_high c || is_low c)) && well_formed_on paired cs

unfoldable pub is_well_formed : Text → Bool
unfolding well_formed_on
is_well_formed s = well_formed_on false s

-- What a unit adds, the second of a pair included.
abbrev pub json_char_utf8_bytes : ℕ → Bool → ℕ
json_char_utf8_bytes c paired =
    if has_short_escape c
    then 2
    else if ltb c 32
    then 6
    else if ltb c 128
    then 1
    else if ltb c 2048
    then 2
    else if paired
    then 4
    else 3

unfoldable pub json_bytes_on : Bool → Text → ℕ
json_bytes_on skip [] = 0
json_bytes_on true (c ∷ cs) = json_bytes_on false cs
json_bytes_on false (c ∷ cs) =
    let paired = is_pair c cs in json_char_utf8_bytes c paired + json_bytes_on paired cs

unfoldable pub json_string_utf8_bytes : Text → ℕ
unfolding json_bytes_on
json_string_utf8_bytes s = 2 + json_bytes_on false s
