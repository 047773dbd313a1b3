-- ===== src/ContextCodec/Decode.antt =====
-- The reconstruction that rlm-context-codec.ts documents: split the context at each newline, parse each
-- row as JSON, and join the fragments.
use commitment_workbench.Prelude.{
  ℕ, ◌+◌, ◌-◌, ◌*◌, ◌/◌, ◌%◌, ◌<◌, ◌≡◌, refl, ap, ◌∙◌, inl, inr, Bool, true, false, ◌&&◌, Option,
  none, some, List, [], ◌∷◌, ◌++◌, append_assoc, arith, Bool-cases, Text, codes, text_eq, leb, ltb,
  ◌==◌, drop, if◌then◌else◌,
}
use commitment_workbench.Prelude.Units.{has_short_escape}
use commitment_workbench.Audit.Hash.{decimal}
use commitment_workbench.Audit.Hash.Decimal.{IsDigits, decimal-IsDigits}
use commitment_workbench.ContextCodec.Json.{
  hex_digit, unicode_escape, short_escape, quote_unit, quote_on, is_well_formed, well_formed_on,
}
use commitment_workbench.ContextCodec.Rows.{row_text}
use commitment_workbench.ContextCodec.Sizes.{by_units, lone, after_pair, IsBasic, row_text_lem}

-- Where a reader of a JSON string stands: between units, behind a backslash, or in the digits of a
-- \u escape, with how many are left and the value so far.
pub data Mode : Type 0 where
  plain escaped : Mode
  digits : ℕ → ℕ → Mode

pub data Step : Type 0 where
  close : Step
  silent : Mode → Step
  emit : ℕ → Step

abbrev pub unescape : ℕ → ℕ
unescape c =
    if c == 98
    then 8
    else if c == 116
    then 9
    else if c == 110
    then 10
    else if c == 102
    then 12
    else if c == 114
    then 13
    else c

abbrev pub hex_value : ℕ → ℕ
hex_value c = if ltb c 58 then c - 48 else c - 87

abbrev pub step : Mode → ℕ → Step
step plain c = if c == 34 then close else if c == 92 then silent escaped else emit c
step escaped c = if c == 117 then silent (digits 3 0) else emit (unescape c)
step (digits n acc) c =
    if n == 0
    then emit (acc * 16 + hex_value c)
    else silent (digits (n - 1) (acc * 16 + hex_value c))

abbrev pub cons_unit : ℕ → Option Text → Option Text
cons_unit c none = none
cons_unit c (some s) = some (c ∷ s)

abbrev pub and_step : Text → Step → (Mode → Option Text) → Option Text
and_step cs close rest = if text_eq cs (codes "}") then some [] else none
and_step cs (silent k) rest = rest k
and_step cs (emit d) rest = cons_unit d (rest plain)

-- The string up to its closing quote, where the object ends behind it.
unfoldable pub unquote : Mode → Text → Option Text
unquote m [] = none
unquote m (c ∷ cs) = and_step cs (step m c) (λ k. unquote k cs)

abbrev pub is_decimal : ℕ → Bool
is_decimal c = leb 48 c && leb c 57

abbrev pub skip_digits : Text → Text
skip_digits [] = []
skip_digits (c ∷ cs) = let rest = skip_digits cs in if is_decimal c then rest else c ∷ cs

-- JSON.parse(row).c, for a row {"i":<digits>,"c":"..."}
unfoldable pub fragment_of : Text → Option Text
unfolding unquote
fragment_of row = unquote plain (drop 6 (skip_digits (drop 5 row)))

abbrev pub add_line : ℕ → List Text → List Text
add_line c [] = (c ∷ []) ∷ []
add_line c (l ∷ ls) = (c ∷ l) ∷ ls

-- split("\n")
unfoldable pub split_lines : Text → List Text
split_lines [] = [] ∷ []
split_lines (c ∷ cs) = let rest = split_lines cs in if c == 10 then [] ∷ rest else add_line c rest

abbrev pub joined : Option Text → Option Text → Option Text
joined none b = none
joined (some a) none = none
joined (some a) (some b) = some (a ++ b)

unfoldable pub fragments : List Text → Option Text
unfolding fragment_of
fragments [] = some []
fragments (r ∷ rs) = joined (fragment_of r) (fragments rs)

unfoldable pub read_context : Text → Option Text
unfolding split_lines fragments
read_context context = fragments (split_lines context)

short-unescape : (c : ℕ) → has_short_escape c ≡ true → step escaped (short_escape c) ≡ emit c
short-unescape c h = ground arith

hex_value-hex_digit : (d : ℕ) → d < 16 → hex_value (hex_digit d) ≡ d
hex_value-hex_digit d h = ground arith

escape_value :
    (c : ℕ)
    → c < 32
    → (((0 * 16 + hex_value (hex_digit (c / 4096))) * 16 + hex_value (hex_digit (c / 256 % 16)))
              * 16
            + hex_value (hex_digit (c / 16 % 16)))
          * 16
        + hex_value (hex_digit (c % 16))
      ≡ c
escape_value c h = omega (
  arith,
  h,
  hex_value-hex_digit (c / 4096) (omega arith),
  hex_value-hex_digit (c / 256 % 16) (omega arith),
  hex_value-hex_digit (c / 16 % 16) (omega arith),
  hex_value-hex_digit (c % 16) (omega arith),
)

unquote-escape :
    (c : ℕ) (u : Text)
    → c < 32
    → unquote plain (unicode_escape c ++ u) ≡ cons_unit c (unquote plain u)
unfolding unquote
unquote-escape c u h = ap (λ v. cons_unit v (unquote plain u)) (escape_value c h)

unquote-unit :
    (c : ℕ) (u s : Text)
    → IsBasic c
    → unquote plain u ≡ some s
    → unquote plain (quote_unit c ++ u) ≡ some (c ∷ s)
unfolding unquote
unquote-unit c u s h k = elim (Bool-cases (has_short_escape c)) [
  | inl e ↦ rw (e, short-unescape c e, k) refl
  | inr e ↦ elim (Bool-cases (ltb c 32)) [
    | inl f ↦ rw (e, f) (unquote-escape c u (ground (arith, f)) ∙ ap (cons_unit c) k)
    | inr f ↦ let same : step plain c ≡ emit c = ground (arith, e) in rw (e, f, h, same, k) refl
  ]
]

pub unquote-quote_on :
    (s : Text)
    → well_formed_on false s ≡ true
    → unquote plain (quote_on false s ++ codes "\"}") ≡ some s
unfolding unquote quote_on text_eq
unquote-quote_on =
    by_units
      (λ u.
        well_formed_on false u ≡ true → unquote plain (quote_on false u ++ codes "\"}") ≡ some u)
      (λ h. refl)
      (λ c cs e k h.
        let (basic, rest) = lone c cs e h in
        rw (e, append_assoc (quote_unit c) (quote_on false cs) (codes "\"}"))
          (unquote-unit c (quote_on false cs ++ codes "\"}") cs basic (k rest)))
      (λ c d cs e k h.
        let first : step plain c ≡ emit c = ground (arith, e) in
        let second : step plain d ≡ emit d = ground (arith, e) in
        rw (e, first, second, k (after_pair c d cs e h)) refl)

skip_digits-append :
    (a : Text) (c : ℕ) (b : Text)
    → IsDigits a
    → is_decimal c ≡ false
    → skip_digits (a ++ c ∷ b) ≡ c ∷ b
skip_digits-append [] c b h k = rw k refl
skip_digits-append (d ∷ a) c b h k = ground (arith, skip_digits-append a c b h.1 k, h.0.0, h.0.1)

-- A row reads back as its fragment.
pub fragment_of-row_text :
    (index : ℕ) (fragment : Text)
    → is_well_formed fragment ≡ true
    → fragment_of (row_text index fragment) ≡ some fragment
unfolding fragment_of is_well_formed
fragment_of-row_text index fragment h =
    ap fragment_of (row_text_lem index fragment)
    ∙ ap (λ u. unquote plain (drop 6 u))
        (skip_digits-append (decimal index) 44
          (codes "\"c\":\"" ++ (quote_on false fragment ++ codes "\"}")) (decimal-IsDigits index)
          refl)
    ∙ unquote-quote_on fragment h
