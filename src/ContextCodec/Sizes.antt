-- ===== src/ContextCodec/Sizes.antt =====
-- The byte counts of rlm-context-codec.ts and the UTF-8 lengths of the texts they are about.
use commitment_workbench.Prelude.{
  ℕ, ◌+◌, ◌/◌, ◌%◌, ◌<◌, ◌≡◌, refl, ap, subst, ◌∙◌, inl, inr, true, false, not, ◌&&◌, ◌||◌, [], ◌∷◌,
  ◌++◌, append_assoc, arith, All, Bool-cases, Text, codes, ltb, all, length,
}
use commitment_workbench.Prelude.Units.{is_high, is_low, has_short_escape}
use commitment_workbench.Audit.Hash.{decimal}
use commitment_workbench.Audit.Hash.Decimal.{IsDigits, decimal-IsDigits}
use commitment_workbench.ContextCodec.Json.{
  is_pair, utf8_unit, utf8_on, utf8_bytes, hex_digit, unicode_escape, short_escape, quote_unit,
  quote_on, json_string, well_formed_on, is_well_formed, json_char_utf8_bytes, json_bytes_on,
  json_string_utf8_bytes,
}
use commitment_workbench.ContextCodec.Rows.{row_prefix_utf8, serialized_row_utf8_bytes, row_text}

-- A text is read by units that stand alone and by pairs.
pub by_units {ℓ} :
    (P : Text → Type ℓ)
    → P []
    → ((c : ℕ) (cs : Text) → is_pair c cs ≡ false → P cs → P (c ∷ cs))
    → ((c d : ℕ) (cs : Text) → is_pair c (d ∷ cs) ≡ true → P cs → P (c ∷ d ∷ cs))
    → (s : Text) → P s
by_units P empty one two [] = empty
by_units P empty one two (c ∷ []) = one c [] (ground arith) empty
by_units P empty one two (c ∷ d ∷ cs) = elim (Bool-cases (is_pair c (d ∷ cs))) [
  | inr e ↦ one c (d ∷ cs) e (by_units P empty one two (d ∷ cs))
  | inl e ↦ two c d cs e (by_units P empty one two cs)
]

-- A unit that is no half of a pair.
abbrev pub IsBasic : ℕ → Type 0
IsBasic c = (is_high c || is_low c) ≡ false

pub not_paired : (c : ℕ) (cs : Text) → IsBasic c → is_pair c cs ≡ false
not_paired c cs h = ground arith

pub utf8-append : (a b : Text) → All IsBasic a → utf8_bytes (a ++ b) ≡ utf8_bytes a + utf8_bytes b
unfolding utf8_bytes utf8_on
utf8-append [] b h = omega arith
utf8-append (c ∷ a) b h =
    rw (not_paired c (a ++ b) h.0, not_paired c a h.0) (omega (arith, utf8-append a b h.1))

abbrev pub IsAscii : ℕ → Type 0
IsAscii c = c < 128

pub Ascii-IsBasic : (s : Text) → All IsAscii s → All IsBasic s
Ascii-IsBasic [] h = tt
Ascii-IsBasic (c ∷ s) h = (basic, Ascii-IsBasic s h.1)
  where
    basic : IsBasic c
    basic = ground (arith, h.0)

pub utf8-ascii : (s : Text) → All IsAscii s → utf8_bytes s ≡ length s
unfolding utf8_bytes utf8_on
utf8-ascii [] h = refl
utf8-ascii (c ∷ s) h =
    let small : ltb c 128 ≡ true = ground (arith, h.0) in
    rw (not_paired c s (Ascii-IsBasic (c ∷ s) h).0, small) (omega (arith, utf8-ascii s h.1))

hex_digit-IsAscii : (d : ℕ) → d < 16 → IsAscii (hex_digit d)
hex_digit-IsAscii d h = ground arith

escape-IsAscii : (c : ℕ) → c < 32 → All IsAscii (unicode_escape c)
escape-IsAscii c h = (
  omega arith,
  (
    omega arith,
    (
      hex_digit-IsAscii (c / 4096) (omega arith),
      (
        hex_digit-IsAscii (c / 256 % 16) (omega arith),
        (
          hex_digit-IsAscii (c / 16 % 16) (omega arith),
          (hex_digit-IsAscii (c % 16) (omega arith), tt),
        ),
      ),
    ),
  ),
)

short-IsAscii : (c : ℕ) → has_short_escape c ≡ true → IsAscii (short_escape c)
short-IsAscii c h = ground arith

-- What stands in quotes for a unit outside a pair, by the three forms it can have.
data Quoted (c : ℕ) : Text → ℕ → Type 0 where
  short : All IsAscii (92 ∷ short_escape c ∷ []) → Quoted c (92 ∷ short_escape c ∷ []) 2
  control : All IsAscii (unicode_escape c) → Quoted c (unicode_escape c) 6
  itself : Quoted c (c ∷ []) (utf8_unit c false)

quote_unit-Quoted : (c : ℕ) → IsBasic c → Quoted c (quote_unit c) (json_char_utf8_bytes c false)
quote_unit-Quoted c h = elim (Bool-cases (has_short_escape c)) [
  | inl e ↦ rw e (short (omega arith, (short-IsAscii c e, tt)))
  | inr e ↦ elim (Bool-cases (ltb c 32)) [
    | inl k ↦ rw (e, k) (control (escape-IsAscii c (ground arith)))
    | inr k ↦ rw (e, k, h) itself
  ]
]

Quoted-bytes :
    (c n : ℕ) (q u : Text) → IsBasic c → Quoted c q n → utf8_bytes (q ++ u) ≡ n + utf8_bytes u
Quoted-bytes c n q u h (short a) =
    utf8-append (92 ∷ short_escape c ∷ []) u (Ascii-IsBasic (92 ∷ short_escape c ∷ []) a)
    ∙ ap (λ k. k + utf8_bytes u) (utf8-ascii (92 ∷ short_escape c ∷ []) a)
Quoted-bytes c n q u h (control a) =
    utf8-append (unicode_escape c) u (Ascii-IsBasic (unicode_escape c) a)
    ∙ ap (λ k. k + utf8_bytes u) (utf8-ascii (unicode_escape c) a)
Quoted-bytes c n q u h itself = unfold utf8_bytes utf8_on in rw (not_paired c u h) refl

Quoted-IsBasic : (c n : ℕ) (q : Text) → IsBasic c → Quoted c q n → All IsBasic q
Quoted-IsBasic c n q h (short a) = Ascii-IsBasic (92 ∷ short_escape c ∷ []) a
Quoted-IsBasic c n q h (control a) = Ascii-IsBasic (unicode_escape c) a
Quoted-IsBasic c n q h itself = (h, tt)

pub quote_unit-IsBasic : (c : ℕ) → IsBasic c → All IsBasic (quote_unit c)
quote_unit-IsBasic c h =
    Quoted-IsBasic c (json_char_utf8_bytes c false) (quote_unit c) h (quote_unit-Quoted c h)

quote_unit-bytes :
    (c : ℕ) (u : Text)
    → IsBasic c
    → utf8_bytes (quote_unit c ++ u) ≡ json_char_utf8_bytes c false + utf8_bytes u
quote_unit-bytes c u h =
    Quoted-bytes c (json_char_utf8_bytes c false) (quote_unit c) u h (quote_unit-Quoted c h)

paired-bytes :
    (c d : ℕ) (u : Text) → is_pair c (d ∷ u) ≡ true → utf8_bytes (c ∷ d ∷ u) ≡ 4 + utf8_bytes u
unfolding utf8_bytes utf8_on
paired-bytes c d u e = rw e (ap (λ n. n + utf8_on false u) four)
  where
    four : utf8_unit c true ≡ 4
    four = ground arith

paired_size : (c d : ℕ) (u : Text) → is_pair c (d ∷ u) ≡ true → json_char_utf8_bytes c true ≡ 4
paired_size c d u e = ground arith

pub lone :
    (c : ℕ) (cs : Text)
    → is_pair c cs ≡ false
    → well_formed_on false (c ∷ cs) ≡ true
    → IsBasic c × (well_formed_on false cs ≡ true)
unfolding well_formed_on
lone c cs e h =
    let k : (not (is_high c || is_low c) && well_formed_on false cs) ≡ true =
      subst (λ b. ((b || not (is_high c || is_low c)) && well_formed_on b cs) ≡ true) e h in
    (ground (arith, k), ground (arith, k))

lone-bytes :
    (c : ℕ) (cs t : Text)
    → is_pair c cs ≡ false
    → IsBasic c
    → utf8_bytes (quote_on false cs ++ t) ≡ json_bytes_on false cs + utf8_bytes t
    → utf8_bytes (quote_on false (c ∷ cs) ++ t) ≡ json_bytes_on false (c ∷ cs) + utf8_bytes t
unfolding quote_on json_bytes_on
lone-bytes c cs t e h k =
    rw (e, append_assoc (quote_unit c) (quote_on false cs) t)
      (quote_unit-bytes c (quote_on false cs ++ t) h ∙ omega (arith, k))

pair-bytes :
    (c d : ℕ) (cs t : Text)
    → is_pair c (d ∷ cs) ≡ true
    → utf8_bytes (quote_on false cs ++ t) ≡ json_bytes_on false cs + utf8_bytes t
    → utf8_bytes (quote_on false (c ∷ d ∷ cs) ++ t)
      ≡ json_bytes_on false (c ∷ d ∷ cs) + utf8_bytes t
unfolding quote_on json_bytes_on
pair-bytes c d cs t e k =
    let four = paired_size c d cs e in
    rw e (paired-bytes c d (quote_on false cs ++ t) e ∙ omega (arith, k, four))

pub after_pair :
    (c d : ℕ) (cs : Text)
    → is_pair c (d ∷ cs) ≡ true
    → well_formed_on false (c ∷ d ∷ cs) ≡ true
    → well_formed_on false cs ≡ true
unfolding well_formed_on
after_pair c d cs e h =
    subst (λ b. ((b || not (is_high c || is_low c)) && well_formed_on b (d ∷ cs)) ≡ true) e h

pub quote_on-bytes :
    (s t : Text)
    → well_formed_on false s ≡ true
    → utf8_bytes (quote_on false s ++ t) ≡ json_bytes_on false s + utf8_bytes t
quote_on-bytes s t =
    by_units
      (λ u.
        well_formed_on false u ≡ true
        → utf8_bytes (quote_on false u ++ t) ≡ json_bytes_on false u + utf8_bytes t)
      (λ h. unfold quote_on json_bytes_on in omega arith)
      (λ c cs e k h. let (basic, rest) = lone c cs e h in lone-bytes c cs t e basic (k rest))
      (λ c d cs e k h. pair-bytes c d cs t e (k (after_pair c d cs e h))) s

pub Digits-IsAscii : (s : Text) → IsDigits s → All IsAscii s
Digits-IsAscii [] h = tt
Digits-IsAscii (c ∷ s) h = (omega (arith, h.0.1), Digits-IsAscii s h.1)

pub ascii-append : (a b : Text) → All IsAscii a → utf8_bytes (a ++ b) ≡ length a + utf8_bytes b
ascii-append a b h =
    utf8-append a b (Ascii-IsBasic a h) ∙ ap (λ n. n + utf8_bytes b) (utf8-ascii a h)

pub all-IsAscii : (s : Text) → all (λ c. ltb c 128) s ≡ true → All IsAscii s
all-IsAscii [] h = tt
all-IsAscii (c ∷ s) h = (ground (arith, h), all-IsAscii s (ground (arith, h)))

-- The row with its last two parts joined.
pub row_text_lem :
    (index : ℕ) (fragment : Text)
    → row_text index fragment
      ≡ codes "{\"i\":"
        ++ (decimal index ++ (codes ",\"c\":\"" ++ (quote_on false fragment ++ codes "\"}")))
unfolding row_text json_string
row_text_lem index fragment =
    ap (λ u. codes "{\"i\":" ++ (decimal index ++ (codes ",\"c\":\"" ++ u)))
      (append_assoc (quote_on false fragment) (codes "\"") (codes "}"))

-- What the code predicts for a row is its length in UTF-8, where the fragment is well-formed.
pub serialized_row-bytes :
    (index : ℕ) (fragment : Text)
    → is_well_formed fragment ≡ true
    → utf8_bytes (row_text index fragment) ≡ serialized_row_utf8_bytes index fragment
unfolding serialized_row_utf8_bytes row_prefix_utf8 json_string_utf8_bytes is_well_formed
serialized_row-bytes index fragment h =
    let close = codes "\"}" in
    let quoted = quote_on-bytes fragment close h in
    let tail =
      ascii-append (codes ",\"c\":\"") (quote_on false fragment ++ close)
        (all-IsAscii (codes ",\"c\":\"") refl) in
    let number =
      ascii-append (decimal index) (codes ",\"c\":\"" ++ (quote_on false fragment ++ close))
        (Digits-IsAscii (decimal index) (decimal-IsDigits index)) in
    let front =
      ascii-append (codes "{\"i\":")
        (decimal index ++ (codes ",\"c\":\"" ++ (quote_on false fragment ++ close)))
        (all-IsAscii (codes "{\"i\":") refl) in
    let two = utf8-ascii close (all-IsAscii close refl) in
    ap utf8_bytes (row_text_lem index fragment) ∙ omega (arith, quoted, tail, number, front, two)
