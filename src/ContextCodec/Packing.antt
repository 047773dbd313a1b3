-- ===== src/ContextCodec/Packing.antt =====
-- packRow: what it takes of the envelope, and its own tests.
use commitment_workbench.Prelude.{
  ℕ, zero, suc, ◌+◌, ◌/◌, ◌%◌, ◌≤◌, ◌<◌, ◌≡◌, refl, sym, ap, subst, ◌⊎◌, inl, inr, Bool, true,
  false, ◌||◌, [], ◌∷◌, ◌++◌, arith, All, Bool-cases, Text, codes, leb, ltb, ◌==◌, any, all, length,
  length-append,
}
use commitment_workbench.Prelude.Units.{is_high, is_low, has_short_escape}
use commitment_workbench.Audit.Hash.{decimal, decimal_on}
use commitment_workbench.Audit.Hash.Decimal.{IsDigits, decimal-IsDigits}
use commitment_workbench.ContextCodec.Json.{
  is_pair, hex_digit, unicode_escape, short_escape, quote_unit, quote_on, well_formed_on,
  json_char_utf8_bytes, json_bytes_on,
}
use commitment_workbench.ContextCodec.Rows.{row_text, take_fitting, is_clean}
use commitment_workbench.ContextCodec.Sizes.{
  by_units, lone, after_pair, IsBasic, not_paired, row_text_lem,
}

-- A part that fits, with what is left behind it: both are well-formed, and the part is all of the text
-- or leaves no room for one more unit or pair, which takes at most 6 bytes.
pub record IsCut (budget used : ℕ) (s : Text) (r : Text × Text) : Type 0 where
  pub whole : r.0 ++ r.1 ≡ s
  pub fits : used + json_bytes_on false r.0 ≤ budget
  pub taken_ok : well_formed_on false r.0 ≡ true
  pub left_ok : well_formed_on false r.1 ≡ true
  pub full : (r.1 ≡ []) ⊎ (budget < used + json_bytes_on false r.0 + 6)

IsCut-empty :
    (budget used : ℕ) (s : Text)
    → used ≤ budget
    → well_formed_on false s ≡ true
    → (s ≡ []) ⊎ (budget < used + 6)
    → IsCut budget used s ([], s)
IsCut-empty budget used s h k full = record {
  whole = refl;
  fits = unfold json_bytes_on in omega (arith, h);
  taken_ok = unfold well_formed_on in refl;
  left_ok = k;
  full = unfold json_bytes_on in elim full [ inl e ↦ inl e | inr l ↦ inr (omega (arith, l)) ];
}

lone-IsCut :
    (budget used c : ℕ) (cs : Text) (r : Text × Text)
    → IsBasic c
    → IsCut budget (used + json_char_utf8_bytes c false) cs r
    → IsCut budget used (c ∷ cs) (c ∷ r.0, r.1)
lone-IsCut budget used c cs r h k = record {
  whole = ap (λ u. c ∷ u) k.whole;
  fits = unfold json_bytes_on in rw (not_paired c r.0 h) (omega (arith, k.fits));
  taken_ok = unfold well_formed_on in rw (not_paired c r.0 h, h) k.taken_ok;
  left_ok = k.left_ok;
  full =
      unfold json_bytes_on in
      rw (not_paired c r.0 h) (elim k.full [ inl e ↦ inl e | inr l ↦ inr (omega (arith, l)) ]);
}

pair-IsCut :
    (budget used c d : ℕ) (cs : Text) (r : Text × Text)
    → is_pair c (d ∷ cs) ≡ true
    → IsCut budget (used + json_char_utf8_bytes c true) cs r
    → IsCut budget used (c ∷ d ∷ cs) (c ∷ d ∷ r.0, r.1)
pair-IsCut budget used c d cs r e k = record {
  whole = ap (λ u. c ∷ d ∷ u) k.whole;
  fits = unfold json_bytes_on in rw e (omega (arith, k.fits));
  taken_ok = unfold well_formed_on in rw e k.taken_ok;
  left_ok = k.left_ok;
  full =
      unfold json_bytes_on in rw e (elim k.full [ inl f ↦ inl f | inr l ↦ inr (omega (arith, l)) ]);
}

pub json_char-le : (c : ℕ) (paired : Bool) → json_char_utf8_bytes c paired ≤ 6
json_char-le c paired = ground arith

no_room :
    (budget used c : ℕ) (paired : Bool)
    → ltb budget (used + json_char_utf8_bytes c paired) ≡ true
    → budget < used + 6
no_room budget used c paired f =
    let over : budget < used + json_char_utf8_bytes c paired = ltb_lt budget _ f in
    omega (arith, over, json_char-le c paired)
  where
    ltb_lt : (a b : ℕ) → ltb a b ≡ true → a < b
    ltb_lt a b h = ground arith

pub take_fitting-IsCut :
    (budget : ℕ) (s : Text) (used : ℕ)
    → used ≤ budget
    → well_formed_on false s ≡ true
    → IsCut budget used s (take_fitting budget false used s)
unfolding take_fitting
take_fitting-IsCut budget =
    by_units
      (λ s.
        (used : ℕ)
        → used ≤ budget
        → well_formed_on false s ≡ true
        → IsCut budget used s (take_fitting budget false used s))
      (λ used h k. IsCut-empty budget used [] h k (inl refl))
      (λ c cs e step used h k.
        let sum = used + json_char_utf8_bytes c false in
        let (basic, rest) = lone c cs e k in
        elim (Bool-cases (ltb budget sum)) [
          | inl f ↦
              rw (e, f) (IsCut-empty budget used (c ∷ cs) h k (inr (no_room budget used c false f)))
          | inr f ↦
              rw (e, f)
                (lone-IsCut budget used c cs (take_fitting budget false sum cs) basic
                  (step sum (ground (arith, f)) rest))
        ])
      (λ c d cs e step used h k.
        let sum = used + json_char_utf8_bytes c true in
        elim (Bool-cases (ltb budget sum)) [
          | inl f ↦
              rw (e, f)
                (IsCut-empty budget used (c ∷ d ∷ cs) h k (inr (no_room budget used c true f)))
          | inr f ↦
              rw (e, f)
                (pair-IsCut budget used c d cs (take_fitting budget false sum cs) e
                  (step sum (ground (arith, f)) (after_pair c d cs e k)))
        ])

-- With room for one unit, something is taken.
pub take_fitting-cons :
    (budget c : ℕ) (cs : Text)
    → 6 ≤ budget
    → (d : ℕ) × (ds : Text) × ((take_fitting budget false 0 (c ∷ cs)).0 ≡ d ∷ ds)
unfolding take_fitting
take_fitting-cons budget c cs h =
    let paired = is_pair c cs in
    let sum = 0 + json_char_utf8_bytes c paired in
    let fits : ltb budget sum ≡ false = ground (arith, json_char-le c paired) in
    (c, (take_fitting budget paired sum cs).0, rw fits refl)

-- Every unit of a row is printable, so no row has a newline or a NUL in it.
abbrev pub IsPrintable : ℕ → Type 0
IsPrintable c = 32 ≤ c

All-append : (a b : Text) → All IsPrintable a → All IsPrintable b → All IsPrintable (a ++ b)
All-append [] b h k = k
All-append (c ∷ a) b h k = (h.0, All-append a b h.1 k)

hex_digit-IsPrintable : (d : ℕ) → IsPrintable (hex_digit d)
hex_digit-IsPrintable d = ground arith

short-IsPrintable : (c : ℕ) → has_short_escape c ≡ true → IsPrintable (short_escape c)
short-IsPrintable c h = ground arith

escape-IsPrintable : (c : ℕ) → All IsPrintable (unicode_escape c)
escape-IsPrintable c =
    let h = hex_digit-IsPrintable in
    (
      omega arith,
      (omega arith, (h (c / 4096), (h (c / 256 % 16), (h (c / 16 % 16), (h (c % 16), tt))))),
    )

quote_unit-IsPrintable : (c : ℕ) → All IsPrintable (quote_unit c)
quote_unit-IsPrintable c = elim (Bool-cases (has_short_escape c)) [
  | inl e ↦ rw e (omega arith, (short-IsPrintable c e, tt))
  | inr e ↦ elim (Bool-cases (ltb c 32 || is_high c || is_low c)) [
    | inl k ↦ rw (e, k) (escape-IsPrintable c)
    | inr k ↦ rw (e, k) (ground (arith, k), tt)
  ]
]

quote_on-IsPrintable : (s : Text) → All IsPrintable (quote_on false s)
unfolding quote_on
quote_on-IsPrintable =
    by_units (λ s. All IsPrintable (quote_on false s)) tt
      (λ c cs e k.
        rw e (All-append (quote_unit c) (quote_on false cs) (quote_unit-IsPrintable c) k))
      (λ c d cs e k. rw e (ground (arith, e), (ground (arith, e), k)))

Digits-IsPrintable : (s : Text) → IsDigits s → All IsPrintable s
Digits-IsPrintable [] h = tt
Digits-IsPrintable (c ∷ s) h = (omega (arith, h.0.0), Digits-IsPrintable s h.1)

pub all-IsPrintable : (s : Text) → all (λ c. leb 32 c) s ≡ true → All IsPrintable s
all-IsPrintable [] h = tt
all-IsPrintable (c ∷ s) h = (ground (arith, h), all-IsPrintable s (ground (arith, h)))

pub row_text-IsPrintable : (index : ℕ) (fragment : Text) → All IsPrintable (row_text index fragment)
row_text-IsPrintable index fragment = subst (All IsPrintable) (sym (row_text_lem index fragment)) (
    All-append (codes "{\"i\":")
      (decimal index ++ (codes ",\"c\":\"" ++ (quote_on false fragment ++ codes "\"}")))
      (all-IsPrintable (codes "{\"i\":") refl)
      (All-append (decimal index) (codes ",\"c\":\"" ++ (quote_on false fragment ++ codes "\"}"))
        (Digits-IsPrintable (decimal index) (decimal-IsDigits index))
        (All-append (codes ",\"c\":\"") (quote_on false fragment ++ codes "\"}")
          (all-IsPrintable (codes ",\"c\":\"") refl)
          (All-append (quote_on false fragment) (codes "\"}") (quote_on-IsPrintable fragment)
            (all-IsPrintable (codes "\"}") refl)))))

pub absent : (d : ℕ) (s : Text) → d < 32 → All IsPrintable s → any (λ c. c == d) s ≡ false
absent d [] h k = refl
absent d (c ∷ s) h k = ground (arith, absent d s h k.1, k.0)

pub Printable-is_clean : (s : Text) → All IsPrintable s → is_clean s ≡ true
Printable-is_clean s h = rw (absent 10 s (omega arith) h, absent 0 s (omega arith) h) refl

decimal_on-length : (f n : ℕ) → n < f → length (decimal_on f n) ≤ suc n
unfolding decimal_on
decimal_on-length zero n h = absurd (omega arith)
decimal_on-length (suc f) n h = elim (Bool-cases (ltb n 10)) [
  | inl small ↦ rw small (omega arith)
  | inr big ↦
      rw (big, length-append (decimal_on f (n / 10)) ((48 + n % 10) ∷ []))
        (ground (arith, decimal_on-length f (n / 10) (ground arith)))
]

pub decimal-length : (n : ℕ) → length (decimal n) ≤ suc n
unfolding decimal
decimal-length n = decimal_on-length (suc n) n (omega arith)
