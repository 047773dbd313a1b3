-- ===== src/Audit/Hash/Decimal.antt =====
-- The decimal form of a number: enough fuel, its value, and that it holds digits only.
use commitment_workbench.Prelude.{
  ℕ, zero, suc, ◌+◌, ◌-◌, ◌*◌, ◌/◌, ◌%◌, ◌≤◌, ◌<◌, ◌≡◌, refl, sym, ap, ◌∙◌, [], ◌∷◌, ◌++◌, arith,
  Text, All, Bool-cases, ltb, inl, inr,
}
use commitment_workbench.Audit.Hash.{decimal, decimal_on}

-- The number that a text of digits stands for, read from the left.
abbrev pub read : ℕ → Text → ℕ
read acc [] = acc
read acc (c ∷ cs) = read (acc * 10 + (c - 48)) cs

read-snoc : (acc : ℕ) (s : Text) (c : ℕ) → read acc (s ++ c ∷ []) ≡ read acc s * 10 + (c - 48)
read-snoc acc [] c = refl
read-snoc acc (d ∷ s) c = read-snoc (acc * 10 + (d - 48)) s c

read-decimal_on : (f n : ℕ) → n < f → read 0 (decimal_on f n) ≡ n
unfolding decimal_on
read-decimal_on zero n h = absurd (omega arith)
read-decimal_on (suc f) n h = elim (Bool-cases (ltb n 10)) [
  | inl small ↦ rw small (omega arith)
  | inr big ↦
      rw (big, read-snoc 0 (decimal_on f (n / 10)) (48 + n % 10))
        (omega (arith, read-decimal_on f (n / 10) (ground arith)))
]

-- Reading the decimal form of a number gives the number, so enough fuel was given.
pub read-decimal : (n : ℕ) → read 0 (decimal n) ≡ n
unfolding decimal
read-decimal n = read-decimal_on (suc n) n (omega arith)

pub decimal_injective : (m n : ℕ) → decimal m ≡ decimal n → m ≡ n
decimal_injective m n e = sym (read-decimal m) ∙ (ap (read 0) e ∙ read-decimal n)

-- Every code is a digit.
abbrev pub IsDigits : Text → Type 0
IsDigits = All (λ c. (48 ≤ c) × (c ≤ 57))

IsDigits-snoc : (s : Text) (c : ℕ) → IsDigits s → 48 ≤ c → c ≤ 57 → IsDigits (s ++ c ∷ [])
IsDigits-snoc [] c d h k = ((h, k), tt)
IsDigits-snoc (x ∷ s) c d h k = (d.0, IsDigits-snoc s c d.1 h k)

decimal_on-IsDigits : (f n : ℕ) → IsDigits (decimal_on f n)
unfolding decimal_on
decimal_on-IsDigits zero n = tt
decimal_on-IsDigits (suc f) n = elim (Bool-cases (ltb n 10)) [
  | inl small ↦ rw small ((omega arith, ground arith), tt)
  | inr big ↦ rw big (
      IsDigits-snoc (decimal_on f (n / 10)) (48 + n % 10) (decimal_on-IsDigits f (n / 10))
        (omega arith) (omega arith))
]

pub decimal-IsDigits : (n : ℕ) → IsDigits (decimal n)
unfolding decimal
decimal-IsDigits n = decimal_on-IsDigits (suc n) n
