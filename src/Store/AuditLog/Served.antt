-- ===== src/Store/AuditLog/Served.antt =====
-- A page of listAuditEntries and the rows of its table.
use commitment_workbench.Prelude.{
  ℕ, zero, suc, ◌-◌, ◌≤◌, ◌≡◌, refl, ap, ◌∙◌, inl, inr, true, List, [], ◌∷◌, ◌++◌, reverse, arith,
  ltb, All, length, length-append, length-take, take, Bool-cases,
}
use commitment_workbench.Prelude.Int.{pos, negsuc}
use mathlib.Core.List.{reverse-cons}
use commitment_workbench.Governance.Spend.{max_safe_integer}
use commitment_workbench.Audit.Chain.{ChainEntry}
use commitment_workbench.LogWalk.{last_of}
use commitment_workbench.LogWalk.Rounds.{init_of}
use commitment_workbench.Store.Tables.{Sorted}
use commitment_workbench.Store.AuditLog.{newer}
use commitment_workbench.Store.AuditLog.Reads.{
  Limit, absent, not_finite, floor, clamp_audit_page_limit, audit_page_max_limit,
}
use commitment_workbench.Store.AuditLog.Paging.{IsPlain}

-- A limit is at least one row.
pub clamp_one : (limit : Limit) → (m : ℕ) × (clamp_audit_page_limit limit ≡ suc m)
unfolding clamp_audit_page_limit
clamp_one absent = (19, refl)
clamp_one not_finite = (19, refl)
clamp_one (floor (negsuc n)) = (0, refl)
clamp_one (floor (pos n)) = elim (Bool-cases (ltb n 1)) [
  | inl e ↦ (0, rw e refl)
  | inr e ↦ elim (Bool-cases (ltb audit_page_max_limit n)) [
    | inl f ↦ (199, rw (e, f) refl)
    | inr f ↦ (n - 1, rw (e, f) (ground (arith, e)))
  ]
]

pub take-take : (n : ℕ) (xs : List ChainEntry) → take n (take (suc n) xs) ≡ take n xs
take-take zero xs = refl
take-take (suc n) [] = refl
take-take (suc n) (x ∷ xs) = ap (λ u. x ∷ u) (take-take n xs)

pub more_left :
    (n : ℕ) (xs : List ChainEntry) → ltb n (length (take (suc n) xs)) ≡ ltb n (length xs)
more_left n xs = ap (ltb n) (length-take (suc n) xs) ∙ ground arith

-- A row whose place in the chain can be written to a cursor and read back.
abbrev pub IsAddressable : ChainEntry → Type 0
IsAddressable r = IsPlain r.epoch_id × (r.sequence_num ≤ max_safe_integer)

pub last_page : (e : ChainEntry) (xs : List ChainEntry) → e ∷ xs ≡ init_of e xs ++ last_of e xs ∷ []
last_page e [] = refl
last_page e (x ∷ xs) = ap (λ u. e ∷ u) (last_page x xs)

pub Sorted-middle :
    (xs ys : List ChainEntry) (c y : ChainEntry)
    → Sorted newer (xs ++ c ∷ y ∷ ys)
    → newer c y ≡ true
Sorted-middle [] ys c y s = s.0.0
Sorted-middle (x ∷ xs) ys c y s = Sorted-middle xs ys c y s.1

pub All-middle :
    (P : ChainEntry → Type 0) (xs ys : List ChainEntry) (c : ChainEntry)
    → All P (xs ++ c ∷ ys)
    → P c
All-middle P [] ys c a = a.0
All-middle P (x ∷ xs) ys c a = All-middle P xs ys c a.1

pub length-reverse : (xs : List ChainEntry) → length (reverse xs) ≡ length xs
length-reverse [] = refl
length-reverse (x ∷ xs) =
    ap length (reverse-cons x xs)
    ∙ omega (arith, length-append (reverse xs) (x ∷ []), length-reverse xs)
