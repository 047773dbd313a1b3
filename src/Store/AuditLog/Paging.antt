-- ===== src/Store/AuditLog/Paging.antt =====
-- The cursor of user-agent.ts and the keyset page of audit-log.ts (selectAuditChainPage).
use commitment_workbench.Prelude.{
  ℕ, ◌+◌, ◌/◌, ◌%◌, ◌≤◌, ◌≡◌, refl, sym, ap, subst, ◌∙◌, ◌≢◌, ◌⊎◌, inl, inr, true, false, Option,
  none, some, List, [], ◌∷◌, ◌++◌, reverse, arith, Text, leb, ltb, ◌==◌, all, All, take, filter,
  Bool-cases,
}
use commitment_workbench.Governance.Spend.{max_safe_integer}
use commitment_workbench.Audit.Chain.{ChainEntry}
use commitment_workbench.Audit.Hash.{decimal, decimal_on}
use commitment_workbench.Audit.Hash.Decimal.{read-decimal, IsDigits, decimal-IsDigits}
use commitment_workbench.Store.Tables.{
  order_by, Sorted, Apart, order_by-Sorted, filter-order_by, filter-after,
}
use commitment_workbench.Store.AuditLog.{newer}
use commitment_workbench.Store.AuditLog.Queries.{is_before, select_audit_chain_page}
use commitment_workbench.Store.AuditLog.Order.{newer_irrefl, newer_trans, Rising, order_by-Rising}
use commitment_workbench.Store.AuditLog.Reads.{
  separator, is_digit, is_empty, split_at, parse_sequence, encode_audit_cursor, decode_audit_cursor,
  decode_text, decode_split,
}

-- A text with no separator.
abbrev pub IsPlain : Text → Type 0
IsPlain = All (λ c. (c == separator) ≡ false)

split_at-append : (a b : Text) → IsPlain a → split_at (a ++ separator ∷ b) ≡ some (a, b)
split_at-append [] b h = refl
split_at-append (c ∷ a) b h = rw (h.0, split_at-append a b h.1) refl

all_digits : (s : Text) → IsDigits s → all is_digit s ≡ true
all_digits [] h = refl
all_digits (c ∷ s) h = ground (arith, all_digits s h.1, h.0.0, h.0.1)

snoc_ne : (s : Text) (c : ℕ) → is_empty (s ++ c ∷ []) ≡ false
snoc_ne [] c = refl
snoc_ne (d ∷ s) c = refl

decimal_ne : (n : ℕ) → is_empty (decimal n) ≡ false
unfolding decimal decimal_on
decimal_ne n = elim (Bool-cases (ltb n 10)) [
  | inl small ↦ rw small refl
  | inr big ↦ rw big (snoc_ne (decimal_on n (n / 10)) (48 + n % 10))
]

parse_sequence-decimal :
    (epoch : Text) (n : ℕ)
    → n ≤ max_safe_integer
    → parse_sequence epoch (decimal n) ≡ some (epoch, n)
unfolding parse_sequence
parse_sequence-decimal epoch n h =
    let fits : leb n max_safe_integer ≡ true = ground arith in
    rw (decimal_ne n, all_digits (decimal n) (decimal-IsDigits n), read-decimal n, fits) refl

-- The cursor of a row reads back as its place in the chain, for an epoch with no separator in it and a
-- safe sequence number, where decoding base64 inverts encoding it and encodes no text as the empty one.
pub decode-encode :
    (btoa : Text → Text) (atob : Text → Option Text)
    → ((s : Text) → atob (btoa s) ≡ some s)
    → ((s : Text) → s ≢ [] → btoa s ≢ [])
    → (epoch : Text) (n : ℕ) → IsPlain epoch
    → n ≤ max_safe_integer
    → decode_audit_cursor btoa atob (some (encode_audit_cursor btoa atob (epoch, n)))
      ≡ some (epoch, n)
unfolding encode_audit_cursor
decode-encode btoa atob inverse kept epoch n plain h =
    go (btoa text) (inverse text) (kept text nonempty)
  where
    text : Text
    text = epoch ++ separator ∷ decimal n

    nonempty : text ≢ []
    nonempty e = ends epoch e
      where
        ends : (s : Text) → ¬ (s ++ separator ∷ decimal n ≡ [])
        ends [] q = cc
        ends (c ∷ s) q = cc

    go :
        (w : Text)
        → atob w ≡ some text
        → w ≢ []
        → decode_audit_cursor btoa atob (some w) ≡ some (epoch, n)
    go [] e k = absurd (k refl)
    go (c ∷ cs) e k =
        unfold decode_audit_cursor in
        (ap decode_text e
          ∙ ap decode_split (split_at-append epoch (decimal n) plain)
          ∙ parse_sequence-decimal epoch n h)

pub Rising-Apart : (t : List ChainEntry) → Rising newer t → Apart newer t
Rising-Apart [] s = tt
Rising-Apart (x ∷ t) s = (go t s.0, Rising-Apart t s.1)
  where
    go :
        (ys : List ChainEntry)
        → All (λ y. newer y x ≡ true) ys
        → All (λ y. (newer x y ≡ true) ⊎ (newer y x ≡ true)) ys
    go [] h = tt
    go (y ∷ ys) h = (inr h.0, go ys h.1)

is_before-newer :
    (c : ChainEntry) (t : List ChainEntry)
    → filter (is_before (c.epoch_id, c.sequence_num)) t ≡ filter (newer c) t
unfolding newer
is_before-newer c [] = refl
is_before-newer c (r ∷ t) = ground (arith, is_before-newer c t)

-- In a table whose rows stand in the rising order of their keys, read from the newest, the first page
-- is the first `limit` rows and the page after the row `c` is the `limit` rows behind it.
pub select_audit_chain_page-after :
    (limit : ℕ) (t xs ys : List ChainEntry) (c : ChainEntry)
    → Rising newer t
    → reverse t ≡ xs ++ c ∷ ys
    → (select_audit_chain_page limit none t ≡ take limit (xs ++ c ∷ ys))
      × (select_audit_chain_page limit (some (c.epoch_id, c.sequence_num)) t ≡ take limit ys)
unfolding select_audit_chain_page
select_audit_chain_page-after limit t xs ys c s e =
    let listed : order_by newer t ≡ xs ++ c ∷ ys = order_by-Rising newer t s ∙ e in
    let sorted : Sorted newer (xs ++ c ∷ ys) =
      subst (Sorted newer) listed
        (order_by-Sorted newer newer_irrefl newer_trans t (Rising-Apart t s)) in
    (
      ap (take limit) listed,
      ap (take limit) (
          ap (order_by newer) (is_before-newer c t)
          ∙ sym (filter-order_by newer newer_irrefl newer_trans (newer c) t (Rising-Apart t s))
          ∙ ap (filter (newer c)) listed
          ∙ filter-after newer newer_irrefl newer_trans xs ys c sorted),
    )
