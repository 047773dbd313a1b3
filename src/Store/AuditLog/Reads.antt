-- ===== src/Store/AuditLog/Reads.antt =====
-- The pages of the log: agent/user-agent.ts serves one (listAuditEntries) with an opaque cursor.
use commitment_workbench.Prelude.{
  ℕ, suc, Bool, true, false, not, ◌&&◌, Option, none, some, List, [], ◌∷◌, ◌++◌, Text, leb, ltb,
  ◌==◌, all, length, take, if◌then◌else◌,
}
use commitment_workbench.Prelude.Int.{ℤ, pos, negsuc}
use commitment_workbench.Governance.Spend.{max_safe_integer}
use commitment_workbench.Audit.Chain.{ChainEntry}
use commitment_workbench.Audit.Hash.{decimal}
use commitment_workbench.Audit.Hash.Decimal.{read}
use commitment_workbench.LogWalk.{AuditListResponse, last_of}
use commitment_workbench.Store.AuditLog.Queries.{Cursor, select_audit_chain_page}

abbrev pub audit_page_default_limit : ℕ
audit_page_default_limit = 20

abbrev pub audit_page_max_limit : ℕ
audit_page_max_limit = 200

-- The limit of a request: absent, not finite, or finite with this floor.
pub data Limit : Type 0 where
  absent not_finite : Limit
  floor : ℤ → Limit

unfoldable pub clamp_audit_page_limit : Limit → ℕ
clamp_audit_page_limit absent = audit_page_default_limit
clamp_audit_page_limit not_finite = audit_page_default_limit
clamp_audit_page_limit (floor (negsuc n)) = 1
clamp_audit_page_limit (floor (pos n)) =
    if ltb n 1 then 1 else if ltb audit_page_max_limit n then audit_page_max_limit else n

abbrev pub separator : ℕ
separator = 124

abbrev pub is_digit : ℕ → Bool
is_digit c = leb 48 c && leb c 57

abbrev pub is_empty : Text → Bool
is_empty [] = true
is_empty (_ ∷ _) = false

-- The text before the first separator and the text after it; `none` where there is none.
abbrev pub split_at : Text → Option (Text × Text)
split_at [] = none
split_at (c ∷ cs) =
    let rest = elim (split_at cs) as (λ _. Option (Text × Text)) [
      | none ↦ none
      | some (a, b) ↦ some (c ∷ a, b)
    ] in
    if c == separator then some ([], cs) else rest

-- `read 0` is `Number` of a text of digits.
unfoldable pub parse_sequence : Text → Text → Option Cursor
parse_sequence epoch raw =
    if not (is_empty raw) && all is_digit raw
    then if leb (read 0 raw) max_safe_integer then some (epoch, read 0 raw) else none
    else none

abbrev pub decode_split : Option (Text × Text) → Option Cursor
decode_split none = none
decode_split (some (epoch, raw)) = parse_sequence epoch raw

abbrev pub decode_text : Option Text → Option Cursor
decode_text none = none
decode_text (some decoded) = decode_split (split_at decoded)

-- `btoa` and `atob`, which throws on a text that is no base64.
module _ (btoa : Text → Text) (atob : Text → Option Text) where
  unfoldable pub encode_audit_cursor : Cursor → Text
  encode_audit_cursor (epoch, sequence) = btoa (epoch ++ separator ∷ decimal sequence)

  unfoldable pub decode_audit_cursor : Option Text → Option Cursor
  unfolding parse_sequence
  decode_audit_cursor none = none
  decode_audit_cursor (some []) = none
  decode_audit_cursor (some (c ∷ cs)) = decode_text (atob (c ∷ cs))

  -- The cursor of the page's last row, where there are more.
  abbrev pub next_cursor_of : Bool → List ChainEntry → Option Text
  next_cursor_of false page = none
  next_cursor_of true [] = none
  next_cursor_of true (e ∷ es) =
      let l = last_of e es in some (encode_audit_cursor (l.epoch_id, l.sequence_num))

  unfoldable pub list_audit_entries : Limit → Option Text → List ChainEntry → AuditListResponse
  unfolding clamp_audit_page_limit decode_audit_cursor select_audit_chain_page
  list_audit_entries limit cursor t =
      let n = clamp_audit_page_limit limit in
      let rows = select_audit_chain_page (suc n) (decode_audit_cursor cursor) t in
      let page = take n rows in
      let more = ltb n (length rows) in
      record { entries = page; next_cursor = next_cursor_of more page }
