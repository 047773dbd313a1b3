-- ===== src/LogWalk.antt =====
-- packages/cli/src/audit/walk.ts: the paged walk over the audit log, newest page first, and the
-- summary that decides the exit code. Text is a list of UTF-8 bytes; epoch ids are ASCII, where the
-- order of bytes is that of UTF-16 code units.
use commitment_workbench.Prelude.{
  ℕ, zero, suc, ◌+◌, Bool, true, false, not, ◌&&◌, ◌||◌, Option, none, some, List, [], ◌∷◌, ◌++◌,
  reverse, flatten, map, Text, text_eq, text_lt, length, leb, ltb, ◌==◌, if◌then◌else◌, any,
}
use commitment_workbench.Audit.Chain.{
  ChainEntry, ChainBreak, ChainVerdict, LowerEdge, verify_chain_range,
}
use commitment_workbench.Audit.Closure.{
  CloserRef, DecisionClosure, ClosureVerdict, check_decision_closure,
}
pub mod Summary
pub mod Rounds
pub mod Verdict
mod Examples

pub data StopReason : Type 0 where
  exhausted page_ceiling cursor_stalled cancelled partial_file : StopReason

pub record AuditListResponse : Type 0 where
  pub entries : List ChainEntry
  pub next_cursor : Option Text

abbrev pub audit_max_pages : ℕ
audit_max_pages = 10000

abbrev pub Location : Type 0
Location = Text × ℕ

abbrev pub location : ChainEntry → Location
location e = (e.epoch_id, e.sequence_num)

unfoldable pub sorts_strictly_below : ChainEntry → ChainEntry → Bool
sorts_strictly_below a b =
    text_lt a.epoch_id b.epoch_id
    || (text_eq a.epoch_id b.epoch_id && ltb a.sequence_num b.sequence_num)

-- The loop's variables. `delivered` holds the pages given to `onPage`, in order; `break_found` and
-- `conflict_found` tell whether the two callbacks have been called.
pub record WalkState : Type 0 where
  pub pages : List ChainVerdict
  pub closures : List ClosureVerdict
  pub boundary : Option ChainEntry
  pub closure_carry : List CloserRef
  pub previous_oldest : Option ChainEntry
  pub cursor : Option Text
  pub entries_seen : ℕ
  pub pages_fetched : ℕ
  pub newest : Option Location
  pub oldest : Option Location
  pub delivered : List (List ChainEntry)
  pub break_found : Bool
  pub conflict_found : Bool
  pub cursor_exhausted : Bool

abbrev pub initial : WalkState
initial = record {
  pages = [];
  closures = [];
  boundary = none;
  closure_carry = [];
  previous_oldest = none;
  cursor = none;
  entries_seen = 0;
  pages_fetched = 0;
  newest = none;
  oldest = none;
  delivered = [];
  break_found = false;
  conflict_found = false;
  cursor_exhausted = false;
}

-- `page[page.length - 1]` of a page that begins with `e`.
abbrev pub last_of : ChainEntry → List ChainEntry → ChainEntry
last_of e [] = e
last_of e (x ∷ xs) = last_of x xs

abbrev pub or_else : Option Location → Location → Option Location
or_else none l = some l
or_else (some k) l = some k

abbrev pub is_cons {ℓ} : {A : Type ℓ} → List A → Bool
is_cons [] = false
is_cons (x ∷ xs) = true

-- The stall check on a page's first row.
abbrev pub has_stalled : Option ChainEntry → ChainEntry → Bool
has_stalled none first = false
has_stalled (some prev) first = not (sorts_strictly_below first prev)

module _ (sha256 : Text → Text) where
  -- The body of `if (options.verify)`.
  unfoldable pub verify_page : List ChainEntry → ChainEntry → WalkState → WalkState
  verify_page page page_oldest s =
      let ascending = reverse page in
      let verdict = verify_chain_range sha256 ascending s.boundary in
      let closure = check_decision_closure ascending s.closure_carry true in
      record s {
        pages = s.pages ++ verdict ∷ [];
        closures = s.closures ++ closure ∷ [];
        closure_carry = closure.carry;
        break_found = s.break_found || is_cons verdict.breaks;
        conflict_found = s.conflict_found || is_cons closure.conflicted;
        boundary = some page_oldest;
      }

  -- A round on a page with a row, past the stall check.
  unfoldable pub take_page : Bool → ChainEntry → List ChainEntry → WalkState → WalkState
  unfolding verify_page
  take_page verify first rest s =
      let page = first ∷ rest in
      let page_oldest = last_of first rest in
      let seen = record s {
        pages_fetched = s.pages_fetched + 1;
        entries_seen = s.entries_seen + length page;
        newest = or_else s.newest (location first);
        oldest = some (location page_oldest);
        delivered = s.delivered ++ page ∷ [];
        previous_oldest = some page_oldest;
      } in
      if verify then verify_page page page_oldest seen else seen

-- What a round comes to: the loop ends, or goes on.
pub data Round : Type 0 where
  ends : WalkState → StopReason → Round
  goes_on : WalkState → Round

abbrev pub after_page : WalkState → Option Text → Round
after_page s none = ends (record s { cursor_exhausted = true }) exhausted
after_page s (some c) = goes_on (record s { cursor = some c })

abbrev pub is_none {ℓ} : {A : Type ℓ} → Option A → Bool
is_none none = true
is_none (some a) = false

-- `fetch n cursor` is the client's answer to the n-th request; `aborted n` is the cancel signal before
-- that request.
module _ (sha256 : Text → Text) (fetch : ℕ → Option Text → AuditListResponse)
    (aborted : ℕ → Bool) where
  unfoldable pub handle_page : Bool → List ChainEntry → Option Text → WalkState → Round
  unfolding take_page
  handle_page verify [] next s =
      ends (record s { cursor_exhausted = is_none next || s.cursor_exhausted }) exhausted
  handle_page verify (first ∷ rest) next s =
      if has_stalled s.previous_oldest first
      then ends s cursor_stalled
      else after_page (take_page sha256 verify first rest s) next

  unfoldable pub round : Bool → WalkState → Round
  unfolding handle_page
  round verify s =
      if aborted s.pages_fetched
      then ends s cancelled
      else if leb audit_max_pages s.pages_fetched
      then ends s page_ceiling
      else (let response = fetch s.pages_fetched s.cursor in
          handle_page verify response.entries response.next_cursor s)

  -- The `for (;;)`, on fuel; `none` means that the fuel ran out.
  unfoldable pub loop : ℕ → Bool → WalkState → Option (WalkState × StopReason)
  unfolding round
  loop zero verify s = none
  loop (suc f) verify s = elim (round verify s) [
    | ends s' reason ↦ some (s', reason)
    | goes_on s' ↦ loop f verify s'
  ]

  unfoldable pub walk_audit_chain : Bool → Option (WalkState × StopReason)
  unfolding loop
  walk_audit_chain verify = loop (suc audit_max_pages) verify initial
