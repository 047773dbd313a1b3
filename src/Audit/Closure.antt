-- ===== src/Audit/Closure.antt =====
-- decision-closure.ts: which decisions of a range of rows have one closer, several, or none. The
-- JavaScript Map of unmatched closers is an association list in insertion order.
use commitment_workbench.Prelude.{
  ℕ, zero, suc, ◌+◌, Bool, true, false, not, ◌&&◌, ◌||◌, Option, none, some, List, [], ◌∷◌, ◌++◌,
  reverse, Text, codes, text_eq, length, leb, ◌==◌, if◌then◌else◌, any, all, filter,
}
use commitment_workbench.Audit.Chain.{ChainEntry}
pub mod Owed
pub mod Findings
pub mod Carry
pub mod Pages

abbrev pub lifecycle_tools : List Text
lifecycle_tools =
    codes "session.start"
    ∷ codes "session.end"
    ∷ codes "task.cancel"
    ∷ codes "refinement.propose"
    ∷ codes "refinement.validate"
    ∷ codes "refinement.approve"
    ∷ codes "refinement.activate"
    ∷ codes "refinement.disable"
    ∷ codes "refinement.rollback"
    ∷ codes "refinement.use"
    ∷ []

unfoldable pub is_lifecycle : Text → Bool
is_lifecycle tool = any (text_eq tool) lifecycle_tools

-- The clauses that follow the test of the row's own referent, in their order.
abbrev pub owes_without_referent : ChainEntry → Bool
owes_without_referent entry =
    if is_lifecycle entry.tool_name
    then false
    else (if text_eq entry.decision (codes "deny")
        then false
        else text_eq entry.decision (codes "pending") || text_eq entry.decision (codes "allow"))

unfoldable pub owes_closer : ChainEntry → Bool
owes_closer entry = elim entry.decision_entry_id [
  | some referent ↦ false
  | none ↦ owes_without_referent entry
]

pub data ClosureStatus : Type 0 where
  clean conflicted unresolved unchecked : ClosureStatus

pub data CloserAgreement : Type 0 where
  duplicated contradictory : CloserAgreement

pub data OpenKind : Type 0 where
  dispatched awaiting : OpenKind

pub record CloserRef : Type 0 where
  pub id : Text
  pub epoch_id : Text
  pub sequence_num : ℕ
  pub decision : Text
  pub outcome : Text
  pub referent_id : Text

pub record DecisionClosure : Type 0 where
  pub id : Text
  pub epoch_id : Text
  pub sequence_num : ℕ
  pub status : ClosureStatus
  pub agreement : Option CloserAgreement
  pub open_kind : Option OpenKind
  pub closers : List CloserRef

-- `carry` is the list `carry.unmatchedClosers`.
pub record ClosureVerdict : Type 0 where
  pub decisions_checked : ℕ
  pub conflicted : List DecisionClosure
  pub unresolved : List DecisionClosure
  pub unchecked : List DecisionClosure
  pub carry : List CloserRef

abbrev pub Unmatched : Type 0
Unmatched = List (Text × List CloserRef)

-- `map.get(k) ?? []`
unfoldable pub closers_of : Text → Unmatched → List CloserRef
closers_of k [] = []
closers_of k ((j, refs) ∷ m) = if text_eq j k then refs else closers_of k m

-- `map.delete(k)`
unfoldable pub delete : Text → Unmatched → Unmatched
delete k [] = []
delete k ((j, refs) ∷ m) = let rest = delete k m in if text_eq j k then rest else (j, refs) ∷ rest

-- Push onto the list under the referent, which is made if it is not there.
unfoldable pub add_closer : CloserRef → Unmatched → Unmatched
add_closer c [] = (c.referent_id, c ∷ []) ∷ []
add_closer c ((j, refs) ∷ m) =
    let rest = add_closer c m in
    if text_eq j c.referent_id then (j, refs ++ c ∷ []) ∷ m else (j, refs) ∷ rest

-- The map that the carry of newer ranges begins with.
unfoldable pub seed : Unmatched → List CloserRef → Unmatched
unfolding add_closer
seed m [] = m
seed m (c ∷ cs) = seed (add_closer c m) cs

-- The lists of the map's values, one after another.
unfoldable pub values : Unmatched → List CloserRef
values [] = []
values ((j, refs) ∷ m) = refs ++ values m

pub record Walk : Type 0 where
  pub unmatched : Unmatched
  pub decisions_checked : ℕ
  pub conflicted : List DecisionClosure
  pub unresolved : List DecisionClosure
  pub unchecked : List DecisionClosure

abbrev pub closer_ref : ChainEntry → Text → CloserRef
closer_ref entry referent = record {
  id = entry.id;
  epoch_id = entry.epoch_id;
  sequence_num = entry.sequence_num;
  decision = entry.decision;
  outcome = entry.outcome;
  referent_id = referent;
}

abbrev pub closure_of :
    ChainEntry
    → ClosureStatus
    → Option CloserAgreement
    → Option OpenKind
    → List CloserRef
    → DecisionClosure
closure_of entry status agreement open_kind closers = record {
  id = entry.id;
  epoch_id = entry.epoch_id;
  sequence_num = entry.sequence_num;
  status = status;
  agreement = agreement;
  open_kind = open_kind;
  closers = closers;
}

unfoldable pub agreement_of : CloserRef → List CloserRef → CloserAgreement
agreement_of first closers =
    if all (λ c. text_eq c.decision first.decision && text_eq c.outcome first.outcome) closers
    then duplicated
    else contradictory

unfoldable pub open_kind_of : ChainEntry → OpenKind
open_kind_of entry = if text_eq entry.decision (codes "pending") then awaiting else dispatched

-- A decision under a closed edge: none, two or more, or just one closer.
unfoldable pub sort_closed : ChainEntry → List CloserRef → Walk → Walk
unfolding agreement_of open_kind_of
sort_closed entry [] w = record w {
  unresolved = w.unresolved ++ closure_of entry unresolved none (some (open_kind_of entry)) [] ∷ [];
}
sort_closed entry (c ∷ []) w = w
sort_closed entry (c ∷ d ∷ cs) w = record w {
  conflicted =
      w.conflicted
      ++ closure_of entry conflicted (some (agreement_of c (c ∷ d ∷ cs))) none (c ∷ d ∷ cs) ∷ [];
}

-- One round of the loop, which goes from the newest row to the oldest.
unfoldable pub closure_step : Bool → ChainEntry → Walk → Walk
unfolding owes_closer sort_closed
closure_step edge_closed entry w =
    let closers = closers_of entry.id w.unmatched in
    let rest = record w { unmatched = delete entry.id w.unmatched } in
    let counted = record rest { decisions_checked = w.decisions_checked + 1 } in
    elim entry.decision_entry_id [
      | some referent ↦ record rest {
        unmatched = add_closer (closer_ref entry referent) (delete entry.id w.unmatched);
      }
      | none ↦
          if owes_closer entry
          then (if edge_closed then sort_closed entry closers counted else record counted {
            unchecked = w.unchecked ++ closure_of entry unchecked none none closers ∷ [];
          })
          else rest
    ]

-- The rows are listed oldest first, so the newest is stepped first.
unfoldable pub walk_back : Bool → List ChainEntry → Walk → Walk
unfolding closure_step
walk_back edge_closed [] w = w
walk_back edge_closed (e ∷ es) w = closure_step edge_closed e (walk_back edge_closed es w)

abbrev pub seeded : List CloserRef → Walk
seeded carry = record {
  unmatched = seed [] carry;
  decisions_checked = 0;
  conflicted = [];
  unresolved = [];
  unchecked = [];
}

unfoldable pub check_decision_closure : List ChainEntry → List CloserRef → Bool → ClosureVerdict
unfolding walk_back seed values
check_decision_closure entries carry edge_closed =
    let w = walk_back edge_closed entries (seeded carry) in
    record {
      decisions_checked = w.decisions_checked;
      conflicted = reverse w.conflicted;
      unresolved = reverse w.unresolved;
      unchecked = reverse w.unchecked;
      carry = values w.unmatched;
    }
