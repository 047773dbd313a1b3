-- ===== src/LogWalk/Summary.antt =====
-- summarizeWalk: the aggregate of the pages' verdicts and the exit code.
use commitment_workbench.Prelude.{
  ℕ, ◌+◌, ◌≡◌, Bool, true, false, not, ◌||◌, Option, none, some, List, [], ◌∷◌, ◌++◌, reverse,
  flatten, map, arith, Text, text_eq, if◌then◌else◌, any,
}
use commitment_workbench.Audit.Chain.{ChainBreak, ChainVerdict, LowerEdge}
use commitment_workbench.Audit.Closure.{CloserRef, DecisionClosure, ClosureVerdict}
use commitment_workbench.LogWalk.{StopReason, is_cons}

pub data UncheckedReason : Type 0 where
  page_ceiling cursor_stalled head_not_genesis cancelled partial_file : UncheckedReason

pub record WalkSummary : Type 0 where
  pub exit_code : ℕ
  pub breaks : List ChainBreak
  pub entries_checked : ℕ
  pub epochs_covered : List Text
  pub genesis_shaped_head : Bool
  pub unchecked_reasons : List UncheckedReason
  pub conflicted : List DecisionClosure
  pub unresolved : List DecisionClosure
  pub unchecked_closures : List CloserRef

abbrev pub last? {ℓ} : {A : Type ℓ} → List A → Option A
last? [] = none
last? (x ∷ []) = some x
last? (x ∷ y ∷ ys) = last? (y ∷ ys)

-- `filter((epoch, i, all) => all.indexOf(epoch) === i)`, with the epochs already kept.
abbrev first_occurrences : List Text → List Text → List Text
first_occurrences seen [] = []
first_occurrences seen (x ∷ xs) =
    let rest = first_occurrences (seen ++ x ∷ []) xs in
    if any (text_eq x) seen then rest else x ∷ rest

abbrev sum : List ℕ → ℕ
sum [] = 0
sum (n ∷ ns) = n + sum ns

abbrev pub is_genesis_shaped : Option ChainVerdict → Bool
is_genesis_shaped none = false
is_genesis_shaped (some v) = elim v.lower_edge [ LowerEdge.genesis_shaped ↦ true | _ ↦ false ]

abbrev pub is_head_unchecked : Option ChainVerdict → Bool
is_head_unchecked none = false
is_head_unchecked (some v) = elim v.lower_edge [ LowerEdge.unchecked l ↦ true | _ ↦ false ]

abbrev carry_of : Option ClosureVerdict → List CloserRef
carry_of none = []
carry_of (some v) = v.carry

unfoldable pub reasons_for : StopReason → Bool → List UncheckedReason
reasons_for StopReason.page_ceiling head = UncheckedReason.page_ceiling ∷ []
reasons_for StopReason.cursor_stalled head = UncheckedReason.cursor_stalled ∷ []
reasons_for StopReason.cancelled head = UncheckedReason.cancelled ∷ []
reasons_for StopReason.partial_file head = UncheckedReason.partial_file ∷ []
reasons_for StopReason.exhausted head = if head then head_not_genesis ∷ [] else []

abbrev is_cancelled : StopReason → Bool
is_cancelled StopReason.cancelled = true
is_cancelled _ = false

abbrev is_partial_file : StopReason → Bool
is_partial_file StopReason.partial_file = true
is_partial_file _ = false

-- EXIT_BROKEN_CHAIN 3, EXIT_CONFLICTED_CLOSER 5, EXIT_CANCELLED 130, EXIT_UNCHECKED_EDGE 4.
unfoldable pub exit_code_of : List ChainBreak → List DecisionClosure → StopReason → Bool → Bool → ℕ
exit_code_of breaks conflicts reason cursor_exhausted head_unchecked =
    if is_cons breaks
    then 3
    else if is_cons conflicts
    then 5
    else if is_cancelled reason
    then 130
    else if not cursor_exhausted
    then 4
    else if head_unchecked || is_partial_file reason
    then 4
    else 0

unfoldable pub summarize_walk :
    List ChainVerdict → List ClosureVerdict → Bool → StopReason → WalkSummary
unfolding exit_code_of reasons_for
summarize_walk pages closures cursor_exhausted reason =
    let oldest_first = reverse pages in
    let breaks = flatten (map ChainVerdict.breaks oldest_first) in
    let conflicts = flatten (map ClosureVerdict.conflicted (reverse closures)) in
    let head_unchecked = is_head_unchecked (last? pages) in
    record {
      exit_code = exit_code_of breaks conflicts reason cursor_exhausted head_unchecked;
      breaks = breaks;
      entries_checked = sum (map ChainVerdict.entries_checked pages);
      epochs_covered =
          first_occurrences [] (flatten (map ChainVerdict.epochs_covered oldest_first));
      genesis_shaped_head = is_genesis_shaped (last? pages);
      unchecked_reasons = reasons_for reason head_unchecked;
      conflicted = conflicts;
      unresolved = flatten (map ClosureVerdict.unresolved (reverse closures));
      unchecked_closures = carry_of (last? closures);
    }

-- The exit code is 0 exactly when no break and no conflict was found, the walk was not cancelled, it
-- saw the oldest row kept, and neither the head nor the file leaves an edge unchecked.
pub exit_code-zero :
    (breaks : List ChainBreak) (conflicts : List DecisionClosure) (reason : StopReason)
    (ce hu : Bool)
    → exit_code_of breaks conflicts reason ce hu ≡ 0
    → (breaks ≡ []) × (conflicts ≡ []) × (ce ≡ true) × (hu ≡ false)
unfolding exit_code_of
exit_code-zero breaks conflicts reason ce hu h = ground arith
