-- ===== src/LogWalk/Examples.antt =====
-- The walk's theorems over a client that serves an empty log.
use commitment_workbench.Prelude.{ℕ, ◌≡◌, refl, Bool, true, false, some, none, Option, [], Text}
use commitment_workbench.Audit.Chain.{verify_chain_range}
use commitment_workbench.Audit.Closure.{check_decision_closure}
use commitment_workbench.LogWalk.{
  AuditListResponse, WalkState, StopReason, exhausted, initial, walk_audit_chain,
}
use commitment_workbench.LogWalk.Summary.{summarize_walk, is_head_unchecked, last?}
use commitment_workbench.LogWalk.Rounds.{rows}
use commitment_workbench.LogWalk.Verdict.{
  walk_audit_chain_ends, summarize_walk-conflicted, exit_code_zero_sound,
}

abbrev digest : Text → Text
digest s = s

abbrev empty_log : ℕ → Option Text → AuditListResponse
empty_log n cursor = record { entries = []; next_cursor = none }

abbrev never : ℕ → Bool
never n = false

abbrev ended : WalkState
ended = record initial { cursor_exhausted = true }

walked : walk_audit_chain digest empty_log never true ≡ some (ended, exhausted)
unfolding walk_audit_chain
walked = refl

walk_audit_chain_ends_example :
    (s : WalkState) × (reason : StopReason) × (walk_audit_chain digest empty_log never true
      ≡ some (s, reason))
walk_audit_chain_ends_example = walk_audit_chain_ends digest empty_log never true

summarize_walk-conflicted_example :
    (summarize_walk [] [] true exhausted).conflicted
    ≡ (check_decision_closure (rows []) [] true).conflicted
summarize_walk-conflicted_example =
    summarize_walk-conflicted digest empty_log never ended exhausted walked

exit_code_zero_sound_example :
    ((verify_chain_range digest (rows []) none).breaks ≡ [])
    × ((check_decision_closure (rows []) [] true).conflicted ≡ [])
    × (ended.cursor_exhausted ≡ true)
    × (is_head_unchecked (last? ended.pages) ≡ false)
unfolding summarize_walk mathlib.Core.List.flatten
exit_code_zero_sound_example =
    exit_code_zero_sound digest empty_log never ended exhausted walked refl
