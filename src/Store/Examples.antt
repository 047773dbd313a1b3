-- ===== src/Store/Examples.antt =====
-- The run table's theorems at concrete tables.
use commitment_workbench.Prelude.{
  ◌≡◌, refl, some, none, List, [], ◌∷◌, map, codes, text_eq, text_ne, text_lt, take,
}
use commitment_workbench.Store.Tables.{order_by, select_one}
use commitment_workbench.Store.Runs.{
  Run, running, completed, needs_input, mcp_commission, read_commission_run, list_tasks,
  task_list_row, newer,
}
use commitment_workbench.Store.Runs.Writes.{
  set_status, cancel, AllEvolve, apply_write, apply_write-AllEvolve,
}
use commitment_workbench.Store.Runs.Lifecycle.{apply_writes, is_completed, terminal_absorbing}
use commitment_workbench.Store.Runs.Paging.{DistinctIds, list_tasks-after}

abbrev run_a : Run
run_a = record {
  id = codes "a";
  origin = mcp_commission;
  goal = codes "book";
  run_data = none;
  status = completed;
  session_id = codes "s1";
  created_at = codes "2026-01-01";
  updated_at = codes "2026-01-01";
  label = none;
  status_detail = none;
  awaited_slot_keys = none;
}

abbrev run_b : Run
run_b = record run_a { id = codes "b"; status = needs_input; session_id = codes "s2" }

abbrev run_c : Run
run_c = record run_a { id = codes "c"; status = running; created_at = codes "2026-01-02" }

abbrev runs : List Run
runs = run_a ∷ run_b ∷ run_c ∷ []

abbrev run_a' : Run
run_a' = record run_a { status = running; created_at = codes "t"; updated_at = codes "t" }

terminal_absorbing_example :
    (r : Run) × (read_commission_run
        (codes "a")
        (apply_writes (set_status (codes "a") running [] ∷ cancel (codes "a") [] ∷ []) runs)
      ≡ some r)
    × (r.status ≡ completed)
    × (r.session_id ≡ codes "s1")
    × (r.goal ≡ codes "book")
terminal_absorbing_example =
    terminal_absorbing (set_status (codes "a") running [] ∷ cancel (codes "a") [] ∷ []) runs
      (codes "a") run_a (unfold read_commission_run select_one text_eq in refl) is_completed

distinct : DistinctIds runs
distinct =
    unfold text_eq in
    ((text_ne _ _ refl, (text_ne _ _ refl, tt)), ((text_ne _ _ refl, tt), (tt, tt)))

list_tasks-after_example :
    list_tasks 5 (some (codes "2026-01-01", codes "b")) runs
    ≡ map task_list_row (take 5 (run_a ∷ []))
list_tasks-after_example =
    list_tasks-after 5 runs (run_c ∷ []) (run_a ∷ []) run_b distinct
      (unfold order_by newer text_lt text_eq in refl)

apply_write-AllEvolve_example : AllEvolve runs (apply_write (cancel (codes "b") (codes "t")) runs)
apply_write-AllEvolve_example = apply_write-AllEvolve (cancel (codes "b") (codes "t")) runs
