-- ===== src/Store/Runs/Paging.antt =====
-- listTasks of commission-runs.ts: the order of the task listing and its pages.
use commitment_workbench.Prelude.{
  ℕ, ◌≡◌, refl, sym, ap, subst, ◌∙◌, ◌≢◌, ◌⊎◌, true, false, none, some, List, [], ◌∷◌, ◌++◌, map,
  arith, text_eq_iff, text_lt_irrefl, text_lt_trans, text_lt_total, All, take, filter,
}
use commitment_workbench.Store.Tables.{
  order_by, Sorted, Apart, order_by-Sorted, filter-order_by, filter-after,
}
use commitment_workbench.Store.Runs.{Run, newer, task_list_row, is_before, list_tasks}

newer_irrefl : (a : Run) → newer a a ≡ false
unfolding newer
newer_irrefl a = ground (arith, text_lt_irrefl a.created_at, text_lt_irrefl a.id)

newer_trans : (a b c : Run) → newer a b ≡ true → newer b c ≡ true → newer a c ≡ true
unfolding newer
newer_trans a b c h k = ground (
  arith,
  text_eq_iff b.created_at a.created_at,
  text_eq_iff c.created_at b.created_at,
  text_eq_iff c.created_at a.created_at,
  text_lt_trans c.created_at b.created_at a.created_at,
  text_lt_trans c.id b.id a.id,
)

newer_total : (a b : Run) → a.id ≢ b.id → (newer a b ≡ true) ⊎ (newer b a ≡ true)
unfolding newer
newer_total a b ne = ground (
  arith,
  text_eq_iff b.created_at a.created_at,
  text_eq_iff a.created_at b.created_at,
  text_lt_total a.created_at b.created_at,
  text_lt_total a.id b.id,
)

-- The primary key: no two runs have one id.
abbrev pub DistinctIds : List Run → Type 0
DistinctIds [] = Unit {0}
DistinctIds (r ∷ rs) = All (λ x. r.id ≢ x.id) rs × DistinctIds rs

DistinctIds-Apart : (t : List Run) → DistinctIds t → Apart newer t
DistinctIds-Apart [] d = tt
DistinctIds-Apart (r ∷ t) d = (go t d.0, DistinctIds-Apart t d.1)
  where
    go :
        (xs : List Run)
        → All (λ x. r.id ≢ x.id) xs
        → All (λ x. (newer r x ≡ true) ⊎ (newer x r ≡ true)) xs
    go [] h = tt
    go (x ∷ xs) h = (newer_total r x h.0, go xs h.1)

is_before-newer :
    (c : Run) (t : List Run) → filter (is_before c.created_at c.id) t ≡ filter (newer c) t
unfolding newer
is_before-newer c [] = refl
is_before-newer c (r ∷ t) = ground (arith, is_before-newer c t)

-- The whole listing, newest first.
abbrev pub listing : List Run → List Run
listing = order_by newer

-- For runs with distinct ids, the page after a run holds the next `limit` runs of the whole listing:
-- none is skipped and none is shown twice, also among runs created at the same instant.
pub list_tasks-after :
    (limit : ℕ) (t xs ys : List Run) (c : Run)
    → DistinctIds t
    → listing t ≡ xs ++ c ∷ ys
    → list_tasks limit (some (c.created_at, c.id)) t ≡ map task_list_row (take limit ys)
unfolding list_tasks
list_tasks-after limit t xs ys c d e =
    let apart = DistinctIds-Apart t d in
    let sorted : Sorted newer (xs ++ c ∷ ys) =
      subst (Sorted newer) e (order_by-Sorted newer newer_irrefl newer_trans t apart) in
    ap (λ r. map task_list_row (take limit r))
      (ap listing (is_before-newer c t)
        ∙ (sym (filter-order_by newer newer_irrefl newer_trans (newer c) t apart)
            ∙ (ap (filter (newer c)) e
                ∙ filter-after newer newer_irrefl newer_trans xs ys c sorted)))

-- The first page holds the newest `limit` runs, in a strict order: newest first, ties by the larger id.
pub list_tasks-first :
    (limit : ℕ) (t : List Run)
    → DistinctIds t
    → (list_tasks limit none t ≡ map task_list_row (take limit (listing t)))
      × Sorted newer (listing t)
unfolding list_tasks
list_tasks-first limit t d =
    (refl, order_by-Sorted newer newer_irrefl newer_trans t (DistinctIds-Apart t d))
