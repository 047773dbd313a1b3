-- ===== src/Store/Holds/Sweep.antt =====
-- The sweep of a run's holds (agent/user-agent.ts, cancelTask).
use commitment_workbench.Prelude.{
  ◌≡◌, refl, sym, ap, ◌∙◌, ◌≢◌, true, false, not, List, [], ◌∷◌, arith, Text, text_eq_iff, here,
  there, inl, inr, Bool-cases,
}
use commitment_workbench.Prelude.Member.{Member, filter-Member, Member-filter}
use commitment_workbench.Store.Tables.{delete_where, Member-order_by, Member-map}
use commitment_workbench.Store.Holds.{
  HeldCall, HeldRef, of_id, of_run, older, held_ref, select_held_calls_for_run,
  delete_held_tool_call,
}

-- The loop of `cancelTask` over the holds that it read, as far as it writes this table.
unfoldable pub sweep : List HeldRef → List HeldCall → List HeldCall
sweep [] t = t
sweep (x ∷ xs) t = sweep xs (delete_held_tool_call x.id t)

swept-Member :
    (xs : List HeldRef) (t : List HeldCall) (r : HeldCall)
    → Member r (sweep xs t)
    → Member r t × ((x : HeldRef) → Member x xs → x.id ≢ r.id)
unfolding sweep delete_held_tool_call delete_where
swept-Member [] t r m = (m, λ x k. elim k [ ])
swept-Member (x ∷ xs) t r m =
    let (listed, others) = swept-Member xs (delete_held_tool_call x.id t) r m in
    let (before, kept) = filter-Member (λ y. not (of_id x.id y)) r t listed in
    (before, λ y k. go y kept others k)
  where
    go :
        (y : HeldRef)
        → not (of_id x.id r) ≡ true
        → ((z : HeldRef) → Member z xs → z.id ≢ r.id)
        → Member y (x ∷ xs)
        → y.id ≢ r.id
    go y kept others (here e) same =
        let q : r.id ≡ x.id = sym same ∙ ap (λ z. z.id) e in ground (arith, text_eq_iff r.id x.id)
    go y kept others (there k) same = others y k same

sweep_keeps :
    (xs : List HeldRef) (u : List HeldCall) (r : HeldCall)
    → Member r u
    → ((x : HeldRef) → Member x xs → x.id ≢ r.id)
    → Member r (sweep xs u)
unfolding sweep delete_held_tool_call delete_where
sweep_keeps [] u r m others = m
sweep_keeps (x ∷ xs) u r m others =
    sweep_keeps xs (delete_held_tool_call x.id u) r
      (Member-filter (λ y. not (of_id x.id y)) r u m
        (let apart = others x (here refl) in ground (arith, text_eq_iff r.id x.id)))
      (λ y k. others y (there k))

-- Deleting every hold that `selectHeldCallsForRun` reads for a run leaves the run no hold at all, and
-- leaves each row whose id is none of theirs.
pub sweep_run :
    (run_id : Text) (t : List HeldCall)
    → ((r : HeldCall)
        → Member r (sweep (select_held_calls_for_run run_id t) t)
        → of_run run_id r ≡ false)
      × ((r : HeldCall)
          → Member r t
          → ((x : HeldRef) → Member x (select_held_calls_for_run run_id t) → x.id ≢ r.id)
          → Member r (sweep (select_held_calls_for_run run_id t) t))
unfolding select_held_calls_for_run
sweep_run run_id t =
    (λ r m. swept r m, λ r m others. sweep_keeps (select_held_calls_for_run run_id t) t r m others)
  where
    swept :
        (r : HeldCall)
        → Member r (sweep (select_held_calls_for_run run_id t) t)
        → of_run run_id r ≡ false
    swept r m =
        let (listed, others) = swept-Member (select_held_calls_for_run run_id t) t r m in
        elim (Bool-cases (of_run run_id r)) [
          | inr e ↦ e
          | inl e ↦ absurd (
              others (held_ref r)
                (Member-map held_ref r _
                  (Member-order_by older r _ (Member-filter (of_run run_id) r t listed e)))
                refl)
        ]
