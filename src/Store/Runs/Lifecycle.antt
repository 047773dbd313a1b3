-- ===== src/Store/Runs/Lifecycle.antt =====
-- The life of one run under any sequence of writes.
use commitment_workbench.Prelude.{
  ◌≡◌, refl, sym, subst, ◌∙◌, ◌≢◌, Bool, true, false, ◌&&◌, Option, none, some, List, [], ◌∷◌, ◌++◌,
  arith, Text, text_eq, text_eq_iff, text_eq_refl, text_eq_sym, if◌then◌else◌, any, here, there,
}
use commitment_workbench.Prelude.Member.{Member, filter-Member}
use commitment_workbench.Store.Tables.{update_where, insert_unique, select_one}
use commitment_workbench.Store.Runs.{
  Run, Status, running, completed, failed, denied, expired, cancelled, has_id, is_non_terminal,
  read_commission_run, mark_runs_expired_for_session, select_non_terminal_runs,
  insert_commission_run, mcp_commission,
}
use commitment_workbench.Store.Runs.Writes.{
  Write, apply_write, CanBecome, unchanged, from_running, from_awaiting, resumed, dropped, lapsed,
  Evolves, AllEvolve, done, next, apply_write-AllEvolve,
}

unfoldable pub apply_writes : List Write → List Run → List Run
apply_writes [] t = t
apply_writes (w ∷ ws) t = apply_writes ws (apply_write w t)

-- The statuses in which a run rests for good.
pub data IsTerminal : Status → Type 0 where
  is_completed : IsTerminal completed
  is_failed : IsTerminal failed
  is_denied : IsTerminal denied
  is_expired : IsTerminal expired
  is_cancelled : IsTerminal cancelled

terminal_stays : {s s' : Status} → CanBecome s s' → IsTerminal s → s' ≡ s
terminal_stays unchanged t = refl
terminal_stays from_running t = elim t [ ]
terminal_stays from_awaiting t = elim t [ ]
terminal_stays resumed t = elim t [ ]
terminal_stays dropped t = elim t [ ]
terminal_stays lapsed t = elim t [ ]

read_evolved :
    {t u : List Run} (id : Text) (r : Run)
    → AllEvolve t u
    → read_commission_run id t ≡ some r
    → (r' : Run) × (read_commission_run id u ≡ some r') × Evolves r r'
unfolding read_commission_run select_one
read_evolved id r done h = cc
read_evolved id r (next {r = x} {r' = x'} {t = t} {u = u} e rest) h =
    go (has_id id x) refl (read_evolved id r rest)
  where
    go :
        (b : Bool)
        → has_id id x ≡ b
        → (select_one (has_id id) t ≡ some r
            → (r' : Run) × (select_one (has_id id) u ≡ some r') × Evolves r r')
        → (r' : Run) × ((if has_id id x' then some x' else select_one (has_id id) u) ≡ some r')
          × Evolves r r'
    go true q ih =
        let same : has_id id x' ≡ true = rw e.same_id q in
        (x', rw same refl, subst (λ y. Evolves y x') (ground arith) e)
    go false q ih =
        let other : has_id id x' ≡ false = rw e.same_id q in
        let (y, k, v) = ih (ground arith) in (y, rw other k, v)

-- A run with a terminal status keeps it, and can still be read, whatever writes follow, in any order and
-- by any caller.
pub terminal_absorbing :
    (ws : List Write) (t : List Run) (id : Text) (r : Run)
    → read_commission_run id t ≡ some r
    → IsTerminal r.status
    → (r' : Run) × (read_commission_run id (apply_writes ws t) ≡ some r')
      × (r'.status ≡ r.status)
      × (r'.session_id ≡ r.session_id)
      × (r'.goal ≡ r.goal)
unfolding apply_writes
terminal_absorbing [] t id r h k = (r, h, refl, refl, refl)
terminal_absorbing (w ∷ ws) t id r h k =
    let (x, hx, e) = read_evolved id r (apply_write-AllEvolve w t) h in
    let s = terminal_stays e.step k in
    let (y, hy, sy, oy, gy) =
      terminal_absorbing ws (apply_write w t) id x hx (subst IsTerminal (sym s) k) in
    (y, hy, sy ∙ s, oy ∙ e.same_session, gy ∙ e.same_goal)

abbrev in_session : Text → Run → Bool
in_session s r = text_eq r.session_id s && is_non_terminal r.status

expired_out :
    (session at : Text) (t : List Run) (r : Run)
    → Member r (mark_runs_expired_for_session session at t)
    → in_session session r ≡ false
unfolding mark_runs_expired_for_session update_where
expired_out session at [] r m = elim m [ ]
expired_out session at (x ∷ t) r m = go (in_session session x) refl (expired_out session at t r) m
  where
    go :
        (b : Bool)
        → in_session session x ≡ b
        → (Member r (mark_runs_expired_for_session session at t) → in_session session r ≡ false)
        → Member r (
            (if b then record x { status = expired; updated_at = at } else x)
            ∷ mark_runs_expired_for_session session at t)
        → in_session session r ≡ false
    go true e ih (here q) = rw q (ground arith)
    go false e ih (here q) = rw q e
    go true e ih (there k) = ih k
    go false e ih (there k) = ih k

-- Once a session's runs are marked expired, none of the runs that count as pending belongs to it.
pub session_expired :
    (session at : Text) (t : List Run) (r : Run)
    → Member r (select_non_terminal_runs (mark_runs_expired_for_session session at t))
    → r.session_id ≢ session
unfolding select_non_terminal_runs
session_expired session at t r m same =
    let (listed, live) =
      filter-Member (λ x. is_non_terminal x.status) r (mark_runs_expired_for_session session at t)
        m in
    let out = expired_out session at t r listed in ground (arith, text_eq_iff r.session_id session)

select_one-snoc :
    {A : Type 0} (p : A → Bool) (x : A) (t : List A)
    → any p t ≡ false
    → p x ≡ true
    → (select_one p t ≡ none) × (select_one p (t ++ x ∷ []) ≡ some x)
unfolding select_one
select_one-snoc p x [] h k = ground arith
select_one-snoc p x (y ∷ t) h k = ground (arith, select_one-snoc p x t)

any_flipped :
    (id : Text) (r : Run) (t : List Run)
    → r.id ≡ id
    → any (λ b. text_eq r.id b.id) t ≡ any (has_id id) t
any_flipped id r [] e = refl
any_flipped id r (x ∷ t) e = ground (arith, any_flipped id r t e, text_eq_sym id x.id)

-- An insert goes through only where no run has the id; then the run can be read back, running, with the
-- goal, data and session given, and updated when it was created.
pub insert-read :
    (id goal session at : Text) (d : Option Text) (t u : List Run)
    → insert_commission_run id goal d session at t ≡ some u
    → (read_commission_run id t ≡ none)
      × ((r : Run) × (read_commission_run id u ≡ some r)
          × (r.status ≡ running)
          × (r.goal ≡ goal)
          × (r.run_data ≡ d)
          × (r.session_id ≡ session)
          × (r.created_at ≡ at)
          × (r.updated_at ≡ at))
unfolding insert_commission_run insert_unique read_commission_run
insert-read id goal session at d t u h =
    let r : Run = record {
      id = id;
      origin = mcp_commission;
      goal = goal;
      run_data = d;
      status = running;
      session_id = session;
      created_at = at;
      updated_at = at;
      label = none;
      status_detail = none;
      awaited_slot_keys = none;
    } in
    let fresh : any (has_id id) t ≡ false = ground (arith, any_flipped id r t refl) in
    let (before, after) = select_one-snoc (has_id id) r t fresh (text_eq_refl id) in
    (before, (r, ground arith, refl, refl, refl, refl, refl, refl))
