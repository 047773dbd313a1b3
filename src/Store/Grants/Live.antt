-- ===== src/Store/Grants/Live.antt =====
-- What the evaluator can be led to allow by the entries of the table.
use commitment_workbench.Prelude.{
  ◌≡◌, refl, sym, subst, ap, ◌∙◌, ◌≢◌, ◌⊎◌, inl, inr, Bool, true, false, not, ◌||◌, Option, none,
  some, List, [], ◌∷◌, arith, All, here, there, Text, text_eq, text_eq_iff, if◌then◌else◌, &&_true,
}
use commitment_workbench.Prelude.Member.{Member, filter-Member, All-Member}
use commitment_workbench.Governance.Policy.{
  PolicyEntry, PolicyAction, evaluate_policy, allow, allows, denies, task,
}
use commitment_workbench.Governance.Policy.Winner.{IsExact, evaluate_policy-allow-IsExact}
use commitment_workbench.Store.Tables.{update_where, delete_where, order_by-Member, map-Member}
use commitment_workbench.Store.Grants.{
  PolicyRow, is_active, is_unexpired, is_null, is_spendable, sql_eq, select_active_policy_entries,
  consume_task_grant, delete_policy_entries_except,
}

-- A row that is in force in a session at an instant.
pub record IsLive (session_id : Option Text) (now : Text) (r : PolicyRow) : Type 0 where
  pub unconsumed : r.consumed_at ≡ none
  pub unexpired : is_unexpired now r.entry.expires_at ≡ true
  pub in_scope : (r.entry.session_id ≡ none) ⊎ (r.entry.session_id ≡ session_id)

null-none : {A : Type 0} (o : Option A) → is_null o ≡ true → o ≡ none
null-none none h = refl
null-none (some a) h = cc

scope_of : (a b : Option Text) → (is_null a || sql_eq a b) ≡ true → (a ≡ none) ⊎ (a ≡ b)
scope_of none b h = inl refl
scope_of (some a) none h = cc
scope_of (some a) (some b) h = inr (ground (arith, text_eq_iff a b))

active-IsLive :
    (session_id : Option Text) (now : Text) (r : PolicyRow)
    → is_active session_id now r ≡ true
    → IsLive session_id now r
active-IsLive session_id now r h =
    let (h1, d) = &&_true _ _ h in
    let (h2, c) = &&_true _ _ h1 in
    let (a, b) = &&_true _ _ h2 in
    record {
      unconsumed = null-none r.consumed_at d;
      unexpired = c;
      in_scope = scope_of r.entry.session_id session_id b;
    }

-- Every entry that the evaluator is given is that of a live row of the table.
pub select_active-IsLive :
    (session_id : Option Text) (now : Text) (t : List PolicyRow) (e : PolicyEntry)
    → Member e (select_active_policy_entries session_id now t)
    → (r : PolicyRow) × Member r t × IsLive session_id now r × (e ≡ r.entry)
unfolding select_active_policy_entries
select_active-IsLive session_id now t e m =
    let (r, k, q) = map-Member (λ x. x.entry) e _ m in
    let (listed, active) = filter-Member (is_active session_id now) r t (order_by-Member _ r _ k) in
    (r, listed, active-IsLive session_id now r active, q)

module _ {P : Type 0} (lower : Text → Text) (action : PolicyAction P) where
  -- When the evaluator allows an action over the entries in force, the table holds a row that permits
  -- it: of that session or of none, not expired, not consumed, naming the action exactly, and named by
  -- the decision.
  pub active_allow-IsLive :
      (session_id : Option Text) (now : Text) (t : List PolicyRow)
      → (evaluate_policy lower (select_active_policy_entries session_id now t) action).decision
        ≡ allow
      → (r : PolicyRow) × Member r t
        × IsLive session_id now r
        × IsExact lower action r.entry
        × (r.entry.decision ≡ allows)
        × ((evaluate_policy lower (select_active_policy_entries session_id now t) action).entry_id
            ≡ some r.entry.id)
  active_allow-IsLive session_id now t h =
      let (e, authority, exact, result) =
        evaluate_policy-allow-IsExact lower action (select_active_policy_entries session_id now t)
          h in
      let (r, listed, live, same) = select_active-IsLive session_id now t e authority.listed in
      (
        r,
        listed,
        live,
        subst (IsExact lower action) same exact,
        ap (λ x. x.decision) (sym same) ∙ authority.permits,
        ap (λ d. d.entry_id) result ∙ ap (λ x. some x.id) same,
      )

  -- When every entry is deleted but those of one id, and these deny, no action is allowed any more, in
  -- any session and at any time.
  pub floor_denies :
      (keep : Text) (session_id : Option Text) (now : Text) (t : List PolicyRow)
      → All (λ r. r.entry.id ≡ keep → r.entry.decision ≡ denies) t
      → (evaluate_policy lower
          (select_active_policy_entries session_id now (delete_policy_entries_except keep t))
          action).decision
        ≢ allow
  unfolding delete_policy_entries_except delete_where
  floor_denies keep session_id now t floors h =
      let (r, listed, live, exact, permits, named) = active_allow-IsLive session_id now _ h in
      let (before, kept) = filter-Member (λ x. not (not (text_eq x.entry.id keep))) r t listed in
      let denied : r.entry.decision ≡ denies =
        All-Member (λ x. x.entry.id ≡ keep → x.entry.decision ≡ denies) r t floors before
          (ground (arith, text_eq_iff r.entry.id keep)) in
      cc (permits, denied)

consumed_out :
    (id at : Text) (t : List PolicyRow) (r : PolicyRow)
    → Member r (consume_task_grant id at t)
    → is_spendable id r ≡ false
unfolding consume_task_grant update_where
consumed_out id at [] r m = elim m [ ]
consumed_out id at (x ∷ t) r m = go (is_spendable id x) refl (consumed_out id at t r) m
  where
    go :
        (b : Bool)
        → is_spendable id x ≡ b
        → (Member r (consume_task_grant id at t) → is_spendable id r ≡ false)
        → Member r
            ((if b then record x { consumed_at = some at } else x) ∷ consume_task_grant id at t)
        → is_spendable id r ≡ false
    go true e ih (here q) = rw q (ground arith)
    go false e ih (here q) = rw q e
    go true e ih (there k) = ih k
    go false e ih (there k) = ih k

update_where-none :
    {A : Type 0} (p : A → Bool) (f : A → A) (t : List A)
    → ((a : A) → Member a t → p a ≡ false)
    → update_where p f t ≡ t
unfolding update_where
update_where-none p f [] h = refl
update_where-none p f (x ∷ t) h =
    rw (h x (here refl), update_where-none p f t (λ a m. h a (there m))) refl

-- A task grant is spent once: after it is consumed no row in force is a task grant of that id, in any
-- session and at any time, and a further call changes nothing.
pub consume_task_grant_once :
    (id at : Text) (t : List PolicyRow)
    → ((session_id : Option Text) (now : Text) (e : PolicyEntry)
        → Member e (select_active_policy_entries session_id now (consume_task_grant id at t))
        → e.source ≡ task
        → e.id ≢ id)
      × ((again : Text)
          → consume_task_grant id again (consume_task_grant id at t) ≡ consume_task_grant id at t)
unfolding consume_task_grant
consume_task_grant_once id at t = (
  λ session_id now e m source_eq id_eq.
      let (r, listed, live, same) =
        select_active-IsLive session_id now (consume_task_grant id at t) e m in
      let spent = consumed_out id at t r listed in
      let is_task_row : r.entry.source ≡ task = ap (λ x. x.source) (sym same) ∙ source_eq in
      let named : r.entry.id ≡ id = ap (λ x. x.id) (sym same) ∙ id_eq in
      let free : r.consumed_at ≡ none = live.unconsumed in
      ground (arith, text_eq_iff r.entry.id id),
  λ again.
      update_where-none (is_spendable id) (λ r. record r { consumed_at = some again })
        (consume_task_grant id at t) (consumed_out id at t),
)
