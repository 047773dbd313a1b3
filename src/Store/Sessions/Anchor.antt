-- ===== src/Store/Sessions/Anchor.antt =====
-- What establishing and ending a session do to what is read of it.
use commitment_workbench.Prelude.{
  ◌≡◌, refl, ap, ◌∙◌, ◌≢◌, Bool, true, false, Option, none, some, List, [], ◌∷◌, ◌++◌, arith, Text,
  text_eq_iff, any, head?, if◌then◌else◌, here, there,
}
use commitment_workbench.Prelude.Member.{Member, filter-Member}
use commitment_workbench.Store.Tables.{update_where, insert_or_ignore, select_one, order_by-Member}
use commitment_workbench.Store.Sessions.{
  SessionState, of_session, is_open, started_of, read_session_started_at, insert_session_state,
  select_active_session, mark_session_ended,
}

select_one-held :
    {A : Type 0} (p : A → Bool) (a : A) (t u : List A)
    → select_one p t ≡ some a
    → select_one p (t ++ u) ≡ some a
unfolding select_one
select_one-held p a [] u h = cc
select_one-held p a (x ∷ t) u h = ground (arith, select_one-held p a t u)

-- Establishing a session again keeps the anchor that it has, whatever the new one and whoever's it is.
pub started_at_anchored :
    (session_id started_at agent_id other : Text) (at : Text) (t : List SessionState)
    → read_session_started_at session_id t ≡ some at
    → read_session_started_at session_id (insert_session_state other started_at agent_id t)
      ≡ some at
unfolding read_session_started_at insert_session_state insert_or_ignore
started_at_anchored session_id started_at agent_id other at t h =
    go (any _ t) (select_one (of_session session_id) t) refl h
  where
    row : SessionState
    row = record {
      session_id = other;
      started_at = started_at;
      agent_id = agent_id;
      ended_at = none;
    }

    go :
        (b : Bool) (o : Option SessionState)
        → select_one (of_session session_id) t ≡ o
        → started_of o ≡ some at
        → started_of (select_one (of_session session_id) (if b then t else t ++ row ∷ [])) ≡ some at
    go b none e k = cc
    go true (some r) e k = ap started_of e ∙ k
    go false (some r) e k =
        ap started_of (select_one-held (of_session session_id) r t (row ∷ []) e) ∙ k

ended_rows :
    (session_id ended_at : Text) (t : List SessionState) (r : SessionState)
    → Member r (mark_session_ended session_id ended_at t)
    → is_open r ≡ true
    → of_session session_id r ≡ false
unfolding mark_session_ended update_where
ended_rows session_id at [] r m o = elim m [ ]
ended_rows session_id at (x ∷ t) r m o =
    go (of_session session_id x) refl (ended_rows session_id at t r) m
  where
    go :
        (b : Bool)
        → of_session session_id x ≡ b
        → (Member r (mark_session_ended session_id at t)
            → is_open r ≡ true
            → of_session session_id r ≡ false)
        → Member r (
            (if b then record x { ended_at = some at } else x) ∷ mark_session_ended session_id at t)
        → of_session session_id r ≡ false
    go true e ih (here q) = let shut = ap is_open q in cc (shut, o)
    go false e ih (here q) = rw q e
    go b e ih (there k) = ih k o

head-Member : {A : Type 0} (a : A) (xs : List A) → head? xs ≡ some a → Member a xs
head-Member a [] h = cc
head-Member a (x ∷ xs) h = here (cc h)

-- An ended session is never the active one: the active session, where there is one, is an open row of
-- another session.
pub ended-not_active :
    (session_id ended_at : Text) (t : List SessionState) (r : SessionState)
    → select_active_session (mark_session_ended session_id ended_at t) ≡ some r
    → (r.session_id ≢ session_id) × (r.ended_at ≡ none)
unfolding select_active_session
ended-not_active session_id at t r h =
    let (listed, live) =
      filter-Member is_open r (mark_session_ended session_id at t)
        (order_by-Member _ r _ (head-Member r _ h)) in
    (
      λ same.
          let out = ended_rows session_id at t r listed live in
          ground (arith, text_eq_iff r.session_id session_id),
      null r.ended_at live,
    )
  where
    null : (o : Option Text) → (elim o [ none ↦ true | some _ ↦ false ]) ≡ true → o ≡ none
    null none e = refl
    null (some a) e = cc
