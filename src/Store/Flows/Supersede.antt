-- ===== src/Store/Flows/Supersede.antt =====
-- What consuming, denying and superseding a flow leave in the table.
use commitment_workbench.Prelude.{
  ◌≡◌, refl, ap, ◌∙◌, ◌↔◌, Bool, true, false, not, ◌&&◌, Option, none, some, List, [], ◌∷◌, arith,
  Text, text_eq, if◌then◌else◌,
}
use commitment_workbench.Prelude.Member.{Member, filter-Member, Member-filter}
use commitment_workbench.Store.Tables.{update_where, delete_where, select_one}
use commitment_workbench.Store.Flows.{
  OauthState, of_key, is_pending, payload_of, read_oauth_state, delete_oauth_state,
  mark_oauth_state_denied, delete_oauth_state_by_service, denied,
}

gone :
    (state_key : Text) (t : List OauthState)
    → select_one (of_key state_key) (delete_oauth_state state_key t) ≡ none
unfolding delete_oauth_state delete_where select_one
gone state_key [] = refl
gone state_key (x ∷ t) = ground (arith, gone state_key t)

denied_read :
    (state_key : Text) (t : List OauthState)
    → select_one (of_key state_key) (mark_oauth_state_denied state_key t)
      ≡ elim (select_one (of_key state_key) t) [
        | none ↦ none
        | some r ↦ some (record r { payload = record r.payload { status = some denied } })
      ]
unfolding mark_oauth_state_denied update_where select_one
denied_read state_key [] = refl
denied_read state_key (x ∷ t) = go (of_key state_key x) refl (denied_read state_key t)
  where
    go :
        (b : Bool)
        → of_key state_key x ≡ b
        → (select_one (of_key state_key) (mark_oauth_state_denied state_key t)
            ≡ elim (select_one (of_key state_key) t) [
              | none ↦ none
              | some r ↦ some (record r { payload = record r.payload { status = some denied } })
            ])
        → select_one (of_key state_key) (
            (if b then record x { payload = record x.payload { status = some denied } } else x)
            ∷ mark_oauth_state_denied state_key t)
          ≡ elim (if b then some x else select_one (of_key state_key) t) [
            | none ↦ none
            | some r ↦ some (record r { payload = record r.payload { status = some denied } })
          ]
    go true e ih = rw e refl
    go false e ih = rw e ih

-- A flow is used once and its denial is seen: after its deletion its key reads as absent, and after its
-- denial it reads as the same flow with the status `denied`, or as absent where it was.
pub single_use :
    (state_key : Text) (t : List OauthState)
    → (read_oauth_state state_key (delete_oauth_state state_key t) ≡ none)
      × (read_oauth_state state_key (mark_oauth_state_denied state_key t)
          ≡ elim (read_oauth_state state_key t) [
            | none ↦ none
            | some d ↦ some (record d { status = some denied })
          ])
unfolding read_oauth_state
single_use state_key t = (
  ap payload_of (gone state_key t),
  ap payload_of (denied_read state_key t) ∙ swap (select_one (of_key state_key) t),
)
  where
    swap :
        (o : Option OauthState)
        → payload_of (elim o [
          | none ↦ none
          | some r ↦ some (record r { payload = record r.payload { status = some denied } })
        ])
          ≡ elim (payload_of o) [ none ↦ none | some d ↦ some (record d { status = some denied }) ]
    swap none = refl
    swap (some r) = refl

-- Superseding a service's flows removes exactly its pending ones: a row stays when it was there and is
-- of another service or has been denied.
pub superseded_iff :
    (service : Text) (t : List OauthState) (r : OauthState)
    → Member r (delete_oauth_state_by_service service t)
      ↔ (Member r t × ((text_eq r.payload.service service && is_pending r) ≡ false))
unfolding delete_oauth_state_by_service delete_where
superseded_iff service t r = (
  λ m.
      let (listed, kept) =
        filter-Member (λ x. not (text_eq x.payload.service service && is_pending x)) r t m in
      (listed, ground (arith, kept)),
  λ (listed, kept).
      Member-filter (λ x. not (text_eq x.payload.service service && is_pending x)) r t listed
        (rw kept refl),
)
