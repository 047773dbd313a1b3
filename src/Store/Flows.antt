-- ===== src/Store/Flows.antt =====
-- oauth-state.ts: the pending authorization flows.
use commitment_workbench.Prelude.{Bool, true, false, ◌&&◌, Option, none, some, List, Text, text_eq}
use commitment_workbench.Store.Tables.{update_where, delete_where, insert_unique, select_one}
pub mod Supersede

pub data FlowStatus : Type 0 where
  denied : FlowStatus

pub record OauthStateData : Type 0 where
  pub code_verifier : Text
  pub code_challenge : Text
  pub service : Text
  pub auth_code : Option Text
  pub created_at : Text
  pub expires_at : Text
  pub status : Option FlowStatus

pub record OauthState : Type 0 where
  pub state_key : Text
  pub payload : OauthStateData

abbrev pub of_key : Text → OauthState → Bool
of_key state_key r = text_eq r.state_key state_key

-- status IS NULL
abbrev pub is_pending : OauthState → Bool
is_pending r = elim r.payload.status [ none ↦ true | some _ ↦ false ]

abbrev pub payload_of : Option OauthState → Option OauthStateData
payload_of none = none
payload_of (some r) = some r.payload

-- `none` is a violation of the primary key.
unfoldable pub insert_oauth_state :
    Text → OauthStateData → List OauthState → Option (List OauthState)
insert_oauth_state state_key payload =
    insert_unique (λ a b. text_eq a.state_key b.state_key)
      (record { state_key = state_key; payload = payload })

unfoldable pub read_oauth_state : Text → List OauthState → Option OauthStateData
read_oauth_state state_key t = payload_of (select_one (of_key state_key) t)

unfoldable pub delete_oauth_state : Text → List OauthState → List OauthState
delete_oauth_state state_key = delete_where (of_key state_key)

unfoldable pub mark_oauth_state_denied : Text → List OauthState → List OauthState
mark_oauth_state_denied state_key =
    update_where (of_key state_key)
      (λ r. record r { payload = record r.payload { status = some denied } })

unfoldable pub delete_oauth_state_by_service : Text → List OauthState → List OauthState
delete_oauth_state_by_service service =
    delete_where (λ r. text_eq r.payload.service service && is_pending r)
