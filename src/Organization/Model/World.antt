-- ===== src/Organization/Model/World.antt =====
-- The calls made for their effect, and the answers of what is outside the service.
use confirmd_platform.Common.{ℕ, Bool, Option, List, Text}
use confirmd_platform.Outcome.{Outcome}
use confirmd_platform.Effect.{Action, perform}
use confirmd_platform.Organization.Model.Rows.{
  Invitation, Organisation, User, OrgRole, ClientRole, OrgInvitation, UserOrgRole, OrgDid,
  OrgCredentials,
}

pub record NewInvitation : Type 0 where
  pub email : Text
  pub user_id : Text
  pub org_id : Text
  pub org_roles : List Text
  pub status : Invitation

pub record NewOrganisation : Type 0 where
  pub name : Text
  pub org_slug : Text
  pub logo : Text
  pub created_by : Text
  pub last_changed_by : Text

-- The `data` of `updateOrganizationById`; a field that is not given is `none`.
pub record OrgUpdate : Type 0 where
  pub client_id : Option (Option Text)
  pub client_secret : Option (Option Text)
  pub idp_id : Option (Option Text)

pub record PrimaryDid : Type 0 where
  pub did : Text
  pub org_id : Text
  pub id : Text
  pub did_document : Text
  pub network_id : Option Text

pub data Call : Type 0 where
  create_user_org_role : UserOrgRole → Call
  delete_user_org_roles : (user_id org_id : Text) → Call
  create_invitation : NewInvitation → Call
  update_invitation : (id : Text) (status : Invitation) → Call
  create_organisation : NewOrganisation → Call
  update_organisation : (data_given : OrgUpdate) (org_id : Text) → Call
  create_activity : (user_id org_id : Text) → Call
  store_webhook : (org_id url : Text) → Call
  upload_logo : (logo : Text) → Call
  send_email : (to : Text) → Call
  create_client : (org_name org_id token : Text) → Call
  delete_client : (idp_id token : Text) → Call
  generate_secret : (idp_id token : Text) → Call
  create_client_role : (idp_id token name : Text) → Call
  create_user_client_role : (idp_id token user_id : Text) (roles : List ClientRole) → Call
  delete_user_client_roles : (idp_id token user_id : Text) → Call
  unset_primary_did : (id : Text) → Call
  set_primary_did : PrimaryDid → Call

abbrev pub History : Type 0
History = List Call

abbrev pub Act : Type 0 → Type 0
Act A = Action Call A

-- What the service relies on and does not implement: every answer may depend on the calls made so
-- far, and every call may fail. The reads go by the tables of the database client, by the message
-- patterns of the other services, and by the methods of libs/client-registration.
pub record World : Type 0 where
  pub max_org_limit : Text
  pub organisation_count : History → Text → Outcome ℕ
  pub organisation_by_name : History → Text → Outcome (Option Organisation)
  pub organisation_by_slug : History → Text → Outcome (Option Organisation)
  pub organisation_by_id : History → Text → Outcome (Option Organisation)
  pub user_by_id : History → Text → Outcome (Option User)
  pub user_by_mail : History → Text → Outcome (Option User)
  pub user_by_user_id : History → Text → Outcome (Option User)
  pub invitation_by_id : History → Text → Outcome (Option OrgInvitation)
  pub invitations_by : History → (email org_id : Text) → Outcome (List OrgInvitation)
  pub role_by_name : History → Text → Outcome (Option OrgRole)
  pub all_roles : History → Outcome (List OrgRole)
  pub roles_by_ids : History → List Text → Outcome (List OrgRole)
  pub user_roles_by : History → (user_id org_id : Text) → Outcome (List UserOrgRole)
  pub agent_did_by_org : History → Text → Outcome (Option Text)
  pub dids_by_org : History → Text → Outcome (List OrgDid)
  pub did_by_did : History → Text → Outcome OrgDid
  pub primary_did_by_org : History → Text → Outcome OrgDid
  pub ledger_by_namespace : History → Text → Outcome (Option Text)
  pub ledger_by_name : History → Text → Outcome (Option Text)
  pub email_from : History → Outcome (List Text)
  pub token_from_env : History → Outcome Text
  pub management_token : History → (client_id client_secret : Option Text) → Outcome Text
  pub all_client_roles : History → (idp_id token : Text) → Outcome (List ClientRole)
  pub client_role_by_name : History → (idp_id token name : Text) → Outcome ClientRole
  pub answer : History → Call → Outcome (Unit {0})
  pub deleted_count : History → (user_id org_id : Text) → Outcome ℕ
  pub created_organisation : History → NewOrganisation → Outcome Organisation
  pub updated_organisation : History → OrgUpdate → Text → Outcome (Option Organisation)
  pub created_client : History → (org_name org_id token : Text) → Outcome OrgCredentials
  pub generated_secret : History → (idp_id token : Text) → Outcome Text
  pub uploaded_logo : History → Text → Outcome Text
  pub email_sent : History → Text → Bool

-- A call whose result the service does not use.
abbrev pub issue : World → Call → Act (Unit {0})
issue w call = perform call (λ h. w.answer h call)
