-- ===== src/Organization/Update.antt =====
-- Changing an organisation: `updateOrganization` and `_createConnection` of
-- apps/organization/src/organization.service.ts. Its calls are told apart here by a type of their
-- own.
pub mod Agent
mod Examples
use confirmd_platform.Common.{
  ℕ, Bool, true, false, not, ◌&&◌, ◌||◌, Option, none, some, List, Text, same, if◌then◌else◌,
}
use confirmd_platform.Naming.{create_org_slug}
use confirmd_platform.Outcome.{Outcome, conflict, http, organisation_exists}
use confirmd_platform.Effect.{
  Action, ◌>>=◌, ◌>>◌, pure, read, perform, catch_with, rethrow_rpc, throw_if, non_null,
}
use confirmd_platform.Organization.Model.Rows.{is_set}
use confirmd_platform.Organization.Create.{is_valid_base64}

-- `IUpdateOrganization`; an absent field is `none`.
pub record UpdateOrganization : Type 0 where
  pub name : Text
  pub description : Option Text
  pub org_id : Text
  pub logo : Option Text
  pub website : Option Text
  pub org_slug : Option Text
  pub is_public : Option Bool
  pub user_id : Option Text
  pub country_id : Option ℕ
  pub city_id : Option ℕ
  pub state_id : Option ℕ

-- The columns of `organisation` that are looked at here.
pub record StoredOrg : Type 0 where
  pub id : Text
  pub name : Text
  pub logo_url : Option Text

pub record AgentInvitation : Type 0 where
  pub agent_id : Text
  pub connection_invitation : Text

-- The calls made for their effect.
pub data Change : Type 0 where
  upload_file : (logo : Text) → Change
  update_row : UpdateOrganization → Change
  create_connection : (org_name logo_url : Option Text) → (org_id : Text) → Change
  update_invitation : (org_id : Text) → (connection_invitation : Option Text) → Change
  record_activity : (user_id org_id : Text) → Change

-- The database, the store of images, the connection service.
pub record UpdateServices : Type 0 where
  pub org_by_name : List Change → (name : Text) → Outcome (Option StoredOrg)
  pub agent_invitation : List Change → (id : Text) → Outcome (Option AgentInvitation)
  pub uploaded : List Change → (logo : Text) → Outcome Text
  pub updated_row : List Change → UpdateOrganization → Outcome StoredOrg
  pub created_connection : List Change → (org_id : Text) → Outcome (Option Text)
  pub done : List Change → Change → Outcome (Unit {0})

abbrev Act : Type 0 → Type 0
Act A = Action Change A

-- A property read with `?.`
pub data JsField : Type 0 where
  undefined null : JsField
  text : Text → JsField

abbrev pub name_field : Option StoredOrg → JsField
name_field none = undefined
name_field (some org) = text org.name

abbrev nullable_field : Option Text → JsField
nullable_field none = null
nullable_field (some t) = text t

abbrev pub logo_field : Option StoredOrg → JsField
logo_field none = undefined
logo_field (some org) = nullable_field org.logo_url

-- `===`
unfoldable pub same_field : JsField → JsField → Bool
same_field undefined undefined = true
same_field undefined null = false
same_field undefined (text t) = false
same_field null undefined = false
same_field null null = true
same_field null (text t) = false
same_field (text s) undefined = false
same_field (text s) null = false
same_field (text s) (text t) = same s t

-- `organizationExist && organizationExist.id !== orgId`
abbrev pub is_other : Option StoredOrg → (org_id : Text) → Bool
is_other none org_id = false
is_other (some org) org_id = not (same org.id org_id)

-- `checkAgentIsExists?.connectionInvitation || checkAgentIsExists?.agentId`
abbrev pub has_agent : Option AgentInvitation → Bool
has_agent none = false
has_agent (some i) = is_set (some i.connection_invitation) || is_set (some i.agent_id)

abbrev is_image : Option Text → Bool
is_image none = false
is_image (some logo) = is_valid_base64 logo

abbrev pub with_update :
    UpdateOrganization → (user_id : Text) → (logo : Option Text) → UpdateOrganization
with_update dto user_id logo = record {
  name = dto.name;
  description = dto.description;
  org_id = dto.org_id;
  logo = logo;
  website = dto.website;
  org_slug = some (create_org_slug dto.name);
  is_public = dto.is_public;
  user_id = some user_id;
  country_id = dto.country_id;
  city_id = dto.city_id;
  state_id = dto.state_id;
}

module _ (o : UpdateServices) where
  unfoldable pub check_name : (name org_id : Text) → Act (Option StoredOrg)
  check_name name org_id = do
    existing ← read (λ h. o.org_by_name h name)
    throw_if (is_other existing org_id) (conflict organisation_exists)
    pure existing

  -- The address of an uploaded image; any other logo is dropped.
  unfoldable pub stored_logo : Option Text → Act (Option Text)
  stored_logo none = pure none
  stored_logo (some logo) =
      if is_image (some logo)
      then (rethrow_rpc (perform (upload_file logo) (λ h. o.uploaded h logo)) >>= λ url.
          pure (some url))
      else pure none

  -- `_createConnection`, which takes the name first.
  unfoldable pub create_connection_for :
      (org_name logo_url : Option Text) → (org_id : Text) → Act (Option Text)
  create_connection_for org_name logo_url org_id =
      catch_with http
        (perform (create_connection org_name logo_url org_id) (λ h. o.created_connection h org_id))

  -- The two branches; the second leaves `organizationDetails` undefined, and passes the logo as
  -- the name and the name as the logo.
  unfoldable pub write_details :
      Bool → Option StoredOrg → UpdateOrganization → (org_id : Text) → Act (Option StoredOrg)
  unfolding create_connection_for same_field
  write_details false existing dto org_id =
      perform (update_row dto) (λ h. o.updated_row h dto) >>= λ org. pure (some org)
  write_details true existing dto org_id =
      let details : Option StoredOrg = none in
      if not (same_field (logo_field details) (logo_field existing))
        || not (same_field (name_field details) (name_field existing))
      then (create_connection_for dto.logo (some dto.name) org_id >>= λ invitation.
          perform (update_invitation org_id invitation)
            (λ h. o.done h (update_invitation org_id invitation))
          >> pure details)
      else pure details

  unfoldable pub finish_update :
      Option StoredOrg → UpdateOrganization → (user_id org_id : Text) → Act StoredOrg
  finish_update existing dto user_id org_id = do
    invitation ← read (λ h. o.agent_invitation h org_id)
    details ← write_details (has_agent invitation) existing dto org_id
    org ← non_null details
    perform (record_activity user_id org.id) (λ h. o.done h (record_activity user_id org.id))
    pure org

  unfoldable pub update_organization : UpdateOrganization → (user_id org_id : Text) → Act StoredOrg
  update_organization dto user_id org_id = rethrow_rpc (do
    existing ← check_name dto.name org_id
    logo ← stored_logo dto.logo
    finish_update existing (with_update dto user_id logo) user_id org_id)
