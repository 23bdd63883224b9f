-- ===== src/Organization/Invite/Clients.antt =====
-- `createInvitationByClientRoles`, for an organisation with a Keycloak client, and
-- `createInvitation`.
use confirmd_platform.Common.{
  member, not, Option, none, some, List, map, Text, filter, length, ◌==◌, if◌then◌else◌,
}
use confirmd_platform.Outcome.{not_found, org_not_found, org_role_id_not_found}
use confirmd_platform.Effect.{◌>>=◌, ◌>>◌, read, rethrow_rpc, throw, throw_if, for_each}
use confirmd_platform.Organization.Model.Rows.{Organisation, OrgRole, ClientRole, is_set}
use confirmd_platform.Organization.Model.World.{World, Act, Call, issue}
use confirmd_platform.Organization.Roles.{get_org_roles}
use confirmd_platform.Organization.Token.{token_of}
use confirmd_platform.Organization.Invite.{
  SendInvitation, BulkSendInvitation, trim, get_organization_details, check_user_exist_in_platform,
  get_user_first_name, invite_if_new, create_invitation_by_org_roles,
}

-- The names of the client's roles whose identifiers, trimmed, are asked for.
unfoldable pub matched_roles : List Text → List ClientRole → List Text
unfolding trim
matched_roles org_role_id client_roles =
    map (λ r. r.name) (filter (λ (r : ClientRole). member (trim r.id) org_role_id) client_roles)

unfoldable pub filtered_roles : List Text → List OrgRole → List Text
unfolding trim
filtered_roles matched roles =
    map (λ r. r.id) (filter (λ (r : OrgRole). member (trim r.name) matched) roles)

module _ (w : World) where
  -- One round of the loop of `createInvitationByClientRoles`.
  unfoldable pub invite_by_client_roles :
      (user_email user_id org_id : Text) (client_roles : List ClientRole) (roles : List OrgRole)
      → SendInvitation
      → Act (Unit {0})
  unfolding check_user_exist_in_platform get_user_first_name matched_roles filtered_roles
  invite_by_client_roles user_email user_id org_id client_roles roles invitation = do
    is_user_exist ← check_user_exist_in_platform w invitation.email
    first_name ← get_user_first_name w user_email
    let matched = matched_roles invitation.org_role_id client_roles
    throw_if (not (length invitation.org_role_id == length matched))
        (not_found org_role_id_not_found)
    invite_if_new w invitation.email user_email user_id org_id (filtered_roles matched roles)

  unfoldable pub create_invitation_by_client_roles :
      BulkSendInvitation → (user_email user_id idp_id : Text) → Act (Unit {0})
  unfolding for_each token_of get_org_roles invite_by_client_roles
  create_invitation_by_client_roles dto user_email user_id idp_id = do
    token ← token_of w user_id
    client_roles ← read (λ h. w.all_client_roles h idp_id token)
    roles ← get_org_roles w
    for_each dto.invitations
        (invite_by_client_roles user_email user_id dto.org_id client_roles roles)

  -- An organisation whose `idpId` is null or empty is served by the platform's own roles.
  unfoldable pub invite_all :
      BulkSendInvitation → (user_email user_id : Text) → Option Text → Act (Unit {0})
  unfolding create_invitation_by_org_roles create_invitation_by_client_roles
  invite_all dto user_email user_id none = create_invitation_by_org_roles w dto user_email user_id
  invite_all dto user_email user_id (some idp_id) =
      if is_set (some idp_id)
      then create_invitation_by_client_roles dto user_email user_id idp_id
      else create_invitation_by_org_roles w dto user_email user_id

  unfoldable pub invite_in :
      BulkSendInvitation → (user_id user_email : Text) → Option Organisation → Act (Unit {0})
  unfolding invite_all
  invite_in dto user_id user_email none = throw (not_found org_not_found)
  invite_in dto user_id user_email (some org) = do
    invite_all dto user_email user_id org.idp_id
    issue w (Call.create_activity user_id org.id)

  unfoldable pub create_invitation :
      BulkSendInvitation → (user_id user_email : Text) → Act (Unit {0})
  unfolding get_organization_details invite_in
  create_invitation dto user_id user_email =
      rethrow_rpc (get_organization_details w dto.org_id >>= invite_in dto user_id user_email)
