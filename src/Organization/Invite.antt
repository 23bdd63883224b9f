-- ===== src/Organization/Invite.antt =====
-- Sending invitations: `createInvitation` of apps/organization/src/organization.service.ts with
-- the methods that it calls, for an organisation without a Keycloak client.
pub mod Clients
pub mod Sent
pub mod Distinct
use confirmd_platform.Common.{
  ◌≡◌, arith, ℕ, Bool, true, false, not, ◌&&◌, ◌||◌, Option, none, some, List, [], ◌∷◌, map, Text,
  same, any, member, filter, length, ◌==◌, if◌then◌else◌,
}
use confirmd_platform.Naming.{is_space}
use confirmd_platform.Outcome.{
  Outcome, ok, not_found, internal, type_error, org_not_found, org_role_id_not_found, email_send,
  wrapped_internal,
}
use confirmd_platform.Effect.{
  ◌>>=◌, ◌>>◌, pure, throw, read, perform, catch_with, rethrow_rpc, non_null, throw_if, for_each,
}
use confirmd_platform.Organization.Model.Rows.{
  Invitation, accepted, rejected, pending, Organisation, User, OrgRole, ClientRole, OrgInvitation,
  is_set,
}
use confirmd_platform.Organization.Model.World.{World, Act, Call, History, NewInvitation, issue}
use confirmd_platform.Organization.Roles.{get_org_roles}
use confirmd_platform.Organization.Token.{token_of}

pub record SendInvitation : Type 0 where
  pub email : Text
  pub org_role_id : List Text

pub record BulkSendInvitation : Type 0 where
  pub invitations : List SendInvitation
  pub org_id : Text

abbrev pub is_pending : Invitation → Bool
is_pending pending = true
is_pending accepted = false
is_pending rejected = false

abbrev pub is_accepted : Invitation → Bool
is_accepted accepted = true
is_accepted pending = false
is_accepted rejected = false

-- The loop of `checkInvitationExist`, with its two flags.
unfoldable pub scan_invitations : List OrgInvitation → Bool → Bool → Bool
scan_invitations [] is_pending_invitation is_accepted_invitation =
    is_pending_invitation || is_accepted_invitation
scan_invitations (i ∷ rest) is_pending_invitation is_accepted_invitation =
    scan_invitations rest (if is_pending i.status then true else is_pending_invitation)
      (if is_accepted i.status then true else is_accepted_invitation)

abbrev pub is_nil {ℓ} : {A : Type ℓ} → List A → Bool
is_nil [] = true
is_nil (_ ∷ _) = false

-- `role.id.trim()`
unfoldable pub trim_start : Text → Text
unfolding is_space
trim_start [] = []
trim_start (c ∷ s) = if is_space c then trim_start s else c ∷ s

unfoldable pub trim_end : Text → Text
unfolding is_space
trim_end [] = []
trim_end (c ∷ s) = elim (trim_end s) [ [] ↦ if is_space c then [] else c ∷ [] | d ∷ r ↦ c ∷ d ∷ r ]

unfoldable pub trim : Text → Text
unfolding trim_start trim_end
trim s = trim_end (trim_start s)

-- The row of `createSendInvitation` starts as pending.
abbrev pub new_invitation : (email org_id user_id : Text) → List Text → NewInvitation
new_invitation email org_id user_id org_role_id = record {
  email = email;
  user_id = user_id;
  org_id = org_id;
  org_roles = org_role_id;
  status = pending;
}

module _ (w : World) where
  unfoldable pub check_invitation_exist : (email org_id : Text) → Act Bool
  unfolding scan_invitations
  check_invitation_exist email org_id = rethrow_rpc (
      read (λ h. w.invitations_by h email org_id) >>= λ found.
      pure (scan_invitations found false false))

  -- `getOrganizationDetails` of the repository wraps what is thrown in it.
  unfoldable pub get_organization_details : Text → Act (Option Organisation)
  get_organization_details org_id = catch_with wrapped_internal (
      if is_nil org_id
      then throw (not_found org_not_found)
      else read (λ h. w.organisation_by_id h org_id))

  pub get_organization_details-history :
      (org_id : Text) (h : History) → (get_organization_details org_id h).1 ≡ h
  unfolding get_organization_details
  get_organization_details-history org_id h = ground arith

  pub get_organization_details_ok :
      (org_id : Text) (h : History) (org : Option Organisation)
      → (get_organization_details org_id h).0 ≡ ok org
      → w.organisation_by_id h org_id ≡ ok org
  unfolding get_organization_details
  get_organization_details_ok org_id h org e = ground arith

  unfoldable pub create_send_invitation :
      (email org_id user_id : Text) (org_role_id : List Text) → Act (Unit {0})
  create_send_invitation email org_id user_id org_role_id =
      issue w (Call.create_invitation (new_invitation email org_id user_id org_role_id))

  -- `platformConfigData[0].emailFrom` throws on an empty table; `sendEmail` itself never throws,
  -- and says by its result whether the message went out.
  unfoldable pub send_invite_email_template : Text → Act Bool
  send_invite_email_template email = do
    senders ← read (λ h. w.email_from h)
    (if is_nil senders
        then throw type_error
        else perform (Call.send_email email) (λ h. ok (w.email_sent h email)))

  unfoldable pub check_user_exist_in_platform : Text → Act Bool
  check_user_exist_in_platform email = do
    found ← read (λ h. w.user_by_mail h email)
    pure (elim found [ none ↦ false | some u ↦ u.is_email_verified ])

  -- `const { firstName } = userData` throws on `null`.
  unfoldable pub get_user_first_name : Text → Act Text
  get_user_first_name user_email = do
    found ← read (λ h. w.user_by_mail h user_email)
    u ← non_null found
    pure u.first_name

  -- The last part of both loops: an address with a pending or accepted invitation, and the
  -- sender's own, are passed over.
  unfoldable pub invite_if_new :
      (email user_email user_id org_id : Text) (roles : List Text) → Act (Unit {0})
  unfolding check_invitation_exist create_send_invitation send_invite_email_template
  invite_if_new email user_email user_id org_id roles = do
    exists ← check_invitation_exist email org_id
    (if not exists && not (same user_email email)
        then (do
          create_send_invitation email org_id user_id roles
          sent ← catch_with (λ _. internal email_send) (send_invite_email_template email)
          pure tt)
        else pure tt)

  -- One round of the loop of `createInvitationByOrgRoles`.
  unfoldable pub invite_by_org_roles :
      (user_email user_id org_id : Text) → SendInvitation → Act (Unit {0})
  unfolding check_user_exist_in_platform get_user_first_name
  invite_by_org_roles user_email user_id org_id invitation = do
    is_user_exist ← check_user_exist_in_platform invitation.email
    first_name ← get_user_first_name user_email
    roles ← read (λ h. w.roles_by_ids h invitation.org_role_id)
    throw_if (is_nil roles) (not_found org_role_id_not_found)
    invite_if_new invitation.email user_email user_id org_id invitation.org_role_id

  unfoldable pub create_invitation_by_org_roles :
      BulkSendInvitation → (user_email user_id : Text) → Act (Unit {0})
  unfolding for_each
  create_invitation_by_org_roles dto user_email user_id =
      for_each dto.invitations (invite_by_org_roles user_email user_id dto.org_id)
