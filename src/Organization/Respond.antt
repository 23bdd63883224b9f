-- ===== src/Organization/Respond.antt =====
-- Answering an invitation: `transition` of libs/enum/src/enum.ts, and `updateOrgInvitation` and
-- `updateClientInvitation` of apps/organization/src/organization.service.ts.
pub mod Guarded
pub mod Granted
use confirmd_platform.Common.{
  ℕ, Bool, true, false, not, ◌&&◌, ◌||◌, Option, none, some, List, [], ◌∷◌, map, Text, same, any,
  if◌then◌else◌, ℤ, pos, ltb_ℤ,
}
use confirmd_platform.Cast.{to_number, no_options}
use confirmd_platform.Outcome.{
  Outcome, ok, err, Fault, bad_request, not_found, conflict, type_error, maximum_orgs_limit,
  invitation_not_found, invalid_org_id, org_not_found, invitation_status_update_invalid,
}
use confirmd_platform.Effect.{
  ◌>>=◌, ◌>>◌, pure, throw, lift, read, start, rethrow_rpc, throw_if, for_each,
}
use confirmd_platform.Organization.Model.Rows.{
  Invitation, accepted, rejected, pending, Organisation, OrgRole, ClientRole, OrgInvitation, is_set,
}
use confirmd_platform.Organization.Model.World.{World, Act, Call, issue}
use confirmd_platform.Organization.Roles.{RolePayload, create_user_org_role, update_user_org_role}
use confirmd_platform.Organization.Token.{token_of}
use confirmd_platform.Organization.Invite.{get_organization_details}

abbrev pub is_rejected : Invitation → Bool
is_rejected rejected = true
is_rejected _ = false

unfoldable pub transition_map : Invitation → List Invitation
transition_map pending = accepted ∷ rejected ∷ []
transition_map accepted = []
transition_map rejected = []

abbrev pub same_status : Invitation → Invitation → Bool
same_status accepted accepted = true
same_status rejected rejected = true
same_status pending pending = true
same_status _ _ = false

unfoldable pub transition : Invitation → Invitation → Bool
unfolding transition_map
transition current_status next_status =
    any (same_status next_status) (transition_map current_status)

pub record UpdateInvitation : Type 0 where
  pub invitation_id : Text
  pub org_id : Text
  pub status : Invitation
  pub user_id : Text
  pub keycloak_user_id : Text
  pub email : Text

pub data Reply : Type 0 where
  invitation_reject invitation_accept : Reply

-- `a >= b` on numbers, where `none` is `undefined`.
abbrev pub ge_number : Option ℤ → Option ℤ → Bool
ge_number (some a) (some b) = not (ltb_ℤ a b)
ge_number _ none = false
ge_number none (some _) = false

-- `userOrgCount >= toNumber(MAX_ORG_LIMIT)`
unfoldable pub is_over_limit : (limit : Text) → ℕ → Bool
is_over_limit limit count = ge_number (some (pos count)) (to_number limit no_options)

-- The inner loop of `updateClientInvitation`: the first client role of that name, or `null`.
unfoldable pub role_payload : List ClientRole → OrgRole → Option RolePayload
role_payload [] role = none
role_payload (c ∷ cs) role =
    if same c.name role.name
    then some (record { role_id = role.id; name = role.name; idp_role_id = c.id })
    else role_payload cs role

-- `rolesPayload.map(role => ({ id: role.idpRoleId, … }))` throws at a `null`.
unfoldable pub payload_all : List (Option RolePayload) → Outcome (List RolePayload)
payload_all [] = ok []
payload_all (none ∷ ps) = err type_error
payload_all (some p ∷ ps) = elim (payload_all ps) [ ok qs ↦ ok (p ∷ qs) | err e ↦ err e ]

abbrev pub client_role_ids : List RolePayload → List ClientRole
client_role_ids = map (λ p. record { id = p.idp_role_id; name = p.name })

-- `Promise.all`: the first rejection, if there is one.
abbrev pub first_error : Outcome (Unit {0}) → Outcome (Unit {0}) → Outcome Bool → Outcome (Unit {0})
first_error (err e) _ _ = err e
first_error (ok _) (err e) _ = err e
first_error (ok _) (ok _) (err e) = err e
first_error (ok _) (ok _) (ok _) = ok tt

module _ (w : World) where
  -- The update of the invitation has begun when the arguments of the second call are computed.
  unfoldable pub assign_client_roles :
      (invitation_id idp_id token user_id keycloak_user_id org_id : Text)
      → Invitation
      → List (Option RolePayload)
      → Act (Unit {0})
  unfolding payload_all update_user_org_role
  assign_client_roles invitation_id idp_id token user_id keycloak_user_id org_id status payload = do
    updated ← start (issue w (Call.update_invitation invitation_id status))
    roles ← lift (payload_all payload)
    assigned ← start (
        issue w
          (Call.create_user_client_role idp_id token keycloak_user_id (client_role_ids roles)))
    stored ← start (update_user_org_role w user_id org_id roles)
    lift (first_error updated assigned stored)

  unfoldable pub update_client_invitation :
      OrgInvitation → (idp_id user_id keycloak_user_id org_id : Text) → Invitation → Act (Unit {0})
  update_client_invitation invitation idp_id user_id keycloak_user_id org_id status = do
    token ← token_of w user_id
    client_roles ← read (λ h. w.all_client_roles h idp_id token)
    org_roles ← read (λ h. w.roles_by_ids h invitation.org_roles)
    assign_client_roles invitation.id idp_id token user_id keycloak_user_id org_id status
        (map (role_payload client_roles) org_roles)

  -- The organisation without a Keycloak client: the status first, then a row for each role.
  unfoldable pub grant_roles : OrgInvitation → UpdateInvitation → Act (Unit {0})
  unfolding for_each create_user_org_role
  grant_roles invitation p = do
    issue w (Call.update_invitation p.invitation_id p.status)
    for_each invitation.org_roles
        (λ role_id. create_user_org_role w p.user_id role_id (some p.org_id) none)

  unfoldable pub accept_with : Option Text → OrgInvitation → UpdateInvitation → Act (Unit {0})
  accept_with none invitation p = grant_roles invitation p
  accept_with (some idp_id) invitation p =
      if is_set (some idp_id)
      then update_client_invitation invitation idp_id p.user_id p.keycloak_user_id p.org_id p.status
      else grant_roles invitation p

  unfoldable pub settle : OrgInvitation → UpdateInvitation → Option Organisation → Act Reply
  settle invitation p none = throw (conflict org_not_found)
  settle invitation p (some org) = do
    throw_if (not (transition invitation.status p.status))
        (bad_request invitation_status_update_invalid)
    (if is_rejected p.status
        then (issue w (Call.update_invitation p.invitation_id p.status) >> pure invitation_reject)
        else (accept_with org.idp_id invitation p >> pure invitation_accept))

  unfoldable pub respond : UpdateInvitation → Option OrgInvitation → Act Reply
  respond p none = throw (not_found invitation_not_found)
  respond p (some invitation) = do
    throw_if (not (same invitation.email p.email)) (not_found invitation_not_found)
    throw_if (not (same invitation.org_id p.org_id)) (not_found invalid_org_id)
    org ← get_organization_details w p.org_id
    settle invitation p org

  -- The limit on organisations is looked at only when the invitation is accepted.
  unfoldable pub check_limit : Invitation → Text → Act (Unit {0})
  unfolding is_over_limit
  check_limit accepted user_id = do
    count ← read (λ h. w.organisation_count h user_id)
    throw_if (is_over_limit w.max_org_limit count) (bad_request maximum_orgs_limit)
  check_limit _ user_id = pure tt

  unfoldable pub update_org_invitation : UpdateInvitation → Act Reply
  update_org_invitation p = rethrow_rpc (do
    invitation ← read (λ h. w.invitation_by_id h p.invitation_id)
    check_limit p.status p.user_id
    respond p invitation)
