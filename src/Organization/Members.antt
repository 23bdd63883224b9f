-- ===== src/Organization/Members.antt =====
-- Changing a member's roles: `updateUserRoles` and `updateUserClientRoles` of
-- apps/organization/src/organization.service.ts.
pub mod Replaced
use confirmd_platform.Common.{
  member, ℕ, zero, suc, Bool, true, false, not, Option, none, some, List, [], ◌∷◌, map, Text, same,
  filter, length, ◌==◌, if◌then◌else◌,
}
use confirmd_platform.Outcome.{
  Outcome, ok, err, not_found, internal, type_error, user_not_found, org_not_found, roles_not_exist,
  org_role_id_not_found, update_user_roles_failed,
}
use confirmd_platform.Effect.{
  ◌>>=◌, ◌>>◌, pure, throw, lift, read, start, rethrow_rpc, non_null, throw_if, for_each,
}
use confirmd_platform.Organization.Model.Rows.{Organisation, OrgRole, ClientRole, is_set}
use confirmd_platform.Organization.Model.World.{World, Act, Call, issue}
use confirmd_platform.Organization.Roles.{
  RolePayload, check_user_org_exist, delete_org_roles, create_role_later, get_org_roles,
  update_user_org_role,
}
use confirmd_platform.Organization.Token.{token_of}
use confirmd_platform.Organization.Invite.{trim, is_nil, get_organization_details}
use confirmd_platform.Organization.Respond.{payload_all, client_role_ids}

-- The inner loop of `updateUserClientRoles`: the first platform role of that name, or `null`.
unfoldable pub org_role_payload : List OrgRole → ClientRole → Option RolePayload
org_role_payload [] c = none
org_role_payload (r ∷ rs) c =
    if same r.name c.name
    then some (record { role_id = r.id; name = r.name; idp_role_id = c.id })
    else org_role_payload rs c

unfoldable pub matched_client_roles : List Text → List ClientRole → List ClientRole
matched_client_roles role_ids = filter (λ c. member (trim c.id) role_ids)

-- `await Promise.all([a, b])` for outcomes of two types.
abbrev pub both {ℓ κ} : {A : Type ℓ} {B : Type κ} → Outcome A → Outcome B → Outcome B
both (err e) _ = err e
both (ok _) r = r

module _ (w : World) where
  -- Old roles are removed from Keycloak and from the table before new ones are added to both.
  unfoldable pub replace_client_roles :
      (idp_id token user_id keycloak_user_id org_id : Text) → List (Option RolePayload) → Act Bool
  replace_client_roles idp_id token user_id keycloak_user_id org_id payload = do
    removed ← start (issue w (Call.delete_user_client_roles idp_id token keycloak_user_id))
    deleted ← start (delete_org_roles w user_id org_id)
    count ← lift (both removed deleted)
    throw_if (count == 0) (internal update_user_roles_failed)
    roles ← lift (payload_all payload)
    assigned ← start (
        issue w
          (Call.create_user_client_role idp_id token keycloak_user_id (client_role_ids roles)))
    stored ← start (update_user_org_role w user_id org_id roles)
    lift (both assigned stored)

  unfoldable pub update_user_client_roles : List Text → (idp_id user_id org_id : Text) → Act Bool
  update_user_client_roles role_ids idp_id user_id org_id = do
    token ← token_of w user_id
    client_roles ← read (λ h. w.all_client_roles h idp_id token)
    org_roles ← get_org_roles w
    let matched = matched_client_roles role_ids client_roles
    throw_if (not (length role_ids == length matched)) (not_found org_role_id_not_found)
    found ← read (λ h. w.user_by_user_id h user_id)
    member_data ← non_null found
    replace_client_roles idp_id token user_id member_data.keycloak_user_id org_id
        (map (org_role_payload org_roles) matched)

  -- The branch without a Keycloak client: the rows are created without `await`.
  unfoldable pub replace_roles : (org_id : Text) (role_ids : List Text) (user_id : Text) → Act Bool
  replace_roles org_id role_ids user_id = do
    existing ← read (λ h. w.roles_by_ids h role_ids)
    throw_if (is_nil existing) (not_found roles_not_exist)
    count ← delete_org_roles w user_id org_id
    throw_if (count == 0) (internal update_user_roles_failed)
    for_each role_ids (λ role_id. create_role_later w user_id role_id (some org_id) none)
    pure true

  unfoldable pub update_roles_in :
      (org_id : Text) (role_ids : List Text) (user_id : Text) → Option Organisation → Act Bool
  update_roles_in org_id role_ids user_id none = throw (not_found org_not_found)
  update_roles_in org_id role_ids user_id (some org) = elim org.idp_id [
    | none ↦ replace_roles org_id role_ids user_id
    | some idp_id ↦
        if is_set (some idp_id)
        then update_user_client_roles role_ids idp_id user_id org.id
        else replace_roles org_id role_ids user_id
  ]

  unfoldable pub update_user_roles :
      (org_id : Text) (role_ids : List Text) (user_id : Text) → Act Bool
  update_user_roles org_id role_ids user_id = rethrow_rpc (do
    exists ← check_user_org_exist w user_id org_id
    throw_if (not exists) (not_found user_not_found)
    org ← get_organization_details w org_id
    update_roles_in org_id role_ids user_id org)
