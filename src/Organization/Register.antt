-- ===== src/Organization/Register.antt =====
-- Registering an organisation as a Keycloak client: `registerToKeycloak`, `createOrgCredentials`
-- and `deleteClientCredentials` of apps/organization/src/organization.service.ts.
pub mod Calls
use confirmd_platform.Common.{
  Bool, true, false, not, ◌||◌, Option, none, some, List, [], ◌∷◌, Text, codes, is_some,
  if◌then◌else◌,
}
use confirmd_platform.Naming.{mask_string}
use confirmd_platform.Outcome.{
  Outcome, ok, err, plain_error, conflict, internal, not_found, management_credentials_not_found,
  org_not_found, unable_to_create_client, credentials_not_update, unable_to_delete_credentials,
}
use confirmd_platform.Effect.{
  ◌>>=◌, ◌>>◌, pure, throw, lift, read, perform, start, catch_with, rethrow_rpc, non_null, throw_if,
  for_each,
}
use confirmd_platform.Organization.Model.Rows.{
  User, OrgRole, ClientRole, Organisation, OrgCredentials, is_set, is_platform_admin,
}
use confirmd_platform.Organization.Model.World.{World, Act, Call, OrgUpdate, issue}
use confirmd_platform.Organization.Roles.{
  create_user_org_role, delete_org_roles, update_user_org_role,
}
use confirmd_platform.Organization.Token.{get_user, token_of}
use confirmd_platform.Organization.Invite.{get_organization_details}
use confirmd_platform.Organization.Members.{both}

abbrev pub owner : Text
owner = codes "owner"

-- `orgRolesList`
abbrev pub org_roles_list : List Text
org_roles_list = owner ∷ codes "admin" ∷ codes "issuer" ∷ codes "verifier" ∷ codes "member" ∷ []

-- What `createOrgCredentials` returns.
pub record ShownCredentials : Type 0 where
  pub idp_id : Option Text
  pub client_id : Option Text
  pub client_secret : Text

-- `{ clientId: null, clientSecret: null, idpId: null }`
abbrev pub clear_credentials : OrgUpdate
clear_credentials = record { client_id = some none; client_secret = some none; idp_id = some none }

module _ (w : World) where
  -- The token, with the test of the user's own credentials.
  unfoldable pub registration_token : User → Act Text
  registration_token u =
      if is_platform_admin u
      then read (λ h. w.token_from_env h)
      else if not (is_set u.client_id) || not (is_set u.client_secret)
      then throw (plain_error management_credentials_not_found)
      else read (λ h. w.management_token h u.client_id u.client_secret)

  -- The two forms of the last step, each a `Promise.all`.
  unfoldable pub assign_owner :
      (should_update_role : Bool) (idp_id token keycloak_user_id user_id org_id role_id : Text)
      → ClientRole
      → Act (Unit {0})
  assign_owner false idp_id token keycloak_user_id user_id org_id role_id c = do
    assigned ← start (issue w (Call.create_user_client_role idp_id token keycloak_user_id (c ∷ [])))
    stored ← start (create_user_org_role w user_id role_id (some org_id) (some c.id))
    lift (both assigned stored)
  assign_owner true idp_id token keycloak_user_id user_id org_id role_id c = do
    assigned ← start (issue w (Call.create_user_client_role idp_id token keycloak_user_id (c ∷ [])))
    deleted ← start (delete_org_roles w user_id org_id)
    stored ← start (
        update_user_org_role w user_id org_id
          (record { role_id = role_id; name = c.name; idp_role_id = c.id } ∷ []))
    lift (both assigned (both deleted (both stored (ok tt))))

  unfoldable pub register_to_keycloak :
      (org_name org_id keycloak_user_id user_id : Text) (should_update_role : Bool)
      → Act OrgCredentials
  register_to_keycloak org_name org_id keycloak_user_id user_id should_update_role = do
    u ← get_user w user_id
    token ← registration_token u
    details ←
        perform (Call.create_client org_name org_id token)
          (λ h. w.created_client h org_name org_id token)
    for_each org_roles_list (λ role. issue w (Call.create_client_role details.idp_id token role))
    owner_role ← read (λ h. w.client_role_by_name h details.idp_id token owner)
    found ← read (λ h. w.role_by_name h owner)
    owner_data ← non_null found
    assign_owner should_update_role details.idp_id token keycloak_user_id user_id org_id
        owner_data.id owner_role
    pure details

  -- The row of an organisation is written with what was given; no row is an error.
  unfoldable pub store_credentials : OrgUpdate → Text → Act Organisation
  store_credentials given org_id = do
    updated ←
        perform (Call.update_organisation given org_id) (λ h. w.updated_organisation h given org_id)
    elim updated [ none ↦ throw (internal credentials_not_update) | some o ↦ pure o ]

  -- The branch of an organisation that has a client: a new secret is made.
  unfoldable pub renew_secret : (idp_id user_id : Text) → Act (OrgUpdate × Text)
  renew_secret idp_id user_id = do
    token ← token_of w user_id
    secret ← perform (Call.generate_secret idp_id token) (λ h. w.generated_secret h idp_id token)
    masked ← lift (mask_string secret)
    pure (record { client_id = none; client_secret = some (some masked); idp_id = none }, secret)

  -- The branch of one that has none: a client is registered, and whatever goes wrong, masking
  -- included, is reported as a client that could not be created.
  unfoldable pub first_credentials :
      Organisation → (user_id keycloak_user_id : Text) → Act (OrgUpdate × Text)
  first_credentials org user_id keycloak_user_id =
      catch_with (λ _. internal unable_to_create_client)
        (do
          c ← register_to_keycloak org.name org.id keycloak_user_id user_id true
          masked ← lift (mask_string c.client_secret)
          pure (
            record {
              client_id = some (some c.client_id);
              client_secret = some (some masked);
              idp_id = some (some c.idp_id);
            },
            c.client_secret,
          ))

  unfoldable pub credentials_of :
      Organisation → (user_id keycloak_user_id : Text) → Act (OrgUpdate × Text)
  credentials_of org user_id keycloak_user_id = elim org.idp_id [
    | none ↦ first_credentials org user_id keycloak_user_id
    | some idp_id ↦
        if is_set (some idp_id)
        then renew_secret idp_id user_id
        else first_credentials org user_id keycloak_user_id
  ]

  unfoldable pub create_org_credentials :
      (org_id user_id keycloak_user_id : Text) → Act ShownCredentials
  create_org_credentials org_id user_id keycloak_user_id = rethrow_rpc (do
    found ← get_organization_details w org_id
    org ← lift (elim found [ none ↦ err (conflict org_not_found) | some o ↦ ok o ])
    made ← credentials_of org user_id keycloak_user_id
    updated ← store_credentials made.0 org_id
    pure
        (record { idp_id = updated.idp_id; client_id = updated.client_id; client_secret = made.1 }))

  unfoldable pub delete_client_credentials : (org_id user_id : Text) → Act (Unit {0})
  delete_client_credentials org_id user_id = do
    token ← token_of w user_id
    found ← get_organization_details w org_id
    org ← lift (elim found [ none ↦ err (not_found org_not_found) | some o ↦ ok o ])
    catch_with (λ _. internal unable_to_delete_credentials)
        (do
          issue w (Call.delete_client (elim org.idp_id [ none ↦ [] | some i ↦ i ]) token)
          done ←
              perform (Call.update_organisation clear_credentials org_id)
                (λ h. w.updated_organisation h clear_credentials org_id)
          pure tt)
