-- ===== src/Organization/Delete/Handler.antt =====
-- `deleteOrganization` of apps/organization/src/organization.service.ts, around the transaction
-- `deleteOrg`: the roles at Keycloak are removed, the members are informed, the rows are deleted,
-- and the deletions are recorded.
use confirmd_platform.Common.{
  ℕ, Bool, true, false, not, ltb, Option, none, some, List, [], ◌∷◌, ◌++◌, map, filter, length,
  Text, same, if◌then◌else◌,
}
use confirmd_platform.Outcome.{
  Outcome, ok, err, is_ok, not_found, http, wrapped_internal, org_not_found,
  org_data_not_found_in_keycloak,
}
use confirmd_platform.Effect.{
  Stateful, ◌>>=◌, ◌>>◌, pure, lift, read, catch, catch_with, rethrow_rpc, throw_if, non_null,
}
use confirmd_platform.Organization.Model.Rows.{User, is_platform_admin}
use confirmd_platform.Organization.Delete.{Database, Failures, Deleted, delete_org}

-- The columns of `user` that `getUserKeycloak` selects.
pub record SelectedUser : Type 0 where
  pub id : Text
  pub email : Text
  pub keycloak_user_id : Text

-- An entry of its answer; the ids are `null` for an address without a user.
pub record UserKeycloakId : Type 0 where
  pub id : Option Text
  pub keycloak_user_id : Option Text
  pub email : Text

pub record OrgDetails : Type 0 where
  pub name : Text
  pub idp_id : Option Text

-- An entry of `deletedOrgInvitationInfo`
pub record InformedMember : Type 0 where
  pub email : Text
  pub org_name : Text
  pub org_role_names : List Text

pub data PrismaTable : Type 0 where
  user_activity user_org_roles org_invitations notification organization : PrismaTable

pub data RemovalCall : Type 0 where
  delete_client_roles :
      (idp_id : Option Text) → (token : Text) → (keycloak_user_id : Option Text) → RemovalCall
  send_email : (email_to : Option Text) → (org_name : Text) → (org_roles : List Text) → RemovalCall
  org_deleted_activity :
      (org_id : Text) → (records : ℕ) → PrismaTable → Option (List InformedMember) → RemovalCall

-- `calls` has the newest first; `informed` is the array that the handler fills.
pub record Removal : Type 0 where
  pub database : Database
  pub calls : List RemovalCall
  pub informed : List InformedMember

abbrev pub RemovalAct : Type 0 → Type 0
RemovalAct A = Stateful Removal A

-- What the database client, Keycloak, the mail server and the activity service answer.
pub record RemovalServices : Type 0 where
  pub user_by_id : Removal → Option Text → Outcome (Option User)
  pub token_from_env : Removal → Outcome Text
  pub management_token : Removal → (client_id client_secret : Option Text) → Outcome Text
  pub organisation_by_id : Removal → Text → Outcome (Option OrgDetails)
  pub invited_addresses : Removal → (org_id : Text) → Outcome (List Text)
  pub users_by_mails : Removal → List Text → Outcome (List SelectedUser)
  pub roles_deleted : Removal → Outcome (Unit {0})
  pub user_org_role_ids : Removal → (user_id : Option Text) → (org_id : Text) → Outcome (List Text)
  pub role_names : Removal → (ids : List Text) → Outcome (List Text)
  pub platform_config : Removal → Outcome (Option (Unit {0}))
  pub mail_sent : Removal → Outcome Bool
  pub activity_recorded : Removal → Outcome (Unit {0})
  pub failures : Failures

-- `new Map(users.map(…))` and `get`: of two rows with one key the later counts.
unfoldable pub user_of : List SelectedUser → Text → Option SelectedUser
user_of [] email = none
user_of (u ∷ us) email =
    let rest = user_of us email in
    elim rest [ some v ↦ some v | none ↦ if same u.email email then some u else none ]

-- `user?.id || null`
abbrev pub text_or_null : Text → Option Text
text_or_null [] = none
text_or_null (c ∷ t) = some (c ∷ t)

abbrev pub keycloak_entry : Text → Option SelectedUser → UserKeycloakId
keycloak_entry email none = record { id = none; keycloak_user_id = none; email = email }
keycloak_entry email (some u) = record {
  id = text_or_null u.id;
  keycloak_user_id = text_or_null u.keycloak_user_id;
  email = email;
}

-- `Promise.all(items.map(async (item) => …))`: every body runs to its end, and the first error is
-- the error of the whole. Here the bodies run one after the other.
unfoldable pub run_all :
    {S A : Type 0} → List A → (A → Stateful S (Unit {0})) → Stateful S (Unit {0})
run_all [] body s = (ok tt, s)
run_all (x ∷ xs) body s =
    let p = body x s in let q = run_all xs body p.1 in elim p.0 [ ok _ ↦ q | err e ↦ (err e, q.1) ]

-- A call made for its effect; it is kept whether it succeeds or not.
abbrev pub call : {A : Type 0} → RemovalCall → (Removal → Outcome A) → RemovalAct A
call c answer s = (answer s, record s { calls = c ∷ s.calls })

abbrev pub push_informed : InformedMember → RemovalAct (Unit {0})
push_informed i s = (ok tt, record s { informed = s.informed ++ (i ∷ []) })

abbrev pub in_database : {A : Type 0} → Stateful Database A → RemovalAct A
in_database m s = let (r, d) = m s.database in (r, record s { database = d })

-- `getUser?.clientId` and `getUser?.clientSecret`
abbrev pub client_id_of : Option User → Option Text
client_id_of none = none
client_id_of (some u) = u.client_id

abbrev pub client_secret_of : Option User → Option Text
client_secret_of none = none
client_secret_of (some u) = u.client_secret

-- `userDetails?.email` and `getUser?.keycloakUserId`
abbrev pub mail_of : Option User → Option Text
mail_of none = none
mail_of (some u) = some u.email

abbrev pub keycloak_id_of : Option User → Option Text
keycloak_id_of none = none
keycloak_id_of (some u) = some u.keycloak_user_id

abbrev pub is_admin : Option User → Bool
is_admin none = false
is_admin (some u) = is_platform_admin u

module _ (w : RemovalServices) where
  -- `getUserKeycloak`
  unfoldable pub get_user_keycloak : List Text → RemovalAct (List UserKeycloakId)
  unfolding user_of
  get_user_keycloak emails = do
    users ← read (λ s. w.users_by_mails s emails)
    pure (map (λ email. keycloak_entry email (user_of users email)) emails)

  unfoldable pub get_user_keycloak_id_by_email : List Text → RemovalAct (List UserKeycloakId)
  unfolding get_user_keycloak
  get_user_keycloak_id_by_email emails = catch_with http (get_user_keycloak emails)

  -- `getOrganizationDetails`; an empty id is not looked up.
  unfoldable pub details_of : (org_id : Text) → RemovalAct (Option OrgDetails)
  details_of [] = lift (err (wrapped_internal (not_found org_not_found)))
  details_of (c ∷ org_id) =
      catch_with wrapped_internal (read (λ s. w.organisation_by_id s (c ∷ org_id)))

  abbrev pub removal_token : Option User → RemovalAct Text
  removal_token u =
      if is_admin u
      then read (λ s. w.token_from_env s)
      else read (λ s. w.management_token s (client_id_of u) (client_secret_of u))

  -- The error of the request becomes a value, and the result is `true`.
  unfoldable pub delete_user_client_roles :
      (idp_id : Option Text) → (token : Text) → (user_id : Option Text) → RemovalAct Bool
  delete_user_client_roles idp_id token user_id = do
    catch (λ e. pure tt) (call (delete_client_roles idp_id token user_id) w.roles_deleted)
    pure true

  -- `Promise.allSettled(…)` and the number of those that were rejected.
  unfoldable pub delete_all_roles :
      (idp_id : Option Text) → (token : Text) → List (Option Text) → RemovalAct (List Bool)
  unfolding delete_user_client_roles
  delete_all_roles idp_id token [] s = (ok [], s)
  delete_all_roles idp_id token (u ∷ us) s =
      let (r, s') = delete_user_client_roles idp_id token u s in
      let (rs, s'') = delete_all_roles idp_id token us s' in
      (elim rs [ ok bs ↦ ok (is_ok r ∷ bs) | err e ↦ err e ], s'')

  -- `sendEmailForOrgInvitationsMember`; without a row of the configuration
  -- `platformConfigData[0].emailFrom` throws.
  unfoldable pub send_email_for_org_invitations_member :
      (email : Option Text) → (org_name : Text) → (org_roles : List Text) → RemovalAct Bool
  send_email_for_org_invitations_member email org_name org_roles = do
    config ← read (λ s. w.platform_config s)
    non_null config
    call (send_email email org_name org_roles) w.mail_sent

  unfoldable pub inform_member : (org_id org_name : Text) → Option Text → RemovalAct (Unit {0})
  unfolding send_email_for_org_invitations_member
  inform_member org_id org_name user_id = do
    role_ids ← read (λ s. w.user_org_role_ids s user_id org_id)
    user ← read (λ s. w.user_by_id s user_id)
    names ← read (λ s. w.role_names s role_ids)
    send_email_for_org_invitations_member (mail_of user) org_name names
    u ← non_null user
    push_informed (record { email = u.email; org_name = org_name; org_role_names = names })

  -- `if (records)`
  unfoldable pub record_deletion :
      (org_id : Text) → ℕ × (PrismaTable × Option (List InformedMember)) → RemovalAct (Unit {0})
  record_deletion org_id (n, (table, informed)) =
      if ltb 0 n
      then call (org_deleted_activity org_id n table informed) w.activity_recorded
      else pure tt

  abbrev pub deletions :
      Deleted → List InformedMember → List (ℕ × (PrismaTable × Option (List InformedMember)))
  deletions d informed =
      (d.user_activity, (user_activity, none))
      ∷ (d.user_org_role, (user_org_roles, none))
      ∷ (d.invitations, (org_invitations, some informed))
      ∷ (d.notification, (notification, none))
      ∷ (1, (organization, none))
      ∷ []

  abbrev pub keycloak_ids : List Text → RemovalAct (List (Option Text))
  keycloak_ids [] = pure []
  keycloak_ids (m ∷ ms) = do
    entries ← get_user_keycloak_id_by_email (m ∷ ms)
    pure (map (λ (e : UserKeycloakId). e.keycloak_user_id) entries)

  abbrev pub delete_and_record : (org_id : Text) → RemovalAct (Unit {0})
  delete_and_record org_id = do
    deleted ← in_database (delete_org w.failures org_id)
    informed ← read (λ s. ok s.informed)
    run_all (deletions deleted informed) (record_deletion org_id)

  unfoldable pub inform_and_delete : (org_id org_name : Text) → List Text → RemovalAct (Unit {0})
  unfolding get_user_keycloak_id_by_email inform_member record_deletion run_all delete_org
  inform_and_delete org_id org_name emails = do
    entries ← get_user_keycloak_id_by_email emails
    run_all (map (λ (e : UserKeycloakId). e.id) entries) (inform_member org_id org_name)
    delete_and_record org_id

  unfoldable pub remove_roles :
      Option User → (token : Text) → OrgDetails → List Text → RemovalAct (Unit {0})
  unfolding get_user_keycloak_id_by_email delete_all_roles
  remove_roles user token details emails = do
    ids ← keycloak_ids emails
    settled ← delete_all_roles details.idp_id token (ids ++ (keycloak_id_of user ∷ []))
    throw_if (ltb 0 (length (filter not settled))) (not_found org_data_not_found_in_keycloak)

  unfoldable pub delete_organization : (org_id user_id : Text) → RemovalAct (Unit {0})
  unfolding details_of remove_roles inform_and_delete
  delete_organization org_id user_id = rethrow_rpc (do
    user ← read (λ s. w.user_by_id s (some user_id))
    token ← removal_token user
    found ← details_of org_id
    details ← elim found [ none ↦ lift (err (not_found org_not_found)) | some o ↦ pure o ]
    emails ← read (λ s. w.invited_addresses s org_id)
    remove_roles user token details emails
    inform_and_delete org_id details.name emails)
