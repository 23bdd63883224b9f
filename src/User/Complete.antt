-- ===== src/User/Complete.antt =====
-- The last request of a sign-up, `createUserForToken`, and `addPasskey` of
-- apps/user/src/user.service.ts.
use confirmd_platform.Common.{
  Bool, true, false, not, ◌&&◌, ◌||◌, Option, none, some, List, [], ◌∷◌, Text, codes, same,
  if◌then◌else◌,
}
use confirmd_platform.Outcome.{
  Fault, Outcome, ok, err, bad_request, unauthorized, not_found, conflict, internal, plain_error,
  user_exists, invalid_email, add_user, verification_pending, email_is_not_verified,
  user_org_role_not_created, mb_user_role_not_found, keycloak_register, keycloak_fetch,
  user_not_found,
}
use confirmd_platform.Effect.{
  ◌>>=◌, ◌>>◌, pure, throw, lift, catch_with, catch, rethrow_rpc, throw_if, non_null,
}
use confirmd_platform.Organization.Model.Rows.{ClientRole, is_set}
use confirmd_platform.User.Model.{
  UserRow, Services, Act, create_account, give_realm_role, ask, call,
}
use confirmd_platform.User.Table.{
  get_user_details, update_user_info, add_user_password, update_user_details, store_user_role,
  store_org_role,
}
use confirmd_platform.Secret.{decrypt_password, open_both}
use confirmd_platform.User.Login.{generate_token}

pub record UserInformation : Type 0 where
  pub email : Text
  pub password : Option Text
  pub first_name : Text
  pub last_name : Text
  pub is_passkey : Bool
  pub is_holder : Bool

abbrev pub is_empty_text : Text → Bool
is_empty_text [] = true
is_empty_text (_ ∷ _) = false

-- `keycloakUserId || (!keycloakUserId && supabaseUserId)`
abbrev pub has_account : UserRow → Bool
has_account u =
    is_set u.keycloak_user_id || (not (is_set u.keycloak_user_id) && is_set u.supabase_user_id)

-- What must hold of the row before its user is registered.
abbrev pub check_registration : Option UserRow → Outcome UserRow
check_registration none = err (not_found email_is_not_verified)
check_registration (some u) =
    if has_account u
    then err (conflict user_exists)
    else if u.is_email_verified
    then ok u
    else err (not_found verification_pending)

abbrev pub or_not_found : Option UserRow → Outcome UserRow
or_not_found none = err (not_found add_user)
or_not_found (some u) = ok u

-- `getUserResponse && 0 < getUserResponse.length`, and then the first account.
abbrev pub first_account : Option (List Text) → Outcome Text
first_account none = err (plain_error user_not_found)
first_account (some []) = err (plain_error user_not_found)
first_account (some (id ∷ _)) = ok id

-- `realmRoles.filter(role => 'mb-user' === role.name)[0]`
unfoldable pub mb_user_role : List ClientRole → Outcome ClientRole
unfolding same
mb_user_role [] = err (bad_request mb_user_role_not_found)
mb_user_role (r ∷ rs) =
    let rest = mb_user_role rs in if same (codes "mb-user") r.name then ok r else rest

module _ (w : Services) where
  unfoldable pub register_with_passkey : UserInformation → Act Text
  unfolding add_user_password get_user_details decrypt_password
  register_with_passkey u = do
    add_user_password w (w.to_lower_case u.email) u.password
    found ← get_user_details w (w.to_lower_case u.email)
    details ← non_null found
    password ← lift (decrypt_password w.crypto details.password)
    catch_with (λ _. internal keycloak_register)
        (call (create_account u.email (some password)) w.created_account)

  unfoldable pub find_account : (email : Text) → Act Text
  find_account email =
      catch_with (λ _. bad_request keycloak_fetch)
        (do accounts ← ask (λ k. w.accounts_by_email k email); lift (first_account accounts))

  -- An account that exists already is looked up by its address.
  unfoldable pub existing_account : (email : Text) → Fault → Act Text
  unfolding find_account
  existing_account email e =
      if w.is_conflict e then find_account email else throw (bad_request keycloak_register)

  unfoldable pub register_with_password : UserInformation → Act Text
  unfolding add_user_password decrypt_password existing_account
  register_with_password u = do
    add_user_password w (w.to_lower_case u.email) u.password
    password ← lift (decrypt_password w.crypto u.password)
    catch (existing_account u.email)
        (call (create_account u.email (some password)) w.created_account)

  unfoldable pub register_account : UserInformation → Act Text
  unfolding register_with_passkey register_with_password
  register_account u = if u.is_passkey then register_with_passkey u else register_with_password u

  unfoldable pub store_holder : (user_id : Text) → Act (Unit {0})
  unfolding store_user_role
  store_holder user_id = do role ← ask w.holder_user_role; store_user_role w user_id role

  unfoldable pub make_holder : (user_id : Text) → Bool → Act (Unit {0})
  unfolding store_holder
  make_holder user_id is_holder = if is_holder then store_holder user_id else pure tt

  -- The mapping of the role in the database; its errors are only logged.
  unfoldable pub map_holder_role : (user_id : Text) → Act (Unit {0})
  unfolding store_org_role
  map_holder_role user_id =
      catch (λ _. pure tt)
        (do
          found ← ask w.holder_org_role
          role ← non_null found
          catch_with (λ _. internal user_org_role_not_created) (store_org_role w user_id role.id))

  -- The row as it is read a second time, after the names are stored.
  unfoldable pub named_user : UserInformation → Act (UserRow × UserRow)
  unfolding get_user_details update_user_info
  named_user u = do
    throw_if (is_empty_text u.email) (unauthorized invalid_email)
    found ← get_user_details w (w.to_lower_case u.email)
    checked ← lift (check_registration found)
    update_user_info w (w.to_lower_case u.email) u.first_name u.last_name
    again ← get_user_details w (w.to_lower_case u.email)
    details ← lift (or_not_found again)
    pure (checked, details)

  unfoldable pub create_user_for_token : UserInformation → Act Text
  unfolding named_user open_both register_account update_user_details make_holder mb_user_role
      map_holder_role
  create_user_for_token u = rethrow_rpc (do
    rows ← named_user u
    let client = open_both w.crypto rows.0.client_id rows.0.client_secret
    token ← ask (λ k. w.management_token k client.0 client.1)
    account ← register_account u
    update_user_details w rows.1.id account
    make_holder rows.1.id u.is_holder
    roles ← ask (λ k. w.realm_roles k token)
    role ← lift (mb_user_role roles)
    call (give_realm_role account role) w.realm_role_given
    map_holder_role rows.1.id
    pure rows.1.id)

  abbrev pub check_passkey : Option UserRow → Outcome UserRow
  check_passkey none = err (not_found invalid_email)
  check_passkey (some u) =
      if not (is_set u.keycloak_user_id)
      then err (conflict user_not_found)
      else if u.is_email_verified
      then ok u
      else err (not_found verification_pending)

  unfoldable pub add_passkey : (email : Text) (password : Option Text) → Act (Unit {0})
  unfolding get_user_details decrypt_password generate_token add_user_password
  add_passkey email password = rethrow_rpc (do
    throw_if (is_empty_text (w.to_lower_case email)) (unauthorized invalid_email)
    found ← get_user_details w (w.to_lower_case email)
    user_data ← lift (check_passkey found)
    plain ← lift (decrypt_password w.crypto password)
    generate_token w (w.to_lower_case email) (some plain) user_data
    add_user_password w (w.to_lower_case email) password
    pure tt)
