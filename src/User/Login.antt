-- ===== src/User/Login.antt =====
-- Signing in: `validateEmail`, `login` and `generateToken` of apps/user/src/user.service.ts.
use confirmd_platform.Common.{Bool, true, false, not, ◌&&◌, Option, none, some, Text, if◌then◌else◌}
use confirmd_platform.Outcome.{
  Outcome, ok, err, bad_request, unauthorized, not_found, user_not_found, invalid_email,
  verify_mail, register_fido, invalid_credentials,
}
use confirmd_platform.Effect.{◌>>=◌, ◌>>◌, pure, lift, catch_with, rethrow_rpc, throw_if, non_null}
use confirmd_platform.Organization.Model.Rows.{is_set}
use confirmd_platform.User.Model.{UserRow, Services, Act, ask}
use confirmd_platform.User.Table.{get_user_details}
use confirmd_platform.Secret.{decrypt_password, open_or_plain}

pub record SignIn : Type 0 where
  pub access_token : Text
  pub is_registered_to_supabase : Bool

pub record LoginUser : Type 0 where
  pub email : Text
  pub password : Option Text
  pub is_passkey : Bool

module _ (w : Services) where
  unfoldable pub validate_email : Text → Act (Unit {0})
  validate_email email =
      throw_if (not (w.is_email (w.to_lower_case email))) (unauthorized invalid_email)

  unfoldable pub keycloak_token : (email : Text) → (password : Option Text) → UserRow → Act SignIn
  unfolding open_or_plain
  keycloak_token email password user_data =
      catch_with (λ _. unauthorized invalid_credentials)
        (do
          token ← ask (λ k.
              w.user_token k email password (open_or_plain w.crypto user_data.client_id)
                (open_or_plain w.crypto user_data.client_secret))
          pure (record { access_token = token; is_registered_to_supabase = false }))

  -- An error of Supabase is thrown with its own message.
  unfoldable pub supabase_token : (email : Text) → (password : Option Text) → Act SignIn
  supabase_token email password = do
    session ← ask (λ k. w.supabase_session k email password)
    token ← non_null session
    pure (record { access_token = token; is_registered_to_supabase = true })

  unfoldable pub generate_token : (email : Text) → (password : Option Text) → UserRow → Act SignIn
  unfolding keycloak_token supabase_token
  generate_token email password user_data =
      if is_set user_data.keycloak_user_id
      then keycloak_token email password user_data
      else supabase_token email password

  -- A known user whose address is verified; `login`, `forgotPassword`, `resetTokenPassword` and
  -- `resetPassword` begin with these lines.
  abbrev pub check_known : Option UserRow → Outcome UserRow
  check_known none = err (not_found user_not_found)
  check_known (some u) = if u.is_email_verified then ok u else err (bad_request verify_mail)

  unfoldable pub known_user : Text → Act UserRow
  unfolding validate_email get_user_details
  known_user email = do
    validate_email (w.to_lower_case email)
    found ← get_user_details w (w.to_lower_case email)
    lift (check_known found)

  abbrev pub or_plain : Outcome Text → Option Text → Option Text
  or_plain (ok p) password = some p
  or_plain (err _) password = password

  unfoldable pub log_in_with_passkey : Text → UserRow → Act SignIn
  unfolding get_user_details decrypt_password generate_token
  log_in_with_passkey email user_data = do
    found ← get_user_details w (w.to_lower_case user_data.email)
    details ← non_null found
    password ← lift (decrypt_password w.crypto details.password)
    generate_token (w.to_lower_case email) (some password) user_data

  unfoldable pub login : LoginUser → Act SignIn
  unfolding known_user generate_token decrypt_password log_in_with_passkey
  login r = rethrow_rpc (do
    user_data ← known_user r.email
    throw_if (r.is_passkey && not user_data.is_fido_verified) (unauthorized register_fido)
    let password = or_plain (decrypt_password w.crypto r.password) r.password
    (if r.is_passkey && is_set (some user_data.username) && user_data.is_fido_verified
        then log_in_with_passkey r.email user_data
        else generate_token (w.to_lower_case r.email) password user_data))
