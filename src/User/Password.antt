-- ===== src/User/Password.antt =====
-- Passwords: `forgotPassword`, `resetTokenPassword`, `resetPassword`, `updateFidoVerifiedUser` of
-- apps/user/src/user.service.ts.
use confirmd_platform.Common.{ℕ, ◌+◌, Bool, not, ltb, Option, none, some, Text, same, if◌then◌else◌}
use confirmd_platform.Outcome.{
  Outcome, ok, err, bad_request, internal, user_email_send, invalid_reset_link, reset_same_password,
  keycloak_reset, keycloak_register,
}
use confirmd_platform.Effect.{◌>>=◌, ◌>>◌, pure, lift, catch_with, rethrow_rpc, throw_if}
use confirmd_platform.Organization.Model.Rows.{is_set}
use confirmd_platform.User.Model.{
  UserRow, ResetToken, Services, Act, mail_reset, create_account, set_password, ask, call,
}
use confirmd_platform.User.Table.{
  add_user_password, update_user_details, create_reset_token, get_reset_token, delete_reset_token,
}
use confirmd_platform.Secret.{decrypt_password}
use confirmd_platform.User.SignUp.{first_sender}
use confirmd_platform.User.Login.{known_user, generate_token}

-- An hour in milliseconds.
abbrev pub hour : ℕ
hour = 3600000

-- `!tokenDetails || (new Date() > tokenDetails.expiresAt)`
abbrev pub check_token : (now : ℕ) → Option ResetToken → Outcome ResetToken
check_token now none = err (bad_request invalid_reset_link)
check_token now (some t) =
    if ltb t.expires_at now then err (bad_request invalid_reset_link) else ok t

module _ (w : Services) where
  unfoldable pub send_email_for_reset_password : (email token : Text) → Act (Unit {0})
  send_email_for_reset_password email token = rethrow_rpc (do
    config ← ask w.email_from
    from ← lift (first_sender w config)
    sent ← call (mail_reset email token) (λ k. ok (w.mail_sent k))
    throw_if (not sent) (internal user_email_send))

  unfoldable pub forgot_password : Text → Act (Text × Text)
  unfolding known_user create_reset_token send_email_for_reset_password
  forgot_password email = rethrow_rpc (do
    user_data ← known_user w email
    token ← ask (λ k. ok (w.new_uuid k))
    now ← ask (λ k. ok (w.now k))
    created ← create_reset_token w user_data.id token (now + hour)
    catch_with (λ _. internal user_email_send) (send_email_for_reset_password email created.token)
    pure (created.id, user_data.email))

  unfoldable pub store_password : (email : Text) → Option Text → Act (Unit {0})
  unfolding add_user_password
  store_password email password = add_user_password w (w.to_lower_case email) password >> pure tt

  unfoldable pub update_fido_verified_user :
      (email : Text) (is_fido_verified : Bool) (password : Option Text) → Act (Unit {0})
  unfolding store_password
  update_fido_verified_user email is_fido_verified password =
      if is_fido_verified then store_password email password else pure tt

  unfoldable pub change_account : UserRow → (plain : Text) → Act (Unit {0})
  change_account user_data plain = call (set_password user_data.email (some plain)) w.password_set

  unfoldable pub open_account : UserRow → (plain : Text) → Act (Unit {0})
  unfolding update_user_details
  open_account user_data plain = do
    account ← call (create_account user_data.email (some plain)) w.created_account
    update_user_details w user_data.id account
    pure tt

  -- The account gets the new password; without an account, one is made with it.
  unfoldable pub set_or_create : UserRow → (plain : Text) → Act (Unit {0})
  unfolding decrypt_password change_account open_account
  set_or_create user_data plain = do
    client_id ← lift (decrypt_password w.crypto user_data.client_id)
    client_secret ← lift (decrypt_password w.crypto user_data.client_secret)
    token ← ask (λ k. w.management_token k (some client_id) (some client_secret))
    (if is_set user_data.keycloak_user_id
        then change_account user_data plain
        else open_account user_data plain)

  unfoldable pub reset_token_password :
      (email : Text) (password : Option Text) (token : Text) → Act (Text × Text)
  unfolding known_user get_reset_token decrypt_password set_or_create update_fido_verified_user
      delete_reset_token
  reset_token_password email password token = rethrow_rpc (do
    user_data ← known_user w email
    found ← get_reset_token w user_data.id token
    now ← ask (λ k. ok (w.now k))
    details ← lift (check_token now found)
    plain ← lift (decrypt_password w.crypto password)
    catch_with (λ _. internal keycloak_reset)
        (do
          set_or_create user_data plain
          update_fido_verified_user (w.to_lower_case email) user_data.is_fido_verified password)
    delete_reset_token w details.id
    pure (user_data.id, user_data.email))

  unfoldable pub reset_password :
      (email : Text) (old_password new_password : Option Text) → Act (Text × Text)
  unfolding known_user decrypt_password generate_token set_or_create update_fido_verified_user same
  reset_password email old_password new_password = rethrow_rpc (do
    user_data ← known_user w email
    old_plain ← lift (decrypt_password w.crypto old_password)
    new_plain ← lift (decrypt_password w.crypto new_password)
    throw_if (same old_plain new_plain) (bad_request reset_same_password)
    generate_token w (w.to_lower_case email) (some old_plain) user_data
    catch_with (λ _. internal keycloak_register)
        (do
          set_or_create user_data new_plain
          update_fido_verified_user (w.to_lower_case email) user_data.is_fido_verified new_password)
    pure (user_data.id, user_data.email))
