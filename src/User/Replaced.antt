-- ===== src/User/Replaced.antt =====
-- `forgotPassword`, `resetTokenPassword` and `resetPassword` of apps/user keep what holds of the
-- table of users.
use confirmd_platform.Common.{
  ◌≡◌, refl, Bool, true, false, if◌then◌else◌, ◌+◌, Option, none, some, List, Text, not, same,
}
use confirmd_platform.Outcome.{
  Fault, ok, err, bad_request, internal, rpc, verify_mail, user_email_send, keycloak_reset,
  keycloak_register, reset_same_password,
}
use confirmd_platform.Effect.{◌>>◌, lift, catch_with}
use confirmd_platform.Triple.{
  Ends, Triple, bind-Triple, catch_with-Triple, Triple-weaken, Triple-fail,
}
use confirmd_platform.Organization.Model.Rows.{is_set}
use confirmd_platform.User.Model.{
  UserRow, Store, Services, mail_reset, create_account, set_password,
}
use confirmd_platform.User.Table.{find_user, has_email}
use confirmd_platform.Secret.{decrypt_password}
use confirmd_platform.User.SignUp.{first_sender}
use confirmd_platform.User.Login.{check_known, known_user}
use confirmd_platform.User.Password.{
  hour, check_token, send_email_for_reset_password, forgot_password, store_password,
  update_fido_verified_user, change_account, open_account, set_or_create, reset_token_password,
  reset_password,
}
use confirmd_platform.User.Request.{UserRequest}
use confirmd_platform.User.Held.{Claim, Frame, And, And-Frame}
use confirmd_platform.User.Rules.{Rules, IsKnown-id, KnownId, KnownId-Frame}
use confirmd_platform.User.Steps.{
  On, Keeps, ask-Keeps, call-Keeps, lift-Keeps, throw_if-Keeps, get_user_details-Triple,
  get_reset_token-Keeps, create_reset_token-Keeps, delete_reset_token-Keeps,
}
use confirmd_platform.User.Kept.{
  then-Keeps, if-Keeps, pure-Keeps, validate_email-Keeps, generate_token-Keeps,
  add_user_password-Keeps,
}
use confirmd_platform.User.Arrived.{On-left}
use confirmd_platform.User.Registered.{update_user_details-Triple}

module _ (w : Services) {seen asked : List UserRequest} {A : Claim}
    (rules : Rules w seen asked A) where
  check_known-Triple :
      (email : Text) (found : Option UserRow)
      → Triple
          (λ s. On A s × (find_user (has_email email) s.users ≡ found))
          (lift (check_known w found))
          (λ u. On (And A (KnownId u.id)))
          (On A)
  check_known-Triple email none = record { runs = λ s h. h.0 }
  check_known-Triple email (some u) = record { runs = λ s h. known s h u.is_email_verified refl }
    where
      known :
          (s : Store)
          → On A s × (find_user (has_email email) s.users ≡ some u)
          → (d : Bool) → u.is_email_verified ≡ d
          → Ends {A = UserRow}
              (λ r. On (And A (KnownId r.id)))
              (On A)
              ((if d then ok u else err (bad_request verify_mail)), s)
      known s h false e = h.0
      known s h true e = record {
        held = (
          h.0.held,
          IsKnown-id seen s.users s.outside (rules.holds s.users s.outside h.0.held) email u h.1 e,
        );
      }

  known_user-Triple :
      (email : Text) → Triple (On A) (known_user w email) (λ u. On (And A (KnownId u.id))) (On A)
  unfolding known_user
  known_user-Triple email = bind-Triple (validate_email-Keeps w (w.to_lower_case email)) (λ _.
      bind-Triple (get_user_details-Triple w (w.to_lower_case email))
        (λ found. check_known-Triple (w.to_lower_case email) found))

  held : Frame A
  held = rules.frame

  send_email_for_reset_password-Keeps :
      (email token : Text) → Keeps A (send_email_for_reset_password w email token)
  unfolding send_email_for_reset_password
  send_email_for_reset_password-Keeps email token = catch_with-Triple rpc (
      then-Keeps (ask-Keeps w.email_from) (λ config.
        then-Keeps (lift-Keeps (first_sender w config)) (λ from.
          then-Keeps (call-Keeps held (mail_reset email token) (λ n. ok (w.mail_sent n)))
            (λ sent. throw_if-Keeps (not sent) (internal user_email_send)))))

  pub forgot_password-Keeps : (email : Text) → Keeps A (forgot_password w email)
  unfolding forgot_password
  forgot_password-Keeps email = catch_with-Triple rpc (
      bind-Triple (Triple-weaken (λ s h. h) (λ u. On-left) (known_user-Triple email)) (λ u.
        then-Keeps (ask-Keeps (λ n. ok (w.new_uuid n))) (λ token.
          then-Keeps (ask-Keeps (λ n. ok (w.now n))) (λ now.
            then-Keeps (create_reset_token-Keeps w u.id token (now + hour)) (λ created.
              then-Keeps
                (catch_with-Triple (λ _. internal user_email_send)
                  (send_email_for_reset_password-Keeps email created.token))
                (λ _. pure-Keeps (created.id, u.email)))))))

  store_password-Keeps : (email : Text) (p : Option Text) → Keeps A (store_password w email p)
  unfolding store_password
  store_password-Keeps email p =
      then-Keeps (add_user_password-Keeps w held (w.to_lower_case email) p) (λ _. pure-Keeps tt)

  update_fido_verified_user-Keeps :
      (email : Text) (c : Bool) (p : Option Text) → Keeps A (update_fido_verified_user w email c p)
  unfolding update_fido_verified_user
  update_fido_verified_user-Keeps email c p =
      if-Keeps c (store_password-Keeps email p) (pure-Keeps tt)

  open_account-Triple :
      (u : UserRow) (plain : Text)
      → Triple (On (And A (KnownId u.id))) (open_account w u plain) (λ _. On A) (On A)
  unfolding open_account
  open_account-Triple u plain =
      bind-Triple
        (Triple-fail On-left (
          call-Keeps (And-Frame held (KnownId-Frame u.id)) (create_account u.email (some plain))
            w.created_account))
        (λ account.
          bind-Triple (update_user_details-Triple w rules u.id account) (λ _. pure-Keeps tt))

  change_account-Triple :
      (u : UserRow) (plain : Text)
      → Triple (On (And A (KnownId u.id))) (change_account w u plain) (λ _. On A) (On A)
  unfolding change_account
  change_account-Triple u plain =
      Triple-weaken On-left (λ _ s h. h)
        (call-Keeps held (set_password u.email (some plain)) w.password_set)

  account-Triple :
      (c : Bool) (u : UserRow) (plain : Text)
      → Triple
          (On (And A (KnownId u.id)))
          (if c then change_account w u plain else open_account w u plain)
          (λ _. On A)
          (On A)
  account-Triple true u plain = change_account-Triple u plain
  account-Triple false u plain = open_account-Triple u plain

  set_or_create-Triple :
      (u : UserRow) (plain : Text)
      → Triple (On (And A (KnownId u.id))) (set_or_create w u plain) (λ _. On A) (On A)
  unfolding set_or_create
  set_or_create-Triple u plain =
      bind-Triple (Triple-fail On-left (lift-Keeps (decrypt_password w.crypto u.client_id))) (λ id.
        bind-Triple (Triple-fail On-left (lift-Keeps (decrypt_password w.crypto u.client_secret)))
          (λ secret.
            bind-Triple
              (Triple-fail On-left (ask-Keeps (λ n. w.management_token n (some id) (some secret))))
              (λ token. account-Triple (is_set u.keycloak_user_id) u plain)))

  -- The account and then the copy of the password.
  both-Triple :
      (wrap : Fault → Fault) (u : UserRow) (plain email : Text) (p : Option Text)
      → Triple
          (On (And A (KnownId u.id)))
          (catch_with wrap
            (set_or_create w u plain >> update_fido_verified_user w email u.is_fido_verified p))
          (λ _. On A)
          (On A)
  both-Triple wrap u plain email p = catch_with-Triple wrap (
      bind-Triple (set_or_create-Triple u plain)
        (λ _. update_fido_verified_user-Keeps email u.is_fido_verified p))

  pub reset_token_password-Keeps :
      (email : Text) (p : Option Text) (token : Text)
      → Keeps A (reset_token_password w email p token)
  unfolding reset_token_password
  reset_token_password-Keeps email p token = catch_with-Triple rpc (
      bind-Triple (known_user-Triple email) (λ u.
        bind-Triple (Triple-fail On-left (get_reset_token-Keeps w u.id token)) (λ found.
          bind-Triple (Triple-fail On-left (ask-Keeps (λ n. ok (w.now n)))) (λ now.
            bind-Triple (Triple-fail On-left (lift-Keeps (check_token now found))) (λ details.
              bind-Triple (Triple-fail On-left (lift-Keeps (decrypt_password w.crypto p))) (λ plain.
                bind-Triple
                  (both-Triple (λ _. internal keycloak_reset) u plain (w.to_lower_case email) p)
                  (λ _.
                    bind-Triple (delete_reset_token-Keeps w details.id)
                      (λ _. pure-Keeps (u.id, u.email)))))))))

  pub reset_password-Keeps :
      (email : Text) (p q : Option Text) → Keeps A (reset_password w email p q)
  unfolding reset_password
  reset_password-Keeps email p q = catch_with-Triple rpc (
      bind-Triple (known_user-Triple email) (λ u.
        bind-Triple (Triple-fail On-left (lift-Keeps (decrypt_password w.crypto p))) (λ old.
          bind-Triple (Triple-fail On-left (lift-Keeps (decrypt_password w.crypto q))) (λ new.
            bind-Triple
              (Triple-fail On-left
                (throw_if-Keeps (same old new) (bad_request reset_same_password)))
              (λ _.
                bind-Triple
                  (Triple-fail On-left
                    (generate_token-Keeps w (w.to_lower_case email) (some old) u))
                  (λ _.
                    bind-Triple
                      (both-Triple (λ _. internal keycloak_register) u new (w.to_lower_case email)
                        q)
                      (λ _. pure-Keeps (u.id, u.email))))))))
