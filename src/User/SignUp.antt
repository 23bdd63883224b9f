-- ===== src/User/SignUp.antt =====
-- The first two requests of a sign-up: `sendVerificationMail`, `createUsername`,
-- `sendEmailForVerification` and `verifyEmail` of apps/user/src/user.service.ts.
use confirmd_platform.Common.{
  ℕ, Bool, true, false, not, ◌&&◌, ◌||◌, ◌==◌, leb, Option, none, some, List, [], ◌∷◌, ◌++◌, map,
  Text, codes, same, member, if◌then◌else◌,
}
use confirmd_platform.Outcome.{
  Outcome, ok, err, bad_request, unauthorized, not_found, conflict, internal, type_error,
  user_exists, verification_already_sent, user_email_send, redirect_url_not_found,
  invalid_email_url, verified_email, invalid_email_domain,
}
use confirmd_platform.Effect.{◌>>=◌, ◌>>◌, lift, catch_with, rethrow_rpc, throw_if}
use confirmd_platform.User.Model.{UserRow, Services, Act, mail_code, ask, call}
use confirmd_platform.User.Table.{get_user_details, create_user, verify_user}
use confirmd_platform.Secret.{open_both}

-- `text.split(c)[0]`, and `text.split(c)[1]`, which may be `undefined`.
unfoldable pub before : ℕ → Text → Text
before c [] = []
before c (d ∷ s) = let rest = before c s in if d == c then [] else d ∷ rest

unfoldable pub second_part : ℕ → Text → Option Text
unfolding before
second_part c [] = none
second_part c (d ∷ s) = let rest = second_part c s in if d == c then some (before c s) else rest

-- `/[a-zA-Z0-9_]/`
abbrev pub is_word_unit : ℕ → Bool
is_word_unit c =
    (leb b'a' c && leb c b'z')
    || (leb b'A' c && leb c b'Z')
    || (leb b'0' c && leb c b'9')
    || c == b'_'

abbrev pub clean_unit : ℕ → ℕ
clean_unit c = if is_word_unit c then c else b'-'

pub record SendVerification : Type 0 where
  pub email : Text
  pub client_id : Option Text
  pub client_secret : Option Text

module _ (w : Services) where
  unfoldable pub create_username : (email verify_code : Text) → Text
  unfolding before
  create_username email verify_code =
      map clean_unit (w.to_lower_case (before b'@' email)) ++ codes "-" ++ before b'-' verify_code

  unfoldable pub is_disallowed : Text → Bool
  unfolding second_part same
  is_disallowed email = elim (second_part b'@' email) [
    | none ↦ false
    | some d ↦ member d w.disallowed_domains
  ]

  abbrev pub first_sender : List Text → Outcome Text
  first_sender [] = err type_error
  first_sender (from ∷ _) = ok from

  unfoldable pub send_email_for_verification : (email verify_code : Text) → Act (Unit {0})
  send_email_for_verification email verify_code = rethrow_rpc (do
    config ← ask w.email_from
    from ← lift (first_sender config)
    sent ← call (mail_code email verify_code) (λ k. ok (w.mail_sent k))
    throw_if (not sent) (internal user_email_send))

  -- `const [redirectUrl] = getClientData[0]?.redirectUris || []`
  abbrev pub first_redirect : List (Option (List Text)) → Option Text
  first_redirect [] = none
  first_redirect (none ∷ _) = none
  first_redirect (some [] ∷ _) = none
  first_redirect (some (u ∷ _) ∷ _) = some u

  abbrev pub is_missing_url : Option Text → Bool
  is_missing_url none = true
  is_missing_url (some []) = true
  is_missing_url (some (_ ∷ _)) = false

  unfoldable pub mail_verification : SendVerification → (verify_code : Text) → Act (Unit {0})
  unfolding open_both send_email_for_verification
  mail_verification r verify_code = do
    let client = open_both w.crypto r.client_id r.client_secret
    token ← ask (λ k. w.management_token k client.0 client.1)
    clients ← ask (λ k. w.redirect_uris k client.0 token)
    throw_if (is_missing_url (first_redirect clients)) (not_found redirect_url_not_found)
    send_email_for_verification r.email verify_code

  abbrev pub refuse_known : Option UserRow → Outcome (Unit {0})
  refuse_known none = ok tt
  refuse_known (some u) =
      err (conflict (if u.is_email_verified then user_exists else verification_already_sent))

  unfoldable pub send_verification_mail : SendVerification → Act UserRow
  unfolding is_disallowed get_user_details mail_verification create_username create_user
  send_verification_mail r = rethrow_rpc (do
    throw_if (w.is_production && is_disallowed r.email) (bad_request invalid_email_domain)
    found ← get_user_details w r.email
    lift (refuse_known found)
    verify_code ← ask (λ k. ok (w.new_uuid k))
    catch_with (λ _. internal user_email_send) (mail_verification r verify_code)
    create_user w r.email (create_username r.email verify_code) verify_code r.client_id
        r.client_secret)

  abbrev pub is_empty_email : Text → Bool
  is_empty_email [] = true
  is_empty_email (_ ∷ _) = false

  -- The last test of the handler repeats the one before it, so it holds.
  abbrev pub check_code : (verification_code : Text) → Option UserRow → Outcome (Unit {0})
  check_code verification_code none = err (unauthorized invalid_email_url)
  check_code verification_code (some u) =
      if not (same verification_code u.verification_code)
      then err (unauthorized invalid_email_url)
      else if u.is_email_verified
      then err (conflict verified_email)
      else ok tt

  unfoldable pub verify_email : (email verification_code : Text) → Act UserRow
  unfolding get_user_details verify_user same
  verify_email email verification_code = rethrow_rpc (do
    throw_if (is_empty_email verification_code || is_empty_email email)
        (unauthorized invalid_email_url)
    found ← get_user_details w email
    lift (check_code verification_code found)
    verify_user w email)
