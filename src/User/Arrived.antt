-- ===== src/User/Arrived.antt =====
-- `sendVerificationMail` of apps/user keeps what holds of the table of users.
use mathlib.Core.List.{Memᴰ}
use confirmd_platform.Common.{
  ◌≡◌, refl, sym, subst, Bool, true, false, if◌then◌else◌, not, ◌&&◌, Option, none, some, List, [],
  ◌∷◌, ◌++◌, any, Text, same,
}
use confirmd_platform.Outcome.{
  ok, err, bad_request, not_found, internal, rpc, user_email_send, redirect_url_not_found,
  invalid_email_domain,
}
use confirmd_platform.Effect.{lift}
use confirmd_platform.Triple.{Ends, Triple, bind-Triple, catch_with-Triple, Triple-fail}
use confirmd_platform.User.Model.{UserRow, Store, Services, mail_code}
use confirmd_platform.User.Table.{
  taken, find_user, has_email, has_id, set_code, new_user, insert_user, upsert_user, create_user,
}
use confirmd_platform.User.Change.{find_user-none, change-none}
use confirmd_platform.User.SignUp.{
  SendVerification, send_email_for_verification, first_sender, mail_verification, is_missing_url,
  first_redirect, refuse_known, is_disallowed, create_username, send_verification_mail,
}
use confirmd_platform.Secret.{open_both}
use confirmd_platform.User.Request.{UserRequest}
use confirmd_platform.User.Held.{Claim, Frame, And, And-Frame, Every, IsOther, Other-Frame, Mailed}
use confirmd_platform.User.Rules.{Rules}
use confirmd_platform.User.Steps.{
  On, Keeps, ask-Keeps, call-Triple, lift-Keeps, query-Triple, throw_if-Keeps,
  get_user_details-Triple,
}

pub On-left : {A B : Claim} (s : Store) → On (And A B) s → On A s
On-left s h = record { held = h.held.0 }

module _ (w : Services) where
  send_email_for_verification-Triple :
      {A : Claim}
      → Frame A
      → (email code : Text)
      → Triple
          (On A)
          (send_email_for_verification w email code)
          (λ _. On (And A (Mailed email code)))
          (On A)
  unfolding send_email_for_verification
  send_email_for_verification-Triple k email code = catch_with-Triple rpc (
      bind-Triple (ask-Keeps w.email_from) (λ config.
        bind-Triple (lift-Keeps (first_sender w config)) (λ from. Triple-fail On-left (
          bind-Triple
            (call-Triple (mail_code email code) (λ n. ok (w.mail_sent n))
              (λ us o h. (k.grows us o _ h, Memᴰ.head refl)))
            (λ sent. throw_if-Keeps (not sent) (internal user_email_send))))))

  mail_verification-Triple :
      {A : Claim}
      → Frame A
      → (r : SendVerification) (code : Text)
      → Triple (On A) (mail_verification w r code) (λ _. On (And A (Mailed r.email code))) (On A)
  unfolding mail_verification
  mail_verification-Triple k r code =
      let client = open_both w.crypto r.client_id r.client_secret in
      bind-Triple (ask-Keeps (λ n. w.management_token n client.0 client.1)) (λ token.
        bind-Triple (ask-Keeps (λ n. w.redirect_uris n client.0 token)) (λ clients.
          bind-Triple
            (throw_if-Keeps (is_missing_url w (first_redirect w clients))
              (not_found redirect_url_not_found))
            (λ _. send_email_for_verification-Triple k r.email code)))

  refuse_known-Triple :
      {A : Claim} (email : Text) (found : Option UserRow)
      → Triple
          (λ s. On A s × (find_user (has_email email) s.users ≡ found))
          (lift (refuse_known w found))
          (λ _. On (And A (Every (IsOther email))))
          (On A)
  refuse_known-Triple email none = record {
    runs = λ s h. record { held = (h.0.held, find_user-none (has_email email) s.users h.1) };
  }
  refuse_known-Triple email (some u) = record { runs = λ s h. h.0 }

module _ (w : Services) {seen asked : List UserRequest} {A : Claim}
    (rules : Rules w seen asked A) where
  -- The row that is made for an address that no row has.
  insert_user-Triple :
      (r : UserRow) (s : Store)
      → r.is_email_verified ≡ false
      → r.keycloak_user_id ≡ none
      → On (And (And A (Every (IsOther r.email))) (Mailed r.email r.verification_code)) s
      → Ends {A = UserRow} (λ _. On A) (On A) (insert_user r s)
  insert_user-Triple r s v k h = inserted (any (has_id r.id) s.users) refl
    where
      inserted :
          (c : Bool)
          → any (has_id r.id) s.users ≡ c
          → Ends {A = UserRow}
              (λ _. On A)
              (On A)
              (if c then (err taken, s) else (ok r, record s { users = s.users ++ r ∷ [] }))
      inserted true e = record { held = h.held.0.0 }
      inserted false e = record {
        held = rules.arrives s.users s.outside r v k h.held.0.1 e h.held.1 h.held.0.0;
      }

  create_user-Triple :
      (email username code : Text) (client_id client_secret : Option Text)
      → Triple
          (On (And (And A (Every (IsOther email))) (Mailed email code)))
          (create_user w email username code client_id client_secret)
          (λ _. On A)
          (On A)
  unfolding create_user upsert_user same
  create_user-Triple email username code client_id client_secret =
      query-Triple w _ (λ us o h. h.0.0)
        (λ s h.
          let r = new_user (w.new_uuid s.step) email username code client_id client_secret in
          subst
            (λ o.
              Ends {A = UserRow} (λ _. On A) (On A)
                (elim o [ some q ↦ (ok q.0, record s { users = q.1 }) | none ↦ insert_user r s ]))
            (sym (change-none (has_email email) (set_code code) s.users h.held.0.1))
            (insert_user-Triple r s refl refl h))

  pub send_verification_mail-Keeps : (r : SendVerification) → Keeps A (send_verification_mail w r)
  unfolding send_verification_mail
  send_verification_mail-Keeps r = catch_with-Triple rpc (
      bind-Triple
        (throw_if-Keeps (w.is_production && is_disallowed w r.email)
          (bad_request invalid_email_domain))
        (λ _. bind-Triple (get_user_details-Triple w r.email) (λ found.
          bind-Triple (refuse_known-Triple w r.email found) (λ _.
            bind-Triple (Triple-fail On-left (ask-Keeps (λ n. ok (w.new_uuid n)))) (λ code.
              bind-Triple
                (Triple-fail On-left (
                  catch_with-Triple (λ _. internal user_email_send)
                    (mail_verification-Triple w (And-Frame rules.frame (Other-Frame r.email)) r
                      code)))
                (λ _.
                  create_user-Triple r.email (create_username w r.email code) code r.client_id
                    r.client_secret))))))
