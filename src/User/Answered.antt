-- ===== src/User/Answered.antt =====
-- When the database and the outside answer, a sign-up gets through to a verified address.
use confirmd_platform.Common.{
  ℕ, ◌≡◌, refl, sym, ap, ◌∙◌, subst, true, false, if◌then◌else◌, ◌&&◌, ◌||◌, Option, none, some,
  List, [], ◌∷◌, ◌++◌, All, any, arith, Text, same, same_refl,
}
use confirmd_platform.Outcome.{
  Outcome, ok, err, rpc, internal, user_email_send, bad_request, unauthorized, invalid_email_domain,
  invalid_email_url,
}
use confirmd_platform.Triple.{Ends, Triple, bind-Triple, catch_with-Triple}
use confirmd_platform.User.Model.{UserRow, Store, Services}
use confirmd_platform.User.Table.{
  taken, find_user, change, has_email, has_id, set_code, verified, new_user, insert_user,
  upsert_user, put_back, get_user_details, create_user, update_user, verify_user,
}
use confirmd_platform.User.Change.{change-none, find_last, find_none, change-found}
use confirmd_platform.User.SignUp.{
  SendVerification, refuse_known, is_disallowed, create_username, send_verification_mail,
  check_code, is_empty_email, verify_email,
}
use confirmd_platform.User.Held.{IsOther}
use confirmd_platform.User.Progress.{confirmed, status_in, status_by, status_of_row}
use confirmd_platform.User.Returns.{
  Answers, Never, Has, ask-Returns, lift-Returns, query-Returns, given-Returns, throw_if-Returns,
  mail-Returns,
}

module _ (w : Services) (up : Answers w) where
  -- A row that waits for its address to be verified.
  abbrev IsWaiting : Text → UserRow → Type 0
  IsWaiting email u =
      (u.email ≡ email)
      × (u.is_email_verified ≡ false)
      × (u.keycloak_user_id ≡ none)
      × (is_empty_email w u.verification_code ≡ false)

  abbrev IsAdded : Text → List UserRow → UserRow → Store → Type 0
  IsAdded email us u s = Has (us ++ u ∷ []) s × IsWaiting email u

  upsert_user-Returns :
      (us : List UserRow) (r : UserRow) (s : Store)
      → s.users ≡ us
      → All (IsOther r.email) us
      → any (has_id r.id) us ≡ false
      → IsWaiting r.email r
      → Ends (IsAdded r.email us) Never (upsert_user r s)
  unfolding upsert_user same
  upsert_user-Returns us r s e others fresh waits =
      let none_changed : change (has_email r.email) (set_code r.verification_code) s.users ≡ none =
        ap (change (has_email r.email) (set_code r.verification_code)) e
        ∙ change-none (has_email r.email) (set_code r.verification_code) us others in
      let none_taken : any (has_id r.id) s.users ≡ false = ap (any (has_id r.id)) e ∙ fresh in
      subst
        (λ o.
          Ends (IsAdded r.email us) Never
            (elim o [ some q ↦ (ok q.0, record s { users = q.1 }) | none ↦ insert_user r s ]))
        (sym none_changed)
        (subst
          (λ b.
            Ends (IsAdded r.email us) Never
              (if b then (err taken, s) else (ok r, record s { users = s.users ++ r ∷ [] })))
          (sym none_taken) (record { users_are = ap (λ vs. vs ++ r ∷ []) e }, waits))

  create_user-Returns :
      {us : List UserRow} (email username code : Text) (client_id client_secret : Option Text)
      → All (IsOther email) us
      → ((k : ℕ) → any (has_id (w.new_uuid k)) us ≡ false)
      → is_empty_email w code ≡ false
      → Triple
          (Has us)
          (create_user w email username code client_id client_secret)
          (IsAdded email us)
          Never
  unfolding create_user upsert_user same
  create_user-Returns {us} email username code client_id client_secret others fresh c =
      query-Returns w _ up (λ s h.
        let r = new_user (w.new_uuid s.step) email username code client_id client_secret in
        upsert_user-Returns us r s h.users_are others (fresh s.step) (refl, refl, refl, c))

  send_verification_mail-Returns :
      {us : List UserRow} (r : SendVerification)
      → (w.is_production && is_disallowed w r.email) ≡ false
      → All (IsOther r.email) us
      → ((k : ℕ) → any (has_id (w.new_uuid k)) us ≡ false)
      → Triple (Has us) (send_verification_mail w r) (IsAdded r.email us) Never
  unfolding send_verification_mail get_user_details
  send_verification_mail-Returns {us} r allowed others fresh = catch_with-Triple rpc (
      bind-Triple
        (throw_if-Returns (w.is_production && is_disallowed w r.email)
          (bad_request invalid_email_domain) allowed)
        (λ _.
          bind-Triple
            (query-Returns {Q = λ found s. Has us s × (found ≡ none)} w _ up (λ s h.
              (h, ap (find_user (has_email r.email)) h.users_are ∙ find_none r.email us others)))
            (λ found. given-Returns (λ e.
              bind-Triple
                (lift-Returns (λ _. Unit {0}) (refuse_known w found)
                  (tt, (ap (refuse_known w) e, tt)))
                (λ _. given-Returns (λ _.
                  bind-Triple
                    (ask-Returns (λ c. is_empty_email w c ≡ false) (λ k. ok (w.new_uuid k))
                      (λ k. (w.new_uuid k, (refl, up.uuid_set k))))
                    (λ code. given-Returns (λ c.
                      bind-Triple
                        (catch_with-Triple (λ _. internal user_email_send)
                          (mail-Returns w up r code))
                        (λ _.
                          create_user-Returns r.email (create_username w r.email code) code
                            r.client_id r.client_secret others fresh c)))))))))

  verify_user-Returns :
      {us : List UserRow} (email : Text) (u : UserRow)
      → find_user (has_email email) us ≡ some u
      → u.keycloak_user_id ≡ none
      → Triple (Has us) (verify_user w email) (λ _ s. status_in email s.users ≡ confirmed) Never
  unfolding verify_user update_user
  verify_user-Returns {us} email u e free = query-Returns w _ up (λ s h.
      let (q, (c, f)) = change-found email us u e in
      subst
        (λ o. Ends {A = UserRow} (λ _ s. status_in email s.users ≡ confirmed) Never (put_back o s))
        (sym (ap (change (has_email email) verified) h.users_are ∙ c))
        (ap status_of_row f ∙ ap (status_by true) free))

  verify_email-Returns :
      {us : List UserRow} (email : Text) (u : UserRow)
      → is_empty_email w email ≡ false
      → find_user (has_email email) us ≡ some u
      → IsWaiting email u
      → Triple
          (Has us)
          (verify_email w email u.verification_code)
          (λ _ s. status_in email s.users ≡ confirmed)
          Never
  unfolding verify_email get_user_details
  verify_email-Returns {us} email u named e waits = catch_with-Triple rpc (
      bind-Triple
        (throw_if-Returns (is_empty_email w u.verification_code || is_empty_email w email)
          (unauthorized invalid_email_url) (ground (arith, named, waits.3)))
        (λ _.
          bind-Triple
            (query-Returns {Q = λ found s. Has us s × (found ≡ some u)} w _ up
              (λ s h. (h, ap (find_user (has_email email)) h.users_are ∙ e)))
            (λ found. given-Returns (λ f.
              bind-Triple
                (lift-Returns (λ _. Unit {0}) (check_code w u.verification_code found)
                  (
                    tt,
                    (
                      ap (check_code w u.verification_code) f
                          ∙ ground (arith, waits.1, same_refl u.verification_code),
                      tt,
                    ),
                  ))
                (λ _. given-Returns (λ _. verify_user-Returns email u e waits.2))))))

-- The value of an action that cannot throw.
value_of :
    {X : Type 0} (Q : X → Store → Type 0) (p : Outcome X × Store)
    → Ends Q Never p
    → (x : X) × ((p.0 ≡ ok x) × Q x p.1)
value_of Q (ok x, s) h = (x, (refl, h))
value_of Q (err e, s) h = absurd h

-- When the database works and Keycloak and the mail service answer, an allowed address that no row
-- has gets a row by `sendVerificationMail`, and `verifyEmail` with the code of that row then
-- succeeds and leaves the address confirmed.
pub sign_up-confirmed :
    (w : Services) (r : SendVerification) (s : Store)
    → Answers w
    → (w.is_production && is_disallowed w r.email) ≡ false
    → is_empty_email w r.email ≡ false
    → All (IsOther r.email) s.users
    → ((k : ℕ) → any (has_id (w.new_uuid k)) s.users ≡ false)
    → (u : UserRow) × (((send_verification_mail w r s).0 ≡ ok u)
        × ((v : UserRow) × (((verify_email w r.email u.verification_code
                  (send_verification_mail w r s).1).0
                ≡ ok v)
              × (status_in r.email
                    (verify_email w r.email u.verification_code
                      (send_verification_mail w r s).1).1.users
                  ≡ confirmed))))
sign_up-confirmed w r s up allowed named others fresh =
    let sent = send_verification_mail w r s in
    let (u, (a, (here, waits))) = value_of (IsAdded w up r.email s.users) sent (
      (send_verification_mail-Returns w up r allowed others fresh).runs s
        (record { users_are = refl })) in
    let found = find_last r.email s.users u others waits.0 in
    let (v, (b, c)) =
      value_of (λ _ t. status_in r.email t.users ≡ confirmed)
        (verify_email w r.email u.verification_code sent.1)
        ((verify_email-Returns w up r.email u named found waits).runs sent.1 here) in
    (u, (a, (v, (b, c))))
