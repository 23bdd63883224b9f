-- ===== src/User/Registered.antt =====
-- `createUserForToken` of apps/user keeps what holds of the table of users: the row that gets an
-- account is one whose address is verified.
use confirmd_platform.Common.{
  ◌≡◌, refl, Bool, true, false, if◌then◌else◌, Option, none, some, List, Text,
}
use confirmd_platform.Outcome.{
  ok, err, unauthorized, conflict, not_found, rpc, invalid_email, user_exists, verification_pending,
}
use confirmd_platform.Effect.{lift}
use confirmd_platform.Triple.{
  Ends, Triple, bind-Triple, pure-Triple, catch_with-Triple, Triple-fail,
}
use confirmd_platform.User.Model.{UserRow, Store, Services, give_realm_role}
use confirmd_platform.User.Table.{find_user, has_email, has_id, registered_as, update_user_details}
use confirmd_platform.Secret.{open_both}
use confirmd_platform.User.Complete.{
  UserInformation, is_empty_text, check_registration, or_not_found, has_account, named_user,
  mb_user_role, create_user_for_token,
}
use confirmd_platform.User.Request.{UserRequest}
use confirmd_platform.User.Held.{Claim, Frame, And, And-Frame, Every, IsKnown, Known-Frame}
use confirmd_platform.User.Rules.{
  Rules, IsKnown-email, IsKnown-id, found_verified, KnownId, KnownId-Frame,
}
use confirmd_platform.User.Steps.{
  On, Keeps, ask-Keeps, call-Keeps, lift-Keeps, throw_if-Keeps, get_user_details-Triple,
  update_user-Triple,
}
use confirmd_platform.User.Kept.{
  update_user_info-Keeps, register_account-Keeps, make_holder-Keeps, map_holder_role-Keeps,
  pure-Keeps,
}
use confirmd_platform.User.Arrived.{On-left}

abbrev KnownEmail : Text → Claim
KnownEmail email = Every (IsKnown (λ x. x.email) email)

KnownEmail-Frame : (email : Text) → Frame (KnownEmail email)
KnownEmail-Frame email = Known-Frame (λ x. x.email) email (λ r r' f. f.email_same)

module _ (w : Services) {seen asked : List UserRequest} {A : Claim}
    (rules : Rules w seen asked A) where
  pub update_user_details-Triple :
      (id account : Text)
      → Triple (On (And A (KnownId id))) (update_user_details w id account) (λ _. On A) (On A)
  unfolding update_user_details
  update_user_details-Triple id account =
      update_user-Triple w (has_id id) (registered_as account) (λ us o h. h.0)
        (λ us o q e h. rules.registers id account us o q h.1 e h.0)

  check_registration-Triple :
      (email : Text) (found : Option UserRow)
      → Triple
          (λ s. On A s × (find_user (has_email email) s.users ≡ found))
          (lift (check_registration found))
          (λ _. On (And A (KnownEmail email)))
          (On A)
  check_registration-Triple email none = record { runs = λ s h. h.0 }
  check_registration-Triple email (some u) = record {
    runs = λ s h. ready s h (has_account u) u.is_email_verified refl;
  }
    where
      ready :
          (s : Store)
          → On A s × (find_user (has_email email) s.users ≡ some u)
          → (c d : Bool) → u.is_email_verified ≡ d
          → Ends {A = UserRow}
              (λ _. On (And A (KnownEmail email)))
              (On A)
              (
                (if c
                    then err (conflict user_exists)
                    else if d
                    then ok u
                    else err (not_found verification_pending)),
                s,
              )
      ready s h true d e = h.0
      ready s h false false e = h.0
      ready s h false true e = record {
        held = (
          h.0.held,
          IsKnown-email seen s.users s.outside (rules.holds s.users s.outside h.0.held) email u h.1
              e,
        );
      }

  or_not_found-Triple :
      (email : Text) (found : Option UserRow)
      → Triple
          (λ s. On (And A (KnownEmail email)) s × (find_user (has_email email) s.users ≡ found))
          (lift (or_not_found found))
          (λ u. On (And A (KnownId u.id)))
          (On A)
  or_not_found-Triple email none = record { runs = λ s h. On-left s h.0 }
  or_not_found-Triple email (some u) = record {
    runs = λ s h.
        let (hs, known) = h.0.held in
        record {
          held = (
            hs,
            IsKnown-id seen s.users s.outside (rules.holds s.users s.outside hs) email u h.1
                (found_verified email s.users u known h.1),
          );
        };
  }

  named_user-Triple :
      (u : UserInformation)
      → Triple (On A) (named_user w u) (λ rows. On (And A (KnownId rows.1.id))) (On A)
  unfolding named_user
  named_user-Triple u =
      let email = w.to_lower_case u.email in
      bind-Triple (throw_if-Keeps (is_empty_text u.email) (unauthorized invalid_email)) (λ _.
        bind-Triple (get_user_details-Triple w email) (λ found.
          bind-Triple (check_registration-Triple email found) (λ checked.
            bind-Triple
              (Triple-fail On-left (
                update_user_info-Keeps w (And-Frame rules.frame (KnownEmail-Frame email)) email
                  u.first_name u.last_name))
              (λ _. bind-Triple (Triple-fail On-left (get_user_details-Triple w email)) (λ again.
                bind-Triple (or_not_found-Triple email again)
                  (λ details. pure-Triple (checked, details)))))))

  pub create_user_for_token-Keeps : (u : UserInformation) → Keeps A (create_user_for_token w u)
  unfolding create_user_for_token
  create_user_for_token-Keeps u = catch_with-Triple rpc (
      bind-Triple (named_user-Triple u) (λ rows.
        let client = open_both w.crypto rows.0.client_id rows.0.client_secret in
        let frame = And-Frame rules.frame (KnownId-Frame rows.1.id) in
        bind-Triple (Triple-fail On-left (ask-Keeps (λ n. w.management_token n client.0 client.1)))
          (λ token. bind-Triple (Triple-fail On-left (register_account-Keeps w frame u)) (λ account.
            bind-Triple (update_user_details-Triple rows.1.id account) (λ _.
              bind-Triple (make_holder-Keeps w rows.1.id u.is_holder) (λ _.
                bind-Triple (ask-Keeps (λ n. w.realm_roles n token)) (λ roles.
                  bind-Triple (lift-Keeps (mb_user_role roles)) (λ role.
                    bind-Triple
                      (call-Keeps rules.frame (give_realm_role account role) w.realm_role_given)
                      (λ _.
                        bind-Triple (map_holder_role-Keeps w rows.1.id)
                          (λ _. pure-Keeps rows.1.id))))))))))
