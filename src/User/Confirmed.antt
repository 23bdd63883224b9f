-- ===== src/User/Confirmed.antt =====
-- `verifyEmail` of apps/user keeps what holds of the table of users.
use mathlib.Core.List.{Memᴰ}
use confirmd_platform.Common.{
  ◌≡◌, refl, Bool, true, false, if◌then◌else◌, not, ◌||◌, Option, none, some, List, Text, same,
  same_iff,
}
use confirmd_platform.Outcome.{
  ok, err, unauthorized, conflict, rpc, verified_email, invalid_email_url,
}
use confirmd_platform.Effect.{lift}
use confirmd_platform.Triple.{Ends, Triple, bind-Triple, catch_with-Triple}
use confirmd_platform.User.Model.{UserRow, Store, Services}
use confirmd_platform.User.Table.{find_user, has_email, verified, verify_user}
use confirmd_platform.User.SignUp.{check_code, is_empty_email, verify_email}
use confirmd_platform.User.Request.{UserRequest}
use confirmd_platform.User.Held.{Claim, And}
use confirmd_platform.User.Rules.{Rules, Coded}
use confirmd_platform.User.Steps.{
  On, Keeps, throw_if-Keeps, get_user_details-Triple, update_user-Triple,
}

module _ (w : Services) {seen asked : List UserRequest} {A : Claim}
    (rules : Rules w seen asked A) where
  check_code-Triple :
      (email code : Text) (found : Option UserRow)
      → Triple
          (λ s. On A s × (find_user (has_email email) s.users ≡ found))
          (lift (check_code w code found))
          (λ _. On (And A (Coded email code)))
          (On A)
  check_code-Triple email code none = record { runs = λ s h. h.0 }
  check_code-Triple email code (some u) = record {
    runs = λ s h. matched s h (same code u.verification_code) u.is_email_verified refl;
  }
    where
      matched :
          (s : Store)
          → On A s × (find_user (has_email email) s.users ≡ some u)
          → (c d : Bool) → same code u.verification_code ≡ c
          → Ends {A = Unit {0}}
              (λ _. On (And A (Coded email code)))
              (On A)
              (
                (if not c
                    then err (unauthorized invalid_email_url)
                    else if d
                    then err (conflict verified_email)
                    else ok tt),
                s,
              )
      matched s h false d e = h.0
      matched s h true true e = h.0
      matched s h true false e = record {
        held = (h.0.held, (u, (h.1, (same_iff code u.verification_code).0 e)));
      }

  verify_user-Triple :
      (email code : Text)
      → Memᴰ (UserRequest.user_email_verification email code) asked
      → Triple (On (And A (Coded email code))) (verify_user w email) (λ _. On A) (On A)
  unfolding verify_user
  verify_user-Triple email code m =
      update_user-Triple w (has_email email) (verified) (λ us o h. h.0)
        (λ us o q e h. rules.confirms email code us o q m h.1 e h.0)

  pub verify_email-Keeps :
      (email code : Text)
      → Memᴰ (UserRequest.user_email_verification email code) asked
      → Keeps A (verify_email w email code)
  unfolding verify_email
  verify_email-Keeps email code m = catch_with-Triple rpc (
      bind-Triple
        (throw_if-Keeps (is_empty_email w code || is_empty_email w email)
          (unauthorized invalid_email_url))
        (λ _. bind-Triple (get_user_details-Triple w email) (λ found.
          bind-Triple (check_code-Triple email code found) (λ _. verify_user-Triple email code m))))
