-- ===== src/User/Earned.antt =====
-- What holds of the table of users after any requests to apps/user, one after the other.
use mathlib.Core.List.{Memᴰ}
use confirmd_platform.Common.{◌≡◌, refl, sym, subst, List, [], ◌∷◌, All}
use confirmd_platform.Outcome.{Outcome, ok, err}
use confirmd_platform.Triple.{Ends}
use confirmd_platform.User.Model.{Store, Services}
use confirmd_platform.User.Request.{UserRequest, handle, serve}
use confirmd_platform.User.Held.{Claim, Held, IsEarned}
use confirmd_platform.User.Rules.{Rules, Held-Rules}
use confirmd_platform.User.Steps.{On, Keeps}
use confirmd_platform.User.Kept.{then-Keeps, pure-Keeps, login-Keeps, add_passkey-Keeps}
use confirmd_platform.User.Arrived.{send_verification_mail-Keeps}
use confirmd_platform.User.Confirmed.{verify_email-Keeps}
use confirmd_platform.User.Registered.{create_user_for_token-Keeps}
use confirmd_platform.User.Replaced.{
  forgot_password-Keeps, reset_token_password-Keeps, reset_password-Keeps,
}

On-ended : {A : Type 0} {C : Claim} (p : Outcome A × Store) → Ends (λ _. On C) (On C) p → On C p.1
On-ended (ok a, s) h = h
On-ended (err e, s) h = h

module _ (w : Services) {seen asked : List UserRequest} {A : Claim}
    (rules : Rules w seen asked A) where
  -- Every request keeps a claim with these rules, whichever way it ends.
  handle-Keeps : (r : UserRequest) → Memᴰ r asked → Keeps A (handle w r)
  unfolding handle
  handle-Keeps (UserRequest.send_verification r) m =
      then-Keeps (send_verification_mail-Keeps w rules r) (λ _. pure-Keeps tt)
  handle-Keeps (UserRequest.user_email_verification email code) m =
      then-Keeps (verify_email-Keeps w rules email code m) (λ _. pure-Keeps tt)
  handle-Keeps (UserRequest.add_user u) m =
      then-Keeps (create_user_for_token-Keeps w rules u) (λ _. pure-Keeps tt)
  handle-Keeps (UserRequest.passkey email p) m = add_passkey-Keeps w rules.frame email p
  handle-Keeps (UserRequest.user_login r) m = then-Keeps (login-Keeps w r) (λ _. pure-Keeps tt)
  handle-Keeps (UserRequest.forgot email) m =
      then-Keeps (forgot_password-Keeps w rules email) (λ _. pure-Keeps tt)
  handle-Keeps (UserRequest.reset_with_token email p token) m =
      then-Keeps (reset_token_password-Keeps w rules email p token) (λ _. pure-Keeps tt)
  handle-Keeps (UserRequest.reset email p q) m =
      then-Keeps (reset_password-Keeps w rules email p q) (λ _. pure-Keeps tt)

  pub serve-Keeps :
      (rs : List UserRequest) (s : Store)
      → ((r : UserRequest) → Memᴰ r rs → Memᴰ r asked)
      → On A s
      → On A (serve w rs s)
  unfolding serve
  serve-Keeps [] s f h = h
  serve-Keeps (r ∷ rs) s f h =
      serve-Keeps rs (handle w r s).1 (λ x m. f x (Memᴰ.tail m))
        (On-ended (handle w r s) ((handle-Keeps r (f r (Memᴰ.head refl))).runs s h))

pub served :
    (w : Services) (rs all : List UserRequest) (s : Store)
    → ((r : UserRequest) → Memᴰ r rs → Memᴰ r all)
    → s.users ≡ []
    → On (Held all) (serve w rs s)
served w rs all s within e =
    serve-Keeps w (Held-Rules w all all (λ r m. m)) rs s within
      (record { held = subst (λ us. Held all us s.outside) (sym e) (tt, tt, tt) })

-- After any requests to an empty table, in any order and whatever the outside answers: the code of
-- every row was mailed to its address; a row whose address counts as verified was verified by one
-- of the requests, which carried that address and that code; and a row with a Keycloak account has
-- a verified address.
pub serve-IsEarned :
    (w : Services) (rs : List UserRequest) (s : Store)
    → s.users ≡ []
    → All (IsEarned rs (serve w rs s).outside) (serve w rs s).users
serve-IsEarned w rs s e = (served w rs rs s (λ r m. m) e).held.0
