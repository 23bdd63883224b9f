-- ===== src/User/Request.antt =====
-- The requests that apps/user answers on a sign-up, a sign-in and a change of password, one after
-- the other: the routes of apps/user/src/user.controller.ts to the service.
use confirmd_platform.Common.{Option, List, [], ◌∷◌, Text}
use confirmd_platform.Effect.{◌>>◌, pure}
use confirmd_platform.User.Model.{Store, Services, Act}
use confirmd_platform.User.SignUp.{SendVerification, send_verification_mail, verify_email}
use confirmd_platform.User.Complete.{UserInformation, create_user_for_token, add_passkey}
use confirmd_platform.User.Login.{LoginUser, login}
use confirmd_platform.User.Password.{forgot_password, reset_token_password, reset_password}

pub data UserRequest : Type 0 where
  send_verification : SendVerification → UserRequest
  user_email_verification : (email verification_code : Text) → UserRequest
  add_user : UserInformation → UserRequest
  passkey : (email : Text) (password : Option Text) → UserRequest
  user_login : LoginUser → UserRequest
  forgot : (email : Text) → UserRequest
  reset_with_token : (email : Text) (password : Option Text) (token : Text) → UserRequest
  reset : (email : Text) (old_password new_password : Option Text) → UserRequest

module _ (w : Services) where
  unfoldable pub handle : UserRequest → Act (Unit {0})
  unfolding send_verification_mail verify_email create_user_for_token add_passkey login
      forgot_password reset_token_password reset_password
  handle (UserRequest.send_verification r) = send_verification_mail w r >> pure tt
  handle (UserRequest.user_email_verification email code) = verify_email w email code >> pure tt
  handle (UserRequest.add_user u) = create_user_for_token w u >> pure tt
  handle (UserRequest.passkey email password) = add_passkey w email password
  handle (UserRequest.user_login r) = login w r >> pure tt
  handle (UserRequest.forgot email) = forgot_password w email >> pure tt
  handle (UserRequest.reset_with_token email password token) =
      reset_token_password w email password token >> pure tt
  handle (UserRequest.reset email old_password new_password) =
      reset_password w email old_password new_password >> pure tt

  -- An error is the answer to its own request only.
  unfoldable pub serve : List UserRequest → Store → Store
  unfolding handle
  serve [] s = s
  serve (r ∷ rs) s = serve rs (handle r s).1
