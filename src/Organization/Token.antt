-- ===== src/Organization/Token.antt =====
-- The token for the calls to Keycloak: the test and the two requests that the service's methods
-- begin with.
use confirmd_platform.Common.{Text, ◌≡◌, arith, if◌then◌else◌}
use confirmd_platform.Effect.{◌>>=◌, read, non_null}
use confirmd_platform.Organization.Model.Rows.{User, is_platform_admin}
use confirmd_platform.Organization.Model.World.{World, Act, History}

module _ (w : World) where
  -- `getUser(userId)` and the reads of its properties, which throw on `null`.
  unfoldable pub get_user : Text → Act User
  get_user user_id = do found ← read (λ h. w.user_by_id h user_id); non_null found

  unfoldable pub token_for : User → Act Text
  token_for u =
      if is_platform_admin u
      then read (λ h. w.token_from_env h)
      else read (λ h. w.management_token h u.client_id u.client_secret)

  unfoldable pub token_of : Text → Act Text
  unfolding get_user token_for
  token_of user_id = do u ← get_user user_id; token_for u

  pub token_of-history : (user_id : Text) (h : History) → (token_of user_id h).1 ≡ h
  unfolding token_of
  token_of-history user_id h = ground arith
