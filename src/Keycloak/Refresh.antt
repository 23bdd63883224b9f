-- ===== src/Keycloak/Refresh.antt =====
-- `refreshTokenDetails` of apps/user/src/user.service.ts, which opens the secret of the client before
-- `getAccessToken` of libs/client-registration opens it again.
use confirmd_platform.Common.{
  ◌≡◌, refl, ap, ◌∙◌, not, ◌&&◌, Option, none, some, List, Text, arith, inl, inr, Bool-cases,
  Option-cases,
}
use confirmd_platform.Outcome.{
  Fault, Outcome, ok, err, bad_request, rpc, invalid_credentials, invalid_refresh_token,
  client_credentials_missing,
}
use confirmd_platform.Effect.{◌>>=◌, lift, catch_with, rethrow_rpc}
use confirmd_platform.Organization.Model.Rows.{is_set}
use confirmd_platform.Secret.{Crypto, decrypt_password, opened}
use confirmd_platform.Keycloak.{Sent, Keycloak, Act, get_access_token}

-- The columns of the user that is looked up by the `sub` of the decoded token.
pub record TokenUser : Type 0 where
  pub client_id : Option Text
  pub client_secret : Option Text

-- `user` is what the package jsonwebtoken and the query answer.
unfoldable pub refresh_token_details :
    (w : Keycloak) (user : Outcome TokenUser) (refresh_token : Text) → Act Text
unfolding decrypt_password get_access_token
refresh_token_details w user refresh_token = rethrow_rpc (
    catch_with (λ _. bad_request invalid_refresh_token)
      (do
        found ← lift user
        client_id ← lift (decrypt_password w.crypto found.client_id)
        client_secret ← lift (decrypt_password w.crypto found.client_secret)
        get_access_token w refresh_token (some client_id) (some client_secret)))

-- The secret of the user, decrypted, is itself no encryption of a JSON text: an encryption was made
-- of it once.
abbrev pub IsOnce : Crypto → Outcome TokenUser → Type 0
IsOnce c user =
    (u : TokenUser) (s t : Text)
    → user ≡ ok u
    → u.client_secret ≡ some s
    → c.open_json s ≡ some t
    → c.open_json t ≡ none

-- The action throws and sends nothing.
abbrev Refuses : Act Text → List Sent → Type 0
Refuses m h = (e : Fault) × (m h ≡ (err e, h))

opened_once :
    (c : Crypto) (secret : Option Text) (t : Text)
    → ((s u : Text) → secret ≡ some s → c.open_json s ≡ some u → c.open_json u ≡ none)
    → decrypt_password c secret ≡ ok t
    → decrypt_password c (some t) ≡ err (bad_request invalid_credentials)
unfolding decrypt_password
opened_once c none t once e = absurd (ground (arith, e))
opened_once c (some s) t once e = elim (Option-cases (c.open_json s)) [
  | inl n ↦ absurd (ground (arith, e, n))
  | inr (u, o) ↦
      let same_text : u ≡ t = ground (arith, e, o) in
      ap opened (once s t refl (o ∙ ap some same_text))
]

access_refused :
    (w : Keycloak) (token : Text) (client_id : Option Text) (secret : Text) (h : List Sent)
    → decrypt_password w.crypto (some secret) ≡ err (bad_request invalid_credentials)
    → Refuses (get_access_token w token client_id (some secret)) h
unfolding get_access_token
access_refused w token client_id secret h e =
    elim (Bool-cases (not (is_set client_id) && not (is_set (some secret)))) [
      | inl a ↦ (bad_request client_credentials_missing, ground (arith, a))
      | inr b ↦ (bad_request invalid_credentials, ground (arith, b, e))
    ]

opened_refused :
    (w : Keycloak) (token : Text) (h : List Sent) (a b : Outcome Text)
    → ((secret : Text)
        → b ≡ ok secret
        → decrypt_password w.crypto (some secret) ≡ err (bad_request invalid_credentials))
    → Refuses
        (lift a >>= λ id. lift b >>= λ secret. get_access_token w token (some id) (some secret))
        h
opened_refused w token h (err e) b k = (e, refl)
opened_refused w token h (ok id) (err e) k = (e, refl)
opened_refused w token h (ok id) (ok secret) k =
    access_refused w token (some id) secret h (k secret refl)

-- When the secret of the looked up user, once decrypted, is not itself an encryption of a JSON text
-- (the client's secret was encrypted once), the refresh of a token is refused as an invalid refresh
-- token, and nothing is sent to Keycloak.
pub refresh_token_details-refused :
    (w : Keycloak) (user : Outcome TokenUser) (token : Text) (h : List Sent)
    → IsOnce w.crypto user
    → refresh_token_details w user token h ≡ (err (rpc (bad_request invalid_refresh_token)), h)
unfolding refresh_token_details
refresh_token_details-refused w (err e) token h once = refl
refresh_token_details-refused w (ok found) token h once =
    let (e, refused) =
      opened_refused w token h (decrypt_password w.crypto found.client_id)
        (decrypt_password w.crypto found.client_secret)
        (λ t. opened_once w.crypto found.client_secret t (λ s u. once found s u refl)) in
    ap
      (λ (p : Outcome Text × List Sent).
        rethrow_rpc (catch_with (λ _. bad_request invalid_refresh_token) (λ _. p)) h)
      refused
