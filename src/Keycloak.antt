-- ===== src/Keycloak.antt =====
-- The client of Keycloak: libs/client-registration/src/client-registration.service.ts.
mod Examples
pub mod Search
pub mod Refresh
use confirmd_platform.Common.{
  ℕ, zero, suc, Bool, true, false, not, ◌&&◌, ◌||◌, Option, none, some, List, [], ◌∷◌, Text, codes,
  same, all, if◌then◌else◌,
}
use confirmd_platform.Outcome.{
  Fault, Outcome, ok, err, bad_request, plain_error, type_error, client_credentials_missing,
  invalid_token_inputs, user_not_created, secret_not_retrieved,
}
use confirmd_platform.Effect.{
  Action, ◌>>=◌, ◌>>◌, pure, throw, lift, start, perform, catch, throw_if, non_null,
}
use confirmd_platform.Naming.{is_space}
use confirmd_platform.Organization.Model.Rows.{OrgCredentials, is_set}
use confirmd_platform.Secret.{Crypto, decrypt_password, decrypt_string, open_or_plain}

-- The payloads of the token endpoint, by `grant_type`.
pub data Grant : Type 0 where
  by_client : (client_id client_secret : Option Text) → Grant
  by_password :
      (client_id client_secret : Option Text) (username : Text) (password : Option Text) → Grant
  by_refresh : (client_id client_secret : Option Text) (refresh_token : Text) → Grant

-- The requests to Keycloak, by their endpoint.
pub data Sent : Type 0 where
  post_user : (email : Text) → Sent
  get_users_by_username get_users_by_email : (email : Text) → Sent
  put_password : (user_id : Text) → (password : Option Text) → Sent
  post_token : Grant → Sent
  get_clients : (client_id : Text) → Sent
  get_secret post_secret : (idp_id : Text) → Sent
  post_client : (name org_id : Text) → Sent

-- A client as Keycloak lists it.
pub record ClientRow : Type 0 where
  pub id : Text
  pub client_id : Text
  pub redirect_uris : Option (List Text)

-- What Keycloak answers, which may depend on all the requests before; a list of users is `none` when
-- the answer is no array.
pub record Keycloak : Type 0 where
  pub accepts : List Sent → Sent → Outcome (Unit {0})
  pub users : List Sent → Sent → Outcome (Option (List Text))
  pub token : List Sent → Grant → Outcome Text
  pub clients : List Sent → (client_id : Text) → Outcome (List ClientRow)
  pub secret : List Sent → (idp_id : Text) → Outcome Text
  pub not_found_status : Fault → Bool
  pub crypto : Crypto

abbrev pub Act : Type 0 → Type 0
Act A = Action Sent A

pub record CreateUser : Type 0 where
  pub email : Text
  pub password : Option Text

-- The user of an answer, unless the answer is no array or an empty one.
abbrev pub first_user : Option (List Text) → Option Text
first_user none = none
first_user (some []) = none
first_user (some (u ∷ us)) = some u

module _ (w : Keycloak) where
  abbrev pub send : Sent → Act (Unit {0})
  send c = perform c (λ h. w.accepts h c)

  abbrev pub search : Sent → Act (Option (List Text))
  search c = perform c (λ h. w.users h c)

  unfoldable pub search_by : Sent → Act (Option Text)
  search_by c = do found ← search c; pure (first_user found)

  -- `break` at a user, or what follows.
  unfoldable pub or_else : Option Text → Act (Option Text) → Act (Option Text)
  or_else none rest = rest
  or_else (some u) rest = pure (some u)

  -- One attempt: by the name, and then by the address.
  unfoldable pub search_once : (email : Text) → Act (Option Text)
  unfolding search_by or_else
  search_once email = do
    found ← search_by (Sent.get_users_by_username email)
    or_else found (search_by (Sent.get_users_by_email email))

  -- The loop with `left` attempts after this one: an error of the last attempt is thrown, one of an
  -- earlier attempt is passed over.
  unfoldable pub search_user : (left : ℕ) (email : Text) → Act (Option Text)
  unfolding search_once or_else
  search_user zero email = search_once email
  search_user (suc left) email = do
    found ← catch (λ _. pure none) (search_once email)
    or_else found (search_user left email)

  abbrev pub user_or_error : Option Text → Outcome Text
  user_or_error none = err (plain_error user_not_created)
  user_or_error (some u) = ok u

  unfoldable pub reset_password_of_keycloak_user : Option Text → (user_id : Text) → Act (Unit {0})
  reset_password_of_keycloak_user password user_id = send (Sent.put_password user_id password)

  unfoldable pub create_keycloak_user : CreateUser → Act Text
  unfolding search_user reset_password_of_keycloak_user
  create_keycloak_user u = do
    send (Sent.post_user u.email)
    found ← search_user 2 u.email
    user_id ← lift (user_or_error found)
    reset_password_of_keycloak_user u.password user_id
    pure user_id

  -- The first element of the answer is looked at without a test.
  abbrev pub first_or_type_error : {A : Type 0} → Option (List A) → Outcome A
  first_or_type_error none = err type_error
  first_or_type_error (some []) = err type_error
  first_or_type_error (some (a ∷ _)) = ok a

  unfoldable pub reset_password_of_user : CreateUser → Act (Unit {0})
  unfolding reset_password_of_keycloak_user
  reset_password_of_user u = do
    found ← search (Sent.get_users_by_username u.email)
    user_id ← lift (first_or_type_error found)
    reset_password_of_keycloak_user u.password user_id

  abbrev pub post_for_token : Grant → Act Text
  post_for_token g = perform (Sent.post_token g) (λ h. w.token h g)

  unfoldable pub get_token : (client_id client_secret : Option Text) → Act Text
  get_token client_id client_secret = do
    throw_if (not (is_set client_id) || not (is_set client_secret))
        (plain_error invalid_token_inputs)
    post_for_token (Grant.by_client client_id client_secret)

  unfoldable pub get_management_token : (client_id client_secret : Option Text) → Act Text
  unfolding get_token
  get_management_token client_id client_secret = do
    throw_if (not (is_set client_id) && not (is_set client_secret))
        (bad_request client_credentials_missing)
    get_token client_id client_secret

  -- The text that a password decrypts to, or the password when it does not or decrypts to blanks.
  unfoldable pub password_or_plain : Option Text → Option Text
  unfolding decrypt_password is_space
  password_or_plain secret = elim (decrypt_password w.crypto secret) [
    | err _ ↦ secret
    | ok t ↦ if all is_space t then secret else some t
  ]

  unfoldable pub get_user_token :
      (email : Text) (password client_id client_secret : Option Text) → Act Text
  unfolding open_or_plain password_or_plain
  get_user_token email password client_id client_secret = do
    throw_if (not (is_set client_id) && not (is_set client_secret))
        (bad_request client_credentials_missing)
    let id = open_or_plain w.crypto client_id
    let secret = open_or_plain w.crypto client_secret
    let plain = password_or_plain password
    throw_if
        (not (is_set id) || not (is_set secret) || not (is_set (some email)) || not (is_set plain))
        (plain_error invalid_token_inputs)
    post_for_token (Grant.by_password id secret email plain)

  unfoldable pub get_access_token :
      (refresh_token : Text) (client_id client_secret : Option Text) → Act Text
  unfolding decrypt_password
  get_access_token refresh_token client_id client_secret = do
    throw_if (not (is_set client_id) && not (is_set client_secret))
        (bad_request client_credentials_missing)
    secret ← lift (decrypt_password w.crypto client_secret)
    throw_if
        (not (is_set client_id) || not (is_set (some secret)) || not (is_set (some refresh_token)))
        (plain_error invalid_token_inputs)
    post_for_token (Grant.by_refresh client_id (some secret) refresh_token)

  abbrev pub list_clients : (client_id : Text) → Act (List ClientRow)
  list_clients client_id = perform (Sent.get_clients client_id) (λ h. w.clients h client_id)

  abbrev pub read_secret : (idp_id : Text) → Act Text
  read_secret idp_id = perform (Sent.get_secret idp_id) (λ h. w.secret h idp_id)

  unfoldable pub create_client : (org_name org_id : Text) → Act OrgCredentials
  create_client org_name org_id = do
    send (Sent.post_client org_name org_id)
    found ← list_clients org_id
    client ← lift (first_or_type_error (some found))
    client_secret ← read_secret client.id
    pure
        (record { client_id = client.client_id; idp_id = client.id; client_secret = client_secret })

  unfoldable pub generate_client_secret : (idp_id : Text) → Act Text
  generate_client_secret idp_id = do send (Sent.post_secret idp_id); read_secret idp_id

  unfoldable pub get_client_id_and_secret : Option Text → Act (Option (Text × Text))
  get_client_id_and_secret none = pure none
  get_client_id_and_secret (some []) = pure none
  get_client_id_and_secret (some (c ∷ s)) =
      catch
        (λ e. if w.not_found_status e then pure none else throw (plain_error secret_not_retrieved))
        (do
          found ← list_clients (c ∷ s)
          client ← lift (first_or_type_error (some found))
          client_secret ← read_secret client.id
          pure (some (client.client_id, client_secret)))

  abbrev pub opened_or : Outcome Text → Text → Text
  opened_or (ok t) plain = t
  opened_or (err _) plain = plain

  unfoldable pub get_client_redirect_url : (client_id : Text) → Act (List ClientRow)
  unfolding decrypt_password
  get_client_redirect_url client_id =
      list_clients (opened_or (decrypt_password w.crypto (some client_id)) client_id)
