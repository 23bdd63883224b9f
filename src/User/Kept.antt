-- ===== src/User/Kept.antt =====
-- The parts of the handlers of apps/user that keep every claim on the table of users which neither
-- a call to the outside nor an update of other columns breaks.
use confirmd_platform.Common.{
  refl, Bool, true, false, not, ◌&&◌, Option, none, some, Text, if◌then◌else◌,
}
use confirmd_platform.Outcome.{Fault, unauthorized, rpc, register_fido, invalid_email}
use confirmd_platform.Effect.{◌>>=◌, pure, non_null}
use confirmd_platform.Triple.{
  bind-Triple, pure-Triple, throw-Triple, catch_with-Triple, catch-Triple, Triple-weaken,
}
use confirmd_platform.Organization.Model.Rows.{is_set}
use confirmd_platform.User.Model.{UserRow, Services, Act}
use confirmd_platform.User.Table.{
  has_email, named, with_password, get_user_details, update_user_info, add_user_password,
}
use confirmd_platform.User.Held.{Claim, Frame, Follows}
use confirmd_platform.User.Login.{
  LoginUser, validate_email, known_user, keycloak_token, supabase_token, generate_token, login,
  or_plain, log_in_with_passkey,
}
use confirmd_platform.Secret.{decrypt_password}
use confirmd_platform.User.Steps.{
  Keeps, ask-Keeps, call-Keeps, lift-Keeps, throw_if-Keeps, get_user_details-Triple, edit-Keeps,
  store_user_role-Keeps, store_org_role-Keeps,
}
use confirmd_platform.User.Complete.{
  UserInformation, is_empty_text, check_passkey, register_with_passkey, register_with_password,
  register_account, find_account, existing_account, store_holder, make_holder, map_holder_role,
  add_passkey,
}

pub named-Follows : (w : Services) (a b : Text) (r : UserRow) → Follows r (named a b r)
named-Follows w a b r = record {
  id_same = refl;
  email_same = refl;
  code_same = refl;
  verified_same = refl;
  account_same = refl;
}

pub with_password-Follows :
    (w : Services) (p : Option Text) (r : UserRow) → Follows r (with_password p r)
with_password-Follows w none r = record {
  id_same = refl;
  email_same = refl;
  code_same = refl;
  verified_same = refl;
  account_same = refl;
}
with_password-Follows w (some p) r = record {
  id_same = refl;
  email_same = refl;
  code_same = refl;
  verified_same = refl;
  account_same = refl;
}

-- The steps of a sequence each keep the claim.
pub then-Keeps :
    {X Y : Type 0} {A : Claim} {m : Act X} {f : X → Act Y}
    → Keeps A m
    → ((x : X) → Keeps A (f x))
    → Keeps A (m >>= f)
then-Keeps h k = bind-Triple h k

pub if-Keeps :
    {X : Type 0} {A : Claim} {m k : Act X} (c : Bool)
    → Keeps A m
    → Keeps A k
    → Keeps A (if c then m else k)
if-Keeps true h k = h
if-Keeps false h k = k

module _ {A : Claim} where
  pub pure-Keeps : {X : Type 0} (x : X) → Keeps A (pure x)
  pure-Keeps x = pure-Triple x

  pub non_null-Keeps : {X : Type 0} (o : Option X) → Keeps A (non_null o)
  non_null-Keeps none = throw-Triple _
  non_null-Keeps (some x) = pure-Triple x

  pub get_user_details-Keeps : (w : Services) (email : Text) → Keeps A (get_user_details w email)
  get_user_details-Keeps w email =
      Triple-weaken (λ s h. h) (λ a s h. h.0) (get_user_details-Triple w email)

module _ (w : Services) {A : Claim} where
  keycloak_token-Keeps :
      (email : Text) (password : Option Text) (u : UserRow)
      → Keeps A (keycloak_token w email password u)
  unfolding keycloak_token
  keycloak_token-Keeps email password u =
      catch_with-Triple _ (then-Keeps (ask-Keeps _) (λ t. pure-Keeps _))

  supabase_token-Keeps :
      (email : Text) (password : Option Text) → Keeps A (supabase_token w email password)
  unfolding supabase_token
  supabase_token-Keeps email password =
      then-Keeps (ask-Keeps _) (λ s. then-Keeps (non_null-Keeps s) (λ t. pure-Keeps _))

  pub generate_token-Keeps :
      (email : Text) (password : Option Text) (u : UserRow)
      → Keeps A (generate_token w email password u)
  unfolding generate_token
  generate_token-Keeps email password u =
      if-Keeps (is_set u.keycloak_user_id) (keycloak_token-Keeps email password u)
        (supabase_token-Keeps email password)

  pub validate_email-Keeps : (email : Text) → Keeps A (validate_email w email)
  unfolding validate_email
  validate_email-Keeps email = throw_if-Keeps _ _

  known_user-Keeps : (email : Text) → Keeps A (known_user w email)
  unfolding known_user
  known_user-Keeps email =
      then-Keeps (validate_email-Keeps _)
        (λ _. then-Keeps (get_user_details-Keeps w _) (λ found. lift-Keeps _))

  log_in_with_passkey-Keeps : (email : Text) (u : UserRow) → Keeps A (log_in_with_passkey w email u)
  unfolding log_in_with_passkey
  log_in_with_passkey-Keeps email u = then-Keeps (get_user_details-Keeps w _) (λ found.
      then-Keeps (non_null-Keeps found)
        (λ details. then-Keeps (lift-Keeps _) (λ p. generate_token-Keeps _ _ u)))

  pub login-Keeps : (r : LoginUser) → Keeps A (login w r)
  unfolding login
  login-Keeps r = catch_with-Triple _ (
      then-Keeps (known_user-Keeps r.email) (λ u.
        then-Keeps
          (throw_if-Keeps (r.is_passkey && not u.is_fido_verified) (unauthorized register_fido))
          (λ _.
            if-Keeps (r.is_passkey && is_set (some u.username) && u.is_fido_verified)
              (log_in_with_passkey-Keeps r.email u)
              (generate_token-Keeps (w.to_lower_case r.email)
                (or_plain w (decrypt_password w.crypto r.password) r.password) u))))

  module _ (k : Frame A) where
    pub add_user_password-Keeps :
        (email : Text) (p : Option Text) → Keeps A (add_user_password w email p)
    unfolding add_user_password
    add_user_password-Keeps email p =
        edit-Keeps w k (has_email email) (with_password p) (with_password-Follows w p)

    pub update_user_info-Keeps : (email a b : Text) → Keeps A (update_user_info w email a b)
    unfolding update_user_info
    update_user_info-Keeps email a b =
        edit-Keeps w k (has_email email) (named a b) (named-Follows w a b)

    pub add_passkey-Keeps : (email : Text) (p : Option Text) → Keeps A (add_passkey w email p)
    unfolding add_passkey
    add_passkey-Keeps email p =
        let address = w.to_lower_case email in
        catch_with-Triple rpc (
          then-Keeps (throw_if-Keeps (is_empty_text address) (unauthorized invalid_email)) (λ _.
            then-Keeps (get_user_details-Keeps w address) (λ found.
              then-Keeps (lift-Keeps (check_passkey w found)) (λ u.
                then-Keeps (lift-Keeps (decrypt_password w.crypto p)) (λ plain.
                  then-Keeps (generate_token-Keeps address (some plain) u)
                    (λ _. then-Keeps (add_user_password-Keeps address p) (λ _. pure-Keeps tt)))))))

    register_with_passkey-Keeps : (u : UserInformation) → Keeps A (register_with_passkey w u)
    unfolding register_with_passkey
    register_with_passkey-Keeps u = then-Keeps (add_user_password-Keeps _ u.password) (λ _.
        then-Keeps (get_user_details-Keeps w _) (λ found.
          then-Keeps (non_null-Keeps found)
            (λ details. then-Keeps (lift-Keeps _) (λ p. catch_with-Triple _ (call-Keeps k _ _)))))

    find_account-Keeps : (email : Text) → Keeps A (find_account w email)
    unfolding find_account
    find_account-Keeps email = catch_with-Triple _ (then-Keeps (ask-Keeps _) (λ a. lift-Keeps _))

    existing_account-Keeps : (email : Text) (e : Fault) → Keeps A (existing_account w email e)
    unfolding existing_account
    existing_account-Keeps email e = if-Keeps _ (find_account-Keeps email) (throw-Triple _)

    register_with_password-Keeps : (u : UserInformation) → Keeps A (register_with_password w u)
    unfolding register_with_password
    register_with_password-Keeps u = then-Keeps (add_user_password-Keeps _ u.password) (λ _.
        then-Keeps (lift-Keeps _)
          (λ p. catch-Triple (call-Keeps k _ _) (existing_account-Keeps u.email)))

    pub register_account-Keeps : (u : UserInformation) → Keeps A (register_account w u)
    unfolding register_account
    register_account-Keeps u =
        if-Keeps _ (register_with_passkey-Keeps u) (register_with_password-Keeps u)

  store_holder-Keeps : (id : Text) → Keeps A (store_holder w id)
  unfolding store_holder
  store_holder-Keeps id = then-Keeps (ask-Keeps _) (λ role. store_user_role-Keeps w id role)

  pub make_holder-Keeps : (id : Text) (c : Bool) → Keeps A (make_holder w id c)
  unfolding make_holder
  make_holder-Keeps id c = if-Keeps c (store_holder-Keeps id) (pure-Keeps tt)

  pub map_holder_role-Keeps : (id : Text) → Keeps A (map_holder_role w id)
  unfolding map_holder_role
  map_holder_role-Keeps id =
      catch-Triple
        (then-Keeps (ask-Keeps _) (λ found.
          then-Keeps (non_null-Keeps found)
            (λ role. catch_with-Triple _ (store_org_role-Keeps w id role.id))))
        (λ e. pure-Keeps tt)
