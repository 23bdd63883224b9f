-- ===== src/User/Table.antt =====
-- The operations of apps/user/repositories/user.repository.ts on the tables.
use confirmd_platform.Common.{
  ℕ, Bool, true, false, Option, none, some, List, [], ◌∷◌, ◌++◌, Text, same, any, if◌then◌else◌,
}
use confirmd_platform.Outcome.{Fault, Outcome, ok, err, external}
use confirmd_platform.User.Model.{UserRow, ResetToken, Store, Services, Act, query}

-- `findFirst` by a column.
unfoldable pub find_user : (UserRow → Bool) → List UserRow → Option UserRow
find_user p [] = none
find_user p (r ∷ rs) = let rest = find_user p rs in if p r then some r else rest

-- `update` by a unique column: the row as it is afterwards, and the table.
unfoldable pub change :
    (UserRow → Bool) → (UserRow → UserRow) → List UserRow → Option (UserRow × List UserRow)
change p f [] = none
change p f (r ∷ rs) =
    let rest = change p f rs in
    if p r then some (f r, f r ∷ rs) else elim rest [ none ↦ none | some q ↦ some (q.0, r ∷ q.1) ]

abbrev pub has_email : Text → UserRow → Bool
has_email email r = same r.email email

abbrev pub has_id : Text → UserRow → Bool
has_id id r = same r.id id

-- The errors of the database client: no row to update, and a unique column taken.
abbrev pub no_row : Fault
no_row = external 2025

abbrev pub taken : Fault
taken = external 2002

abbrev pub put_back : Option (UserRow × List UserRow) → Store → Outcome UserRow × Store
put_back none s = (err no_row, s)
put_back (some q) s = (ok q.0, record s { users = q.1 })

-- `createUser`: a row of that address gets the new code; otherwise a row is made.
abbrev pub set_code : Text → UserRow → UserRow
set_code code r = record r { verification_code = code }

abbrev pub new_user :
    (id email username code : Text) (client_id client_secret : Option Text) → UserRow
new_user id email username code client_id client_secret = record {
  id = id;
  email = email;
  username = username;
  first_name = none;
  last_name = none;
  verification_code = code;
  is_email_verified = false;
  keycloak_user_id = none;
  supabase_user_id = none;
  client_id = client_id;
  client_secret = client_secret;
  is_fido_verified = false;
  password = none;
}

abbrev pub insert_user : UserRow → Store → Outcome UserRow × Store
insert_user r s =
    if any (has_id r.id) s.users
    then (err taken, s)
    else (ok r, record s { users = s.users ++ r ∷ [] })

unfoldable pub upsert_user : UserRow → Store → Outcome UserRow × Store
unfolding change same
upsert_user r s = elim (change (has_email r.email) (set_code r.verification_code) s.users) [
  | some q ↦ (ok q.0, record s { users = q.1 })
  | none ↦ insert_user r s
]

abbrev pub verified : UserRow → UserRow
verified r = record r { is_email_verified = true }

abbrev pub named : (first_name last_name : Text) → UserRow → UserRow
named first_name last_name r = record r { first_name = some first_name; last_name = some last_name }

-- A column that is given as `undefined` is left as it is.
abbrev pub with_password : Option Text → UserRow → UserRow
with_password none r = r
with_password (some p) r = record r { password = some p }

-- `updateUserDetails`
abbrev pub registered_as : Text → UserRow → UserRow
registered_as keycloak_id r = record r {
  is_email_verified = true;
  keycloak_user_id = some keycloak_id;
}

unfoldable pub find_token : (user_id token : Text) → List ResetToken → Option ResetToken
find_token user_id token [] = none
find_token user_id token (t ∷ ts) =
    let rest = find_token user_id token ts in
    if same t.token token then (if same t.user_id user_id then some t else none) else rest

unfoldable pub without_token : Text → List ResetToken → List ResetToken
without_token id [] = []
without_token id (t ∷ ts) = let rest = without_token id ts in if same t.id id then ts else t ∷ rest

module _ (w : Services) where
  -- `checkUserExist` and `getUserDetails`
  unfoldable pub get_user_details : Text → Act (Option UserRow)
  unfolding find_user same
  get_user_details email = query w (λ s. (ok (find_user (has_email email) s.users), s))

  unfoldable pub update_user : (UserRow → Bool) → (UserRow → UserRow) → Act UserRow
  update_user p f = query w (λ s. put_back (change p f s.users) s)

  unfoldable pub create_user :
      (email username code : Text) (client_id client_secret : Option Text) → Act UserRow
  create_user email username code client_id client_secret = query w (λ s.
      upsert_user (new_user (w.new_uuid s.step) email username code client_id client_secret) s)

  unfoldable pub verify_user : Text → Act UserRow
  verify_user email = update_user (has_email email) verified

  unfoldable pub update_user_info : (email first_name last_name : Text) → Act UserRow
  update_user_info email first_name last_name =
      update_user (has_email email) (named first_name last_name)

  unfoldable pub add_user_password : Text → Option Text → Act UserRow
  add_user_password email password = update_user (has_email email) (with_password password)

  unfoldable pub update_user_details : (id keycloak_id : Text) → Act UserRow
  update_user_details id keycloak_id = update_user (has_id id) (registered_as keycloak_id)

  unfoldable pub store_user_role : (user_id role_id : Text) → Act (Unit {0})
  store_user_role user_id role_id =
      query w (λ s. (ok tt, record s { user_roles = (user_id, role_id) ∷ s.user_roles }))

  unfoldable pub store_org_role : (user_id role_id : Text) → Act (Unit {0})
  store_org_role user_id role_id =
      query w (λ s. (ok tt, record s { org_roles = (user_id, role_id) ∷ s.org_roles }))

  -- The table of reset tokens; `token` is unique.
  unfoldable pub create_reset_token : (user_id token : Text) (expires_at : ℕ) → Act ResetToken
  create_reset_token user_id token expires_at = query w (λ s.
      let t : ResetToken = record {
        id = w.new_uuid s.step;
        token = token;
        user_id = user_id;
        expires_at = expires_at;
      } in
      if any (λ u. same u.token token) s.tokens
      then (err taken, s)
      else (ok t, record s { tokens = t ∷ s.tokens }))

  unfoldable pub get_reset_token : (user_id token : Text) → Act (Option ResetToken)
  get_reset_token user_id token = query w (λ s. (ok (find_token user_id token s.tokens), s))

  unfoldable pub delete_reset_token : Text → Act (Unit {0})
  delete_reset_token id = query w (λ s.
      if any (λ t. same t.id id) s.tokens
      then (ok tt, record s { tokens = without_token id s.tokens })
      else (err no_row, s))
