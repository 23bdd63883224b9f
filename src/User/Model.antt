-- ===== src/User/Model.antt =====
-- The tables that apps/user keeps, and what it relies on outside: Keycloak, Supabase, the mail
-- service, the packages crypto-js, uuid and validator.
use confirmd_platform.Common.{ℕ, suc, Bool, Option, none, some, List, ◌∷◌, Text}
use confirmd_platform.Outcome.{Fault, Outcome, err}
use confirmd_platform.Effect.{Stateful}
use confirmd_platform.Secret.{Crypto}
use confirmd_platform.Organization.Model.Rows.{OrgRole, ClientRole}

-- A row of `user`.
pub record UserRow : Type 0 where
  pub id : Text
  pub email : Text
  pub username : Text
  pub first_name : Option Text
  pub last_name : Option Text
  pub verification_code : Text
  pub is_email_verified : Bool
  pub keycloak_user_id : Option Text
  pub supabase_user_id : Option Text
  pub client_id : Option Text
  pub client_secret : Option Text
  pub is_fido_verified : Bool
  pub password : Option Text

-- A row of `token`; times are in milliseconds.
pub record ResetToken : Type 0 where
  pub id : Text
  pub token : Text
  pub user_id : Text
  pub expires_at : ℕ

-- What is asked of the outside for its effect.
pub data Outside : Type 0 where
  mail_code : (to code : Text) → Outside
  mail_reset : (to token : Text) → Outside
  create_account : (email : Text) (password : Option Text) → Outside
  set_password : (email : Text) (password : Option Text) → Outside
  give_realm_role : (keycloak_user_id : Text) → ClientRole → Outside

-- `step` counts the operations made, so that an answer from outside may depend on all before it.
pub record Store : Type 0 where
  pub users : List UserRow
  pub tokens : List ResetToken
  pub user_roles : List (Text × Text)
  pub org_roles : List (Text × Text)
  pub outside : List Outside
  pub step : ℕ

abbrev pub Act : Type 0 → Type 0
Act A = Stateful Store A

-- Every answer may differ at each step, and every operation of the database may fail.
pub record Services : Type 0 where
  pub database : ℕ → Option Fault
  pub new_uuid : ℕ → Text
  pub now : ℕ → ℕ
  pub is_production : Bool
  pub disallowed_domains : List Text
  pub to_lower_case : Text → Text
  pub is_email : Text → Bool
  pub crypto : Crypto
  pub management_token : ℕ → (client_id client_secret : Option Text) → Outcome Text
  pub redirect_uris :
      ℕ → (client_id : Option Text) (token : Text) → Outcome (List (Option (List Text)))
  pub email_from : ℕ → Outcome (List Text)
  pub mail_sent : ℕ → Bool
  pub created_account : ℕ → Outcome Text
  pub is_conflict : Fault → Bool
  pub accounts_by_email : ℕ → Text → Outcome (Option (List Text))
  pub password_set : ℕ → Outcome (Unit {0})
  pub realm_roles : ℕ → Text → Outcome (List ClientRole)
  pub realm_role_given : ℕ → Outcome (Unit {0})
  pub holder_user_role : ℕ → Outcome Text
  pub holder_org_role : ℕ → Outcome (Option OrgRole)
  pub user_token :
      ℕ
      → (email : Text) (password : Option Text) (client_id client_secret : Option Text)
      → Outcome Text
  pub supabase_session : ℕ → (email : Text) (password : Option Text) → Outcome (Option Text)

abbrev pub tick : Store → Store
tick s = record s { step = suc s.step }

-- An operation of the database, which may fail before it does anything.
unfoldable pub query : {A : Type 0} → Services → (Store → Outcome A × Store) → Act A
query w f s = elim (w.database s.step) [ some x ↦ (err x, tick s) | none ↦ f (tick s) ]

-- A question to the outside, and a call made for its effect.
unfoldable pub ask : {A : Type 0} → (ℕ → Outcome A) → Act A
ask answer s = (answer s.step, tick s)

unfoldable pub call : {A : Type 0} → Outside → (ℕ → Outcome A) → Act A
call c answer s = (answer s.step, record (tick s) { outside = c ∷ s.outside })
