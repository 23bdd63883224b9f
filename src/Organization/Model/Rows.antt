-- ===== src/Organization/Model/Rows.antt =====
-- Rows of libs/prisma-service/prisma/schema.prisma, with the columns that the code looks at, and
-- the enumerations of libs/enum/src/enum.ts. A nullable column is an `Option`.
use confirmd_platform.Common.{
  Bool, true, false, ◌&&◌, ◌||◌, ◌==◌, Option, none, some, List, [], ◌∷◌, Text, codes, same,
}

pub data Invitation : Type 0 where
  accepted rejected pending : Invitation

pub record Organisation : Type 0 where
  pub id : Text
  pub name : Text
  pub org_slug : Text
  pub client_id : Option Text
  pub idp_id : Option Text

pub record User : Type 0 where
  pub id : Text
  pub email : Text
  pub first_name : Text
  pub client_id : Option Text
  pub client_secret : Option Text
  pub keycloak_user_id : Text
  pub is_email_verified : Bool

-- A row of `org_roles`, and a role of a Keycloak client.
pub record OrgRole : Type 0 where
  pub id : Text
  pub name : Text

pub record ClientRole : Type 0 where
  pub id : Text
  pub name : Text

pub record OrgInvitation : Type 0 where
  pub id : Text
  pub email : Text
  pub org_id : Text
  pub status : Invitation
  pub org_roles : List Text

pub record UserOrgRole : Type 0 where
  pub user_id : Text
  pub role_id : Text
  pub org_id : Option Text
  pub idp_role_id : Option Text

pub record OrgDid : Type 0 where
  pub id : Text
  pub did : Text
  pub is_primary_did : Bool
  pub did_document : Text

-- What `createClient` of libs/client-registration returns.
pub record OrgCredentials : Type 0 where
  pub client_id : Text
  pub idp_id : Text
  pub client_secret : Text

-- A nullable text in a condition: `null` and the empty text are false.
abbrev pub is_set : Option Text → Bool
is_set none = false
is_set (some []) = false
is_set (some (_ ∷ _)) = true

-- `text.includes(part)`
unfoldable pub starts_with : Text → Text → Bool
starts_with [] s = true
starts_with (c ∷ part) [] = false
starts_with (c ∷ part) (d ∷ s) = c == d && starts_with part s

unfoldable pub includes : Text → Text → Bool
unfolding starts_with
includes part [] = starts_with part []
includes part (c ∷ s) = starts_with part (c ∷ s) || includes part s

-- The test that the service repeats before it asks for a management token.
unfoldable pub is_platform_admin : User → Bool
unfolding includes same
is_platform_admin u =
    elim u.client_id [ none ↦ false | some c ↦ same (codes "platform-admin") c ]
    || includes (codes "platform") u.email
