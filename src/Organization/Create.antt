-- ===== src/Organization/Create.antt =====
-- Creating an organisation: `createOrganization`, `isValidBase64` and `uploadFileToS3` of
-- apps/organization/src/organization.service.ts.
pub mod Checked
use confirmd_platform.Common.{
  ℕ, Bool, true, false, not, ◌&&◌, ◌||◌, Option, none, some, List, [], ◌∷◌, Text, codes, is_some,
  all, leb, ◌==◌, if◌then◌else◌,
}
use confirmd_platform.Naming.{create_org_slug}
use confirmd_platform.Outcome.{
  Outcome, ok, err, bad_request, conflict, internal, maximum_orgs_limit, organisation_exists,
  unable_to_create_client,
}
use confirmd_platform.Effect.{◌>>=◌, ◌>>◌, pure, read, perform, catch_with, rethrow_rpc, throw_if}
use confirmd_platform.Organization.Model.Rows.{Organisation, OrgCredentials, is_set}
use confirmd_platform.Organization.Model.World.{World, Act, Call, NewOrganisation, OrgUpdate, issue}
use confirmd_platform.Organization.Respond.{is_over_limit}
use confirmd_platform.Organization.Register.{register_to_keycloak, store_credentials}

pub record CreateOrganization : Type 0 where
  pub name : Text
  pub logo : Text
  pub notification_webhook : Option Text

-- The rest of a text after a prefix.
unfoldable pub strip_prefix : Text → Text → Option Text
strip_prefix [] s = some s
strip_prefix (c ∷ p) [] = none
strip_prefix (c ∷ p) (d ∷ s) = if c == d then strip_prefix p s else none

abbrev is_letter : ℕ → Bool
is_letter c = (leb b'a' c && leb c b'z') || (leb b'A' c && leb c b'Z')

unfoldable pub skip_letters : Text → Text
skip_letters [] = []
skip_letters (c ∷ s) = if is_letter c then skip_letters s else c ∷ s

-- `/^data:image\/([a-zA-Z]*);base64,([^\"]*)$/`; a match has the two groups, so three parts.
unfoldable pub is_valid_base64 : Text → Bool
unfolding strip_prefix skip_letters
is_valid_base64 value = elim (strip_prefix (codes "data:image/") value) [
  | none ↦ false
  | some rest ↦ elim (strip_prefix (codes ";base64,") (skip_letters rest)) [
    | none ↦ false
    | some encoded ↦ all (λ c. not (c == b'"')) encoded
  ]
]

module _ (w : World) where
  -- The local store or S3, as the environment says, answers with the address of the logo.
  unfoldable pub logo_url : Text → Act Text
  unfolding is_valid_base64
  logo_url logo =
      if is_valid_base64 logo
      then rethrow_rpc (perform (Call.upload_logo logo) (λ h. w.uploaded_logo h logo))
      else pure []

  abbrev credentials_update : OrgCredentials → OrgUpdate
  credentials_update c = record {
    client_id = some (some c.client_id);
    client_secret = none;
    idp_id = some (some c.idp_id);
  }

  -- The inner `try`: whatever goes wrong is reported as a client that could not be created.
  unfoldable pub attach_client : Organisation → (user_id keycloak_user_id : Text) → Act Organisation
  attach_client org user_id keycloak_user_id =
      catch_with (λ _. internal unable_to_create_client)
        (do
          c ← register_to_keycloak w org.name org.id keycloak_user_id user_id false
          store_credentials w (credentials_update c) org.id)

  abbrev store_webhook_if : Option Text → Text → Act (Unit {0})
  store_webhook_if none org_id = pure tt
  store_webhook_if (some url) org_id =
      if is_set (some url) then issue w (Call.store_webhook org_id url) else pure tt

  -- From the row on: the client, the address for notifications, the record of the activity.
  unfoldable pub set_up :
      Organisation → Option Text → (user_id keycloak_user_id : Text) → Act Organisation
  set_up org webhook user_id keycloak_user_id = do
    updated ← attach_client org user_id keycloak_user_id
    store_webhook_if webhook org.id
    issue w (Call.create_activity user_id org.id)
    pure org

  abbrev pub new_organisation : CreateOrganization → (user_id logo : Text) → NewOrganisation
  new_organisation dto user_id logo = record {
    name = dto.name;
    org_slug = create_org_slug dto.name;
    logo = logo;
    created_by = user_id;
    last_changed_by = user_id;
  }

  unfoldable pub insert_organisation : CreateOrganization → (user_id logo : Text) → Act Organisation
  insert_organisation dto user_id logo =
      perform (Call.create_organisation (new_organisation dto user_id logo))
        (λ h. w.created_organisation h (new_organisation dto user_id logo))

  -- The three checks, before anything is written.
  unfoldable pub check_new : CreateOrganization → Text → Act (Unit {0})
  check_new dto user_id = do
    count ← read (λ h. w.organisation_count h user_id)
    throw_if (is_over_limit w.max_org_limit count) (bad_request maximum_orgs_limit)
    named ← read (λ h. w.organisation_by_name h dto.name)
    throw_if (is_some named) (conflict organisation_exists)
    slugged ← read (λ h. w.organisation_by_slug h (create_org_slug dto.name))
    throw_if (is_some slugged) (conflict organisation_exists)

  unfoldable pub create_organization :
      CreateOrganization → (user_id keycloak_user_id : Text) → Act Organisation
  create_organization dto user_id keycloak_user_id = rethrow_rpc (do
    check_new dto user_id
    logo ← logo_url dto.logo
    org ← insert_organisation dto user_id logo
    set_up org dto.notification_webhook user_id keycloak_user_id)
