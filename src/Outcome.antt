-- ===== src/Outcome.antt =====
-- What a TypeScript call ends with: a value, or something thrown. The faults are the exception
-- classes of NestJS with the constant of libs/common/src/response-messages/index.ts that the code
-- gives them, `RpcException`, and the errors of JavaScript itself.
use confirmd_platform.Common.{ℕ, Bool, true, false, ◌≡◌, refl, ◌⊎◌, inl, inr}

-- The entries of `ResponseMessages` and the literal texts that the modelled code throws.
pub data Message : Type 0 where
  maximum_orgs_limit organisation_exists organisation_not_found org_not_found : Message
  primary_did did_not_found no_ledger_found credentials_not_update unable_to_create_client : Message
  org_role_id_not_found roles_not_exist user_not_found update_user_roles_failed : Message
  invitation_not_found invalid_org_id invitation_status_update_invalid email_send : Message
  role_not_match org_not_match holder_role not_a_holder_role no_access valid_org_id_required :
      Message
  user_org_role_not_created management_credentials_not_found : Message
  unable_to_delete_credentials : Message
  user_exists verification_already_sent user_email_send redirect_url_not_found : Message
  invalid_email_url verified_email verify_mail invalid_credentials register_fido : Message
  invalid_email_domain invalid_email add_user verification_pending email_is_not_verified : Message
  reset_same_password reset_password_link invalid_reset_link mb_user_role_not_found : Message
  keycloak_register keycloak_fetch keycloak_reset : Message
  organisation_referenced client_credentials_missing invalid_token_inputs user_not_created
        secret_not_retrieved :
      Message
  invalid_refresh_token : Message
  agent_end_point_not_found missing_request_id cached_data cached_file_data cache_time_out : Message
  agent_url_not_found credential_offer_not_found offer_invitation_not_found : Message
  platform_config_not_found offer_email_send ledger_mismatched offer_attribute_required : Message
  offer_organization_not_found deep_link_domain_not_found unable_to_create_oob_offer : Message
  w3c_schema_rejected org_data_not_found_in_keycloak : Message
  store_bulk_data file_details_missing retry_file file_details_not_found : Message
  email_column attribute_number mismatched_attributes missing_data : Message

-- `external n` is what a call outside the repository throws, told apart by a number.
pub data Fault : Type 0 where
  bad_request unauthorized forbidden not_found conflict internal : Message → Fault
  plain_error : Message → Fault
  type_error range_error : Fault
  external : ℕ → Fault
  rpc : Fault → Fault
  wrapped_internal http : Fault → Fault

pub data Outcome {ℓ} (A : Type ℓ) : Type ℓ where
  ok : A → Outcome A
  err : Fault → Outcome A

abbrev pub is_ok {ℓ} : {A : Type ℓ} → Outcome A → Bool
is_ok (ok _) = true
is_ok (err _) = false

pub Outcome-cases {ℓ} :
    {A : Type ℓ} (o : Outcome A) → ((a : A) × (o ≡ ok a)) ⊎ ((e : Fault) × (o ≡ err e))
Outcome-cases (ok a) = inl (a, refl)
Outcome-cases (err e) = inr (e, refl)
