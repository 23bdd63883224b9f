-- ===== src/Offers.antt =====
-- Offers out of band: `outOfBandCredentialOffer` and `sendEmailForCredentialOffer` of
-- apps/issuance/src/issuance.service.ts.
pub mod Url
pub mod Send
pub mod Delivered
pub mod Returned
pub mod Checked
pub mod Placed
mod Examples
use confirmd_platform.Common.{Bool, true, false, Option, none, some, List, [], ◌∷◌, Text}
use confirmd_platform.Outcome.{Fault, Outcome}
use confirmd_platform.Effect.{Stateful}
use confirmd_platform.Attributes.{JsValue, SchemaAttribute}

pub data IssueCredentialType : Type 0 where
  jsonld indy other_type : IssueCredentialType

-- `{ name, value }` of an Indy credential; a missing value is `none`.
pub record OfferAttribute : Type 0 where
  pub name : Text
  pub value : Option Text

-- The parts of a W3C credential that are looked at: the second entry of `@context`, the subject
-- without its `id`, or `none` where there is no subject.
pub record W3cCredential : Type 0 where
  pub schema_url : Option Text
  pub subject : Option (List (Text × JsValue))

-- An entry of `credentialOffer`.
pub record CredentialOffer : Type 0 where
  pub email_id : Option Text
  pub attributes : List OfferAttribute
  pub credential : W3cCredential

-- `OutOfBandCredentialOfferPayload`; `attributes` and `credential_offer` may be absent.
pub record OutOfBandCredential : Type 0 where
  pub credential_offer : Option (List CredentialOffer)
  pub credential_definition_id : Text
  pub org_id : Text
  pub protocol_version : Option Text
  pub attributes : Option (List OfferAttribute)
  pub email_id : Option Text
  pub credential_type : IssueCredentialType
  pub is_reuse_connection : Bool
  pub is_validate_schema : Bool

-- An attribute of the schema of a credential definition.
pub record RequiredAttribute : Type 0 where
  pub attribute_name : Text
  pub is_required : Bool

pub record OfferAgent : Type 0 where
  pub ledger_id : Option Text
  pub org_agent_type_id : Text
  pub agent_end_point : Text
  pub tenant_id : Text

-- What is sent to the agent.
pub data AgentPayload : Type 0 where
  indy_payload :
      (protocol_version : Text)
      → (attributes : List OfferAttribute) → (credential_definition_id : Text)
      → (invitation_did : Option Text) → AgentPayload
  jsonld_payload : W3cCredential → (invitation_did : Option Text) → AgentPayload
  no_agent_payload : AgentPayload

-- The calls made for their effect.
pub data OfferCall : Type 0 where
  call_agent : AgentPayload → (url org_id : Text) → OfferCall
  store_object : (invitation_url : Option Text) → OfferCall
  mail_offer : (to : Option Text) → (deep_link : Text) → OfferCall

-- `errors` is the list that `sendEmailForCredentialOffer` pushes to; both have the newest first.
pub record OfferState : Type 0 where
  pub calls : List OfferCall
  pub errors : List Fault

abbrev pub OfferAct : Type 0 → Type 0
OfferAct A = Stateful OfferState A

-- The outside: tables, the agent, the store of objects, the package for QR codes, the mail service.
-- `invitation_url` of the agent's answer may be absent, and so may the answer.
pub record OfferServices : Type 0 where
  pub agent : OfferState → (org_id : Text) → Outcome OfferAgent
  pub dates_valid : List CredentialOffer → Outcome (Unit {0})
  pub schema_ledgers : OfferState → List (Option Text) → Outcome (List (Option Text))
  pub required_attributes :
      OfferState → (credential_definition_id : Text) → Outcome (List RequiredAttribute)
  pub agent_type : OfferState → (org_agent_type_id : Text) → Outcome Text
  pub organization_there : OfferState → (org_id : Text) → Outcome Bool
  pub invitation_did : OfferState → (org_id : Text) → Outcome (Option Text)
  pub w3c_attributes : OfferState → (schema_url : Option Text) → Outcome (List SchemaAttribute)
  pub agent_answer : OfferState → AgentPayload → Outcome (Option (Option Text))
  pub short_url : OfferState → (invitation_url : Option Text) → Outcome Text
  pub deep_link_domain : Option Text
  pub qr_code : Text → Outcome (Unit {0})
  pub platform_config : OfferState → Outcome Bool
  pub mail_sent : OfferState → Outcome Bool
  pub has_wallet_message : Fault → Bool
  pub has_response : Fault → Bool
