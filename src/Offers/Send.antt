-- ===== src/Offers/Send.antt =====
-- Sending one offer: `sendEmailForCredentialOffer`; and the whole of `outOfBandCredentialOffer`.
use confirmd_platform.Common.{
  Bool, true, false, not, ◌&&◌, ◌||◌, Option, none, some, List, [], ◌∷◌, ◌++◌, any, all, map, Text,
  codes, same, if◌then◌else◌,
}
use confirmd_platform.Outcome.{
  Fault, Outcome, ok, bad_request, not_found, internal, plain_error, type_error, rpc,
  credential_offer_not_found, offer_invitation_not_found, platform_config_not_found,
  offer_email_send, ledger_mismatched, offer_attribute_required, offer_organization_not_found,
  deep_link_domain_not_found, unable_to_create_oob_offer, w3c_schema_rejected,
}
use confirmd_platform.Effect.{
  ◌>>=◌, ◌>>◌, pure, throw, lift, read, catch, catch_with, throw_if, non_null,
}
use confirmd_platform.Attributes.{JsValue, SchemaAttribute, validate_w3c_schema_attributes}
use confirmd_platform.Organization.Model.Rows.{is_set}
use confirmd_platform.Offers.{
  jsonld, indy, other_type, OfferAttribute, CredentialOffer, OutOfBandCredential, RequiredAttribute,
  OfferAgent, AgentPayload, indy_payload, jsonld_payload, no_agent_payload, OfferCall, call_agent,
  store_object, mail_offer, OfferState, OfferAct, OfferServices,
}
use confirmd_platform.Offers.Url.{
  OrgAgentType, dedicated, shared, other_agent, create_offer_oob, get_agent_url,
}

-- A call made for its effect; it is kept whether it succeeds or not.
abbrev pub call : {A : Type 0} → OfferCall → (OfferState → Outcome A) → OfferAct A
call c answer s = (answer s, record s { calls = c ∷ s.calls })

-- `errors.push(…)`
abbrev pub push_error : Fault → OfferAct (Unit {0})
push_error e s = (ok tt, record s { errors = e ∷ s.errors })

-- An error is pushed and the result is `false`.
abbrev pub give_up : Fault → OfferAct Bool
give_up e = push_error e >> pure false

-- `protocolVersion || 'v1'`
abbrev pub version_or_v1 : Option Text → Text
version_or_v1 none = codes "v1"
version_or_v1 (some []) = codes "v1"
version_or_v1 (some (c ∷ v)) = c ∷ v

-- `attributes ? attributes : iterator.attributes.map(…)`
abbrev pub indy_attributes :
    Option (List OfferAttribute) → Option CredentialOffer → OfferAct (List OfferAttribute)
indy_attributes (some attributes) iterator = pure attributes
indy_attributes none none = throw type_error
indy_attributes none (some o) = pure o.attributes

-- `iterator?.emailId ?? emailId`; with an entry of the list, both are the address of the entry.
abbrev pub mail_address : Option CredentialOffer → Option Text → Option Text
mail_address none email_id = email_id
mail_address (some o) email_id = o.email_id

abbrev checked_schema : Bool → List (Text × JsValue) → List SchemaAttribute → OfferAct (Unit {0})
checked_schema false attributes schema = pure tt
checked_schema true attributes schema = elim (validate_w3c_schema_attributes attributes schema) [
  | none ↦ pure tt
  | some r ↦ throw (plain_error w3c_schema_rejected)
]

abbrev pub mail_result : Bool → OfferAct Bool
mail_result true = pure true
mail_result false = give_up (internal offer_email_send)

module _ (w : OfferServices) where
  unfoldable pub agent_payload :
      OutOfBandCredential
      → Option CredentialOffer
      → (invitation_did : Option Text) → OfferAct AgentPayload
  agent_payload c iterator invitation_did = elim c.credential_type [
    | indy ↦ indy_attributes c.attributes iterator >>= λ attributes. pure (
        indy_payload (version_or_v1 c.protocol_version) attributes c.credential_definition_id
          invitation_did)
    | jsonld ↦ (do
      o ← non_null iterator
      subject ← non_null o.credential.subject
      schema ← read (λ s. w.w3c_attributes s o.credential.schema_url)
      checked_schema c.is_validate_schema subject schema
      pure (jsonld_payload o.credential invitation_did))
    | other_type ↦ pure no_agent_payload
  ]

  abbrev pub reused_did : Bool → (org_id : Text) → OfferAct (Option Text)
  reused_did false org_id = pure none
  reused_did true org_id = read (λ s. w.invitation_did s org_id)

  -- `convertUrlToDeepLinkUrl`
  unfoldable pub convert_url_to_deep_link_url : Text → OfferAct Text
  convert_url_to_deep_link_url url = elim w.deep_link_domain [
    | none ↦ throw (not_found deep_link_domain_not_found)
    | some domain ↦
        if is_set (some domain)
        then pure (domain ++ url)
        else throw (not_found deep_link_domain_not_found)
  ]

  abbrev pub mail_if : Bool → (to : Option Text) → (deep_link : Text) → OfferAct Bool
  mail_if false to deep_link = give_up (not_found platform_config_not_found)
  mail_if true to deep_link = call (mail_offer to deep_link) (λ s. w.mail_sent s) >>= mail_result

  -- From the invitation on: the mail with its link.
  abbrev pub mail_invitation :
      Bool → (to : Option Text) → (short_url deep_link : Text) → OfferAct Bool
  mail_invitation false to short_url deep_link = give_up (not_found offer_invitation_not_found)
  mail_invitation true to short_url deep_link = do
    lift (w.qr_code short_url)
    config ← read (λ s. w.platform_config s)
    mail_if config to deep_link

  abbrev pub mail_answer : Option (Option Text) → (to : Option Text) → OfferAct Bool
  mail_answer none to = give_up (not_found credential_offer_not_found)
  mail_answer (some invitation_url) to = do
    short_url ← call (store_object invitation_url) (λ s. w.short_url s invitation_url)
    deep_link ← convert_url_to_deep_link_url short_url
    mail_invitation (is_set invitation_url) to short_url deep_link

  unfoldable pub try_offer :
      OutOfBandCredential → (url : Text) → Option CredentialOffer → OfferAct Bool
  unfolding agent_payload convert_url_to_deep_link_url
  try_offer c url iterator = do
    did ← reused_did c.is_reuse_connection c.org_id
    payload ← agent_payload c iterator did
    answer ← call (call_agent payload url c.org_id) (λ s. w.agent_answer s payload)
    mail_answer answer (mail_address iterator c.email_id)

  -- The handler pushes the error and throws it again; it reads a property of `error.response`, and
  -- an error without one ends in a `TypeError`.
  abbrev pub rethrow_offer : Fault → OfferAct Bool
  rethrow_offer e =
      push_error (rpc e)
      >> throw (if w.has_wallet_message e || w.has_response e then e else type_error)

  unfoldable pub send_email_for_credential_offer :
      OutOfBandCredential → (url : Text) → Option CredentialOffer → OfferAct Bool
  send_email_for_credential_offer c url iterator = catch rethrow_offer (try_offer c url iterator)

  -- The loop over `credentialOffer`; the waiting before each offer is left out.
  unfoldable pub send_all :
      OutOfBandCredential → (url : Text) → List CredentialOffer → OfferAct (List Bool)
  send_all c url [] = pure []
  send_all c url (o ∷ os) = do
    sent ← send_email_for_credential_offer c url (some o)
    rest ← send_all c url os
    pure (sent ∷ rest)

-- `attributes.find((attribute) => attribute.name === name)?.value`, as a condition.
unfoldable pub has_value : Text → List OfferAttribute → Bool
has_value name [] = false
has_value name (a ∷ attributes) =
    if same a.name name then is_set a.value else has_value name attributes

-- Whether a required attribute of the schema has no value.
unfoldable pub lacks_required : List RequiredAttribute → List OfferAttribute → Bool
unfolding has_value
lacks_required schema attributes =
    any (λ r. r.is_required && not (has_value r.attribute_name attributes)) schema

-- The check of `attributes` is left out for a list without elements.
abbrev pub attributes_lack : List RequiredAttribute → Option (List OfferAttribute) → Bool
attributes_lack schema none = false
attributes_lack schema (some []) = false
attributes_lack schema (some (a ∷ attributes)) = lacks_required schema (a ∷ attributes)

abbrev pub offers_lack : List RequiredAttribute → Option (List CredentialOffer) → Bool
offers_lack schema none = false
offers_lack schema (some os) = any (λ (o : CredentialOffer). lacks_required schema o.attributes) os

unfoldable pub same_ledger : Option Text → Option Text → Bool
same_ledger none none = true
same_ledger none (some t) = false
same_ledger (some s) none = false
same_ledger (some s) (some t) = same s t

abbrev pub offers_or_none : Option (List CredentialOffer) → List CredentialOffer
offers_or_none none = []
offers_or_none (some os) = os

-- `OrgAgentType`, by its name in the table.
abbrev agent_type_of : Text → OrgAgentType
agent_type_of t =
    if same t (codes "DEDICATED")
    then dedicated
    else if same t (codes "SHARED")
    then shared
    else other_agent

-- `const errors = []`
abbrev pub no_errors_yet : OfferAct (Unit {0})
no_errors_yet s = (ok tt, record s { errors = [] })

-- `throw errors`: the list that was pushed to ends in one exception with this message.
abbrev pub throw_errors : List Fault → OfferAct (Unit {0})
throw_errors [] = pure tt
throw_errors (e ∷ es) = throw (plain_error unable_to_create_oob_offer)

abbrev pub organization_or_error : Bool → OfferAct (Unit {0})
organization_or_error there = throw_if (not there) (not_found offer_organization_not_found)

module _ (w : OfferServices) where
  -- The credentials of W3C schemas are of the ledger of the agent.
  unfoldable pub check_w3c : OutOfBandCredential → OfferAgent → OfferAct (Unit {0})
  unfolding same_ledger
  check_w3c c agent = do
    lift (w.dates_valid (offers_or_none c.credential_offer))
    ledgers ← read (λ s. w.schema_ledgers s (
        map (λ (o : CredentialOffer). o.credential.schema_url) (offers_or_none c.credential_offer)))
    throw_if (not (all (λ l. same_ledger agent.ledger_id l) ledgers))
        (bad_request ledger_mismatched)

  unfoldable pub check_indy : OutOfBandCredential → OfferAct (Unit {0})
  check_indy c = do
    schema ← read (λ s. w.required_attributes s c.credential_definition_id)
    throw_if (attributes_lack schema c.attributes) (bad_request offer_attribute_required)
    throw_if (offers_lack schema c.credential_offer) (bad_request offer_attribute_required)

  unfoldable pub check_offer : OutOfBandCredential → OfferAgent → OfferAct (Unit {0})
  unfolding check_w3c check_indy
  check_offer c agent = elim c.credential_type [
    | jsonld ↦ check_w3c c agent
    | indy ↦ check_indy c
    | other_type ↦ pure tt
  ]

  unfoldable pub offer_url : OfferAgent → OfferAct Text
  unfolding get_agent_url same
  offer_url agent = do
    agent_type ← read (λ s. w.agent_type s agent.org_agent_type_id)
    lift (
        get_agent_url create_offer_oob (agent_type_of agent_type) agent.agent_end_point
          agent.tenant_id [])

  abbrev pub send_offers :
      OutOfBandCredential → (url : Text) → Option (List CredentialOffer) → OfferAct Bool
  send_offers c url none = send_email_for_credential_offer w c url none
  send_offers c url (some os) = do
    results ← send_all w c url os
    errors ← read (λ s. ok s.errors)
    throw_errors errors
    pure (all (λ r. r) results)

  unfoldable pub out_of_band_credential_offer : OutOfBandCredential → OfferAct Bool
  out_of_band_credential_offer c = catch_with rpc (do
    agent ← read (λ s. w.agent s c.org_id)
    check_offer c agent
    url ← offer_url agent
    there ← read (λ s. w.organization_there s c.org_id)
    organization_or_error there
    no_errors_yet
    send_offers c url c.credential_offer)
