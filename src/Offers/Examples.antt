-- ===== src/Offers/Examples.antt =====
-- Offers out of band at a concrete outside world.
use confirmd_platform.Common.{
  ◌≡◌, ◌⊎◌, refl, true, false, none, some, List, [], ◌∷◌, ◌++◌, Text, codes, same,
}
use confirmd_platform.Outcome.{ok}
use confirmd_platform.Offers.{
  IssueCredentialType, CredentialOffer, OutOfBandCredential, OfferState, OfferServices,
}
use confirmd_platform.Offers.Url.{IssuanceMethod, OrgAgentType, replace_mark, get_agent_url}
use confirmd_platform.Offers.Send.{
  lacks_required, try_offer, send_email_for_credential_offer, send_all, check_offer, offer_url,
  out_of_band_credential_offer,
}
use confirmd_platform.Offers.Returned.{Delivers, out_of_band_credential_offer-Delivers}
use confirmd_platform.Offers.Checked.{IsProvided, out_of_band_credential_offer-IsProvided}
use confirmd_platform.Offers.Placed.{tenant_path, get_agent_url_tenant}

abbrev offer : CredentialOffer
offer = record {
  email_id = some (codes "a@b");
  attributes = record { name = codes "name"; value = some (codes "Ann") } ∷ [];
  credential = record { schema_url = none; subject = none };
}

abbrev offered : List CredentialOffer
offered = offer ∷ offer ∷ []

abbrev given : OutOfBandCredential
given = record {
  credential_offer = some offered;
  credential_definition_id = codes "c1";
  org_id = codes "o1";
  protocol_version = none;
  attributes = none;
  email_id = none;
  credential_type = IssueCredentialType.indy;
  is_reuse_connection = false;
  is_validate_schema = true;
}

abbrev services : OfferServices
services = record {
  agent = λ s id. ok (record {
    ledger_id = none;
    org_agent_type_id = codes "t1";
    agent_end_point = codes "http://a";
    tenant_id = codes "t";
  });
  dates_valid = λ os. ok tt;
  schema_ledgers = λ s ids. ok [];
  required_attributes =
      λ s id. ok (record { attribute_name = codes "name"; is_required = true } ∷ []);
  agent_type = λ s id. ok (codes "SHARED");
  organization_there = λ s id. ok true;
  invitation_did = λ s id. ok none;
  w3c_attributes = λ s url. ok [];
  agent_answer = λ s p. ok (some (some (codes "http://i")));
  short_url = λ s url. ok (codes "s");
  deep_link_domain = some (codes "http://d/");
  qr_code = λ url. ok tt;
  platform_config = λ s. ok true;
  mail_sent = λ s. ok true;
  has_wallet_message = λ f. false;
  has_response = λ f. true;
}

abbrev nothing_done : OfferState
nothing_done = record { calls = []; errors = [] }

out_of_band_credential_offer-Delivers_example :
    (url : Text) × Delivers services given url offered [] true
      (out_of_band_credential_offer services given nothing_done).1
unfolding out_of_band_credential_offer check_offer lacks_required same offer_url replace_mark
    send_all send_email_for_credential_offer try_offer
out_of_band_credential_offer-Delivers_example =
    out_of_band_credential_offer-Delivers services given offered refl nothing_done true refl

out_of_band_credential_offer-IsProvided_example :
    ((out_of_band_credential_offer services given nothing_done).1.calls ≡ [])
    ⊎ IsProvided services given nothing_done
out_of_band_credential_offer-IsProvided_example =
    out_of_band_credential_offer-IsProvided services given nothing_done refl

get_agent_url_tenant_example :
    get_agent_url IssuanceMethod.create_offer_oob OrgAgentType.shared
      (codes "http://a")
      (codes "t")
      (codes "r")
    ≡ ok (codes "http://a" ++ tenant_path IssuanceMethod.create_offer_oob (codes "t") (codes "r"))
get_agent_url_tenant_example =
    get_agent_url_tenant IssuanceMethod.create_offer_oob b'h' (codes "ttp://a") (codes "t")
      (codes "r") refl refl refl refl refl

-- A `$` in the replacement is read as JavaScript reads it.
dollar_test : replace_mark b'#' (codes "a$$b$&c$d$") (codes "x#y") ≡ codes "xa$b#c$d$y"
unfolding replace_mark
dollar_test = refl

-- No mail is sent.
abbrev no_mail : OfferServices
no_mail = record services { mail_sent = λ s. ok false }

abbrev single : OutOfBandCredential
single = record given { credential_offer = none; attributes = some [] }

-- A single offer without attributes is not checked against the schema, and when its mail is not
-- sent, the method returns `false` in place of an error.
single_test : (out_of_band_credential_offer no_mail single nothing_done).0 ≡ ok false
unfolding out_of_band_credential_offer check_offer offer_url replace_mark
    send_email_for_credential_offer try_offer
single_test = refl
