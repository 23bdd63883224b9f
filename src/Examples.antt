-- ===== src/Examples.antt =====
-- The theorems on the gateway's guards, on issuing from a file, on the attributes of credentials,
-- on DIDs, names and numbers, at concrete inputs.
use mathlib.Core.List.{Memᴰ}
use confirmd_platform.Access.{check_org}
use confirmd_platform.Common.{same}
use confirmd_platform.Organization.Invite.{trim}
use confirmd_platform.Common.{
  ℕ, ◌≡◌, refl, ◌↔◌, ◌⊎◌, true, none, some, List, [], ◌∷◌, ◌++◌, Text, codes, arith, All, pos,
}
use confirmd_platform.Outcome.{Fault, ok, err}
use confirmd_platform.Effect.{Action}
use confirmd_platform.Naming.{create_org_slug, mask_string}
use confirmd_platform.Cast.{ToNumberOptions, no_options, to_number}
use confirmd_platform.Cast.Clamp.{IsWithin, to_number-IsWithin}
use confirmd_platform.Did.{indy, DidCreate, validate_did}
use confirmd_platform.Did.Checks.{IsComplete, validate_did_iff}
use confirmd_platform.Access.{Requester, GuardedRequest, Access, can_activate}
use confirmd_platform.Access.Allowed.{IsAllowed, can_activate_iff}
use confirmd_platform.Attributes.{JsValue, SchemaAttribute, validate_w3c_schema_attributes}
use confirmd_platform.Attributes.Fit.{IsFit, IsKnown, validate_w3c_schema_attributes_iff}
use confirmd_platform.Schemas.{SchemaFields, validate_schema_payload}
use confirmd_platform.Schemas.Accepted.{IsPayload, validate_schema_payload_iff}
use confirmd_platform.Issuance.{
  FileRow, Attribute, store_bulk_payload_in_batch, validate_file_headers, validate_file_data,
}
use confirmd_platform.Issuance.Stored.{sent_onto, store_bulk_payload_in_batch-sent_onto}
use confirmd_platform.Issuance.Headers.{validate_file_headers-covers}
use confirmd_platform.Paging.{paginator}
use confirmd_platform.Paging.Pages.{pages_to, paginator-covers}
use confirmd_platform.Issuance.Filled.{IsFilled, validate_file_data_iff}

-- Tests of the definitions.
abbrev three_items : List ℕ
three_items = 1 ∷ 2 ∷ 3 ∷ []

page_test :
    ((paginator three_items 2 2).data_of_page ≡ 3 ∷ [])
    × (((paginator three_items 2 2).previous_page ≡ some 1)
        × ((paginator three_items 2 2).next_page ≡ none))
unfolding paginator
page_test = (refl, (refl, refl))

slug_test : create_org_slug (codes "My  Org & Co.") ≡ codes "my-org-co"
unfolding create_org_slug
slug_test = refl

mask_test : mask_string (codes "0123456789") ≡ ok (codes "**23456789")
unfolding mask_string
mask_test = refl

number_test : to_number (codes " 12x") no_options ≡ some (pos 12)
unfolding to_number
number_test = refl

repeated_header_test :
    validate_file_headers
      (codes "email_identifier" ∷ codes "a" ∷ codes "a" ∷ [])
      (codes "a" ∷ codes "b" ∷ [])
    ≡ ok tt
unfolding validate_file_headers
repeated_header_test = refl

paginator-covers_example :
    pages_to three_items 2 (paginator three_items 1 2).last_page ≡ three_items
paginator-covers_example = paginator-covers three_items 1 2

abbrev row : FileRow
row = record { credential_data = codes "{}"; file_upload_id = codes "f"; user_id = codes "u" }

store_bulk_payload_in_batch-sent_onto_example :
    (run : Action FileRow (Unit {0})) × ((store_bulk_payload_in_batch (λ h r. ok tt) (row ∷ [])
        ≡ some run)
      × ((((run []).0 ≡ ok tt) × ((run []).1 ≡ sent_onto (row ∷ []) []))
          ⊎ ((f : Fault) × ((sent rest : List FileRow) × (((run []).0 ≡ err f)
                  × ((row ∷ [] ≡ sent ++ rest) × ((run []).1 ≡ sent_onto sent [])))))))
store_bulk_payload_in_batch-sent_onto_example =
    store_bulk_payload_in_batch-sent_onto (λ h r. ok tt) (row ∷ []) []

validate_file_headers-covers_example : Memᴰ (codes "b") (codes "b" ∷ codes "a" ∷ [])
unfolding validate_file_headers
validate_file_headers-covers_example =
    validate_file_headers-covers (codes "email_identifier") (codes "b" ∷ codes "a" ∷ [])
      (codes "a" ∷ codes "b" ∷ []) refl (refl, (refl, tt)) (codes "b") (Memᴰ.tail (Memᴰ.head refl))

abbrev required_a : List Attribute
required_a = record { attribute_name = codes "a"; is_required = true } ∷ []

abbrev file_header : List Text
file_header = codes "email_identifier" ∷ codes "a" ∷ []

validate_file_data_iff_example :
    (validate_file_data ((codes "x@y" ∷ [] ∷ []) ∷ []) required_a file_header ≡ ok tt)
    ↔ All (IsFilled required_a file_header) ((codes "x@y" ∷ [] ∷ []) ∷ [])
validate_file_data_iff_example =
    validate_file_data_iff ((codes "x@y" ∷ [] ∷ []) ∷ []) required_a file_header

abbrev name_attribute : SchemaAttribute
name_attribute = record {
  attribute_name = codes "name";
  schema_data_type = codes "string";
  is_required = true;
}

abbrev given : List (Text × JsValue)
given = (codes "name", JsValue.string (codes "Ann")) ∷ []

validate_w3c_schema_attributes_iff_example :
    (validate_w3c_schema_attributes given (name_attribute ∷ []) ≡ none)
    ↔ (All (IsFit given) (name_attribute ∷ []) × All (IsKnown (name_attribute ∷ [])) given)
validate_w3c_schema_attributes_iff_example =
    validate_w3c_schema_attributes_iff given (name_attribute ∷ [])

abbrev indy_did : DidCreate
indy_did = record {
  method = indy;
  key_type = codes "ed25519";
  domain = none;
  network = some (codes "bcovrin:testnet");
  role = some (codes "endorser");
  endorser_did = none;
  private_key = none;
  seed = some (codes "seed");
}

validate_did_iff_example : (validate_did indy_did ≡ none) ↔ IsComplete indy indy_did
validate_did_iff_example = validate_did_iff indy_did

abbrev admin : Requester
admin = record {
  client_id = none;
  user_role = none;
  resource_access = none;
  user_org_roles = record { org_id = some (codes "o1"); role = codes "admin" } ∷ [];
}

abbrev admin_request : GuardedRequest
admin_request = record {
  user = admin;
  params_org_id = some (codes " o1 ");
  query_org_id = none;
  body_org_id = none;
}

can_activate_iff_example :
    ((a : Access) × ((can_activate
            (λ i. true)
            (some (codes "owner" ∷ codes "admin" ∷ []))
            admin_request
          ≡ ok a)
        × (a.allowed ≡ true)))
    ↔ IsAllowed (λ i. true) (codes "owner" ∷ codes "admin" ∷ []) admin_request
can_activate_iff_example =
    can_activate_iff (λ i. true) (codes "owner" ∷ codes "admin" ∷ []) admin_request

can_activate_test :
    (a : Access) × ((can_activate
          (λ i. true)
          (some (codes "owner" ∷ codes "admin" ∷ []))
          admin_request
        ≡ ok a)
      × (a.allowed ≡ true))
unfolding can_activate trim check_org same
can_activate_test = (_, (refl, refl))

abbrev page_options : ToNumberOptions
page_options = record {
  default_value = some (pos 10);
  min_value = some (pos 1);
  max_value = some (pos 100);
}

to_number-IsWithin_example : IsWithin (pos 1) (pos 100) (to_number (codes "500") page_options)
to_number-IsWithin_example =
    to_number-IsWithin (codes "500") (pos 10) (pos 1) (pos 100) (ground arith) (ground arith)

abbrev indy_schema : SchemaFields
indy_schema = record {
  name = JsValue.string (codes "Degree");
  version = JsValue.string (codes "1.0");
  attributes = some (
      some (record {
        display_name = JsValue.string (codes "Name");
        attribute_name = JsValue.string (codes "name");
        schema_data_type = JsValue.string (codes "string");
      })
      ∷ []);
  schema_name = JsValue.undefined_value;
  did = JsValue.undefined_value;
  description = JsValue.undefined_value;
  schema_attributes = none;
}

validate_schema_payload_iff_example :
    (validate_schema_payload indy_schema (codes "indy") ≡ none)
    ↔ IsPayload (codes "indy") indy_schema
validate_schema_payload_iff_example = validate_schema_payload_iff indy_schema (codes "indy")
