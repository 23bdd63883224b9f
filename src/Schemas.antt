-- ===== src/Schemas.antt =====
-- Requests to create a schema: `validateSchemaPayload` of libs/common/src/cast.helper.ts.
pub mod Accepted
use confirmd_platform.Common.{
  ℕ, zero, suc, Bool, true, false, not, Option, none, some, List, [], ◌∷◌, ◌++◌, Text, codes, same,
  if◌then◌else◌,
}
use confirmd_platform.Attributes.{JsValue, type_of, is_truthy}

-- An element of `attributes` and of `schemaAttributes`.
pub record IndyAttribute : Type 0 where
  pub display_name : JsValue
  pub attribute_name : JsValue
  pub schema_data_type : JsValue

pub record W3cAttribute : Type 0 where
  pub title : JsValue
  pub type_name : JsValue

-- A payload. A list is `none` where the field is no array, an element where it is falsy.
pub record SchemaFields : Type 0 where
  pub name : JsValue
  pub version : JsValue
  pub attributes : Option (List (Option IndyAttribute))
  pub schema_name : JsValue
  pub did : JsValue
  pub description : JsValue
  pub schema_attributes : Option (List (Option W3cAttribute))

pub data Field : Type 0 where
  name version schema_name did description : Field
  display_name attribute_name schema_data_type title type_name element : Field

-- The messages: a field that is required, one that must be a string, an array that must not be
-- empty, and a field that is required at a position.
pub data PayloadError : Type 0 where
  required must_be_string : Field → PayloadError
  empty_array : PayloadError
  required_at : Field → ℕ → PayloadError

abbrev pub is_string : JsValue → Bool
is_string v = same (codes "string") (type_of v)

-- The switch over the fields of an Indy payload.
unfoldable pub indy_field_errors : SchemaFields → List PayloadError
indy_field_errors p =
    if not (is_truthy p.name)
    then required name ∷ []
    else if not (is_string p.name)
    then must_be_string name ∷ []
    else if not (is_truthy p.version)
    then required version ∷ []
    else []

unfoldable pub w3c_field_errors : SchemaFields → List PayloadError
w3c_field_errors p =
    if not (is_truthy p.schema_name)
    then required schema_name ∷ []
    else if not (is_string p.schema_name)
    then must_be_string schema_name ∷ []
    else if not (is_truthy p.did)
    then required did ∷ []
    else if not (is_string p.did)
    then must_be_string did ∷ []
    else if not (is_truthy p.description)
    then required description ∷ []
    else if not (is_string p.description)
    then must_be_string description ∷ []
    else []

-- The switch over one element, with its position from 1 on.
unfoldable pub indy_attribute_errors : ℕ → Option IndyAttribute → List PayloadError
indy_attribute_errors position none = required_at element position ∷ []
indy_attribute_errors position (some a) =
    if not (is_truthy a.display_name)
    then required_at display_name position ∷ []
    else if not (is_truthy a.attribute_name)
    then required_at attribute_name position ∷ []
    else if not (is_truthy a.schema_data_type)
    then required_at schema_data_type position ∷ []
    else []

unfoldable pub w3c_attribute_errors : ℕ → Option W3cAttribute → List PayloadError
w3c_attribute_errors position none = required_at element position ∷ []
w3c_attribute_errors position (some a) =
    if not (is_truthy a.title)
    then required_at title position ∷ []
    else if not (is_truthy a.type_name)
    then required_at type_name position ∷ []
    else []

-- `forEach((attribute, index) => …)`
unfoldable pub errors_from :
    {A : Type 0} → (ℕ → A → List PayloadError) → ℕ → List A → List PayloadError
errors_from errors position [] = []
errors_from errors position (a ∷ as_given) =
    errors position a ++ errors_from errors (suc position) as_given

-- No array, or an empty one, is one error; otherwise each element is looked at.
unfoldable pub array_errors :
    {A : Type 0} → (ℕ → A → List PayloadError) → Option (List A) → List PayloadError
unfolding errors_from
array_errors errors none = empty_array ∷ []
array_errors errors (some []) = empty_array ∷ []
array_errors errors (some (a ∷ rest)) = errors_from errors 1 (a ∷ rest)

unfoldable pub schema_errors : SchemaFields → Text → List PayloadError
schema_errors p schema_type =
    if same (codes "indy") schema_type
    then indy_field_errors p ++ array_errors indy_attribute_errors p.attributes
    else if same (codes "w3c") schema_type
    then w3c_field_errors p ++ array_errors w3c_attribute_errors p.schema_attributes
    else []

-- `none` where the function returns, otherwise the errors that it throws.
unfoldable pub validate_schema_payload : SchemaFields → Text → Option (List PayloadError)
validate_schema_payload p schema_type = elim (schema_errors p schema_type) [
  | [] ↦ none
  | e ∷ es ↦ some (e ∷ es)
]
