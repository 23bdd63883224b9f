-- ===== src/Attributes.antt =====
-- The attributes of a W3C credential against their schema: `validateW3CSchemaAttributes` of
-- apps/issuance/libs/helpers/attributes.validator.ts.
pub mod Fit
use confirmd_platform.Common.{
  Bool, true, false, not, ◌&&◌, ◌||◌, Option, none, some, List, [], ◌∷◌, map, Text, codes, same,
  member, filter, if◌then◌else◌, ℤ, pos, zero,
}

-- A value of JavaScript, as far as the checks look at it; `number none` is `NaN`.
pub data JsValue : Type 0 where
  undefined_value null_value object : JsValue
  boolean : Bool → JsValue
  number : Option ℤ → JsValue
  string : Text → JsValue

pub record SchemaAttribute : Type 0 where
  pub attribute_name : Text
  pub schema_data_type : Text
  pub is_required : Bool

-- `typeof value`
unfoldable pub type_of : JsValue → Text
type_of undefined_value = codes "undefined"
type_of null_value = codes "object"
type_of object = codes "object"
type_of (boolean _) = codes "boolean"
type_of (number _) = codes "number"
type_of (string _) = codes "string"

-- A value in a condition.
unfoldable pub is_truthy : JsValue → Bool
is_truthy undefined_value = false
is_truthy null_value = false
is_truthy object = true
is_truthy (boolean b) = b
is_truthy (number none) = false
is_truthy (number (some (pos zero))) = false
is_truthy (number (some _)) = true
is_truthy (string []) = false
is_truthy (string (_ ∷ _)) = true

abbrev pub is_undefined : JsValue → Bool
is_undefined undefined_value = true
is_undefined _ = false

-- The own properties of the object of attributes; a key that it has not reads `undefined`.
unfoldable pub property : List (Text × JsValue) → Text → JsValue
property [] name = undefined_value
property (e ∷ es) name = let rest = property es name in if same e.0 name then e.1 else rest

pub data Check : Type 0 where
  fine missing blank wrong_type : Check

abbrev pub date_time : Text
date_time = codes "datetime-local"

-- The condition on the type: a `datetime-local` is a string.
abbrev pub is_wrong_type : JsValue → Text → Bool
is_wrong_type v schema_data_type =
    let is_date = same date_time schema_data_type in
    (is_date && not (same (codes "string") (type_of v)))
    || (not is_date && not (same (type_of v) schema_data_type))

-- One turn of the loop over the schema.
unfoldable pub check_attribute : List (Text × JsValue) → SchemaAttribute → Check
unfolding property is_truthy
check_attribute attributes a =
    let v = property attributes a.attribute_name in
    if a.is_required && is_undefined v
    then missing
    else if a.is_required && not (is_truthy v)
    then blank
    else if not (is_undefined v) && is_wrong_type v a.schema_data_type
    then wrong_type
    else fine

-- What a turn pushes to `missingAttributes` or `mismatchedAttributes`.
abbrev pub push : Text → Check → List Text × List (Text × Check) → List Text × List (Text × Check)
push name fine (m, x) = (m, x)
push name missing (m, x) = (name ∷ m, x)
push name blank (m, x) = (m, (name, blank) ∷ x)
push name wrong_type (m, x) = (m, (name, wrong_type) ∷ x)

-- The two lists after the loop.
unfoldable pub collect :
    List (Text × JsValue) → List SchemaAttribute → List Text × List (Text × Check)
collect attributes [] = ([], [])
collect attributes (a ∷ schema) =
    push a.attribute_name (check_attribute attributes a) (collect attributes schema)

unfoldable pub extra_attributes : List (Text × JsValue) → List SchemaAttribute → List Text
extra_attributes attributes schema =
    filter (λ name. not (member name (map (λ a. a.attribute_name) schema)))
      (map (λ e. e.0) attributes)

-- What the function throws: `Validation failed:` with the attributes of one of the three lists.
pub data Rejection : Type 0 where
  missing_attributes extra : List Text → Rejection
  mismatched : List (Text × Check) → Rejection

unfoldable pub validate_w3c_schema_attributes :
    List (Text × JsValue) → List SchemaAttribute → Option Rejection
unfolding collect extra_attributes
validate_w3c_schema_attributes attributes schema = elim (collect attributes schema).0 [
  | n ∷ ns ↦ some (missing_attributes (n ∷ ns))
  | [] ↦ elim (collect attributes schema).1 [
    | n ∷ ns ↦ some (mismatched (n ∷ ns))
    | [] ↦ elim (extra_attributes attributes schema) [ n ∷ ns ↦ some (extra (n ∷ ns)) | [] ↦ none ]
  ]
]
