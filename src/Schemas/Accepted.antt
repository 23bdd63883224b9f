-- ===== src/Schemas/Accepted.antt =====
-- Which payloads are accepted.
use confirmd_platform.Common.{
  ℕ, suc, ◌≡◌, refl, ◌↔◌, Bool, true, false, Option, none, some, List, [], ◌∷◌, ◌++◌, arith, All,
  Text, codes, same, if◌then◌else◌,
}
use confirmd_platform.Attributes.{JsValue, is_truthy}
use confirmd_platform.Schemas.{
  IndyAttribute, W3cAttribute, SchemaFields, PayloadError, is_string, indy_field_errors,
  w3c_field_errors, indy_attribute_errors, w3c_attribute_errors, errors_from, array_errors,
  schema_errors, validate_schema_payload,
}

-- A string that is not empty.
abbrev pub IsText : JsValue → Type 0
IsText v = (is_truthy v ≡ true) × (is_string v ≡ true)

abbrev pub IsIndyAttribute : Option IndyAttribute → Type 0
IsIndyAttribute none = ⊥
IsIndyAttribute (some a) =
    (is_truthy a.display_name ≡ true)
    × ((is_truthy a.attribute_name ≡ true) × (is_truthy a.schema_data_type ≡ true))

abbrev pub IsW3cAttribute : Option W3cAttribute → Type 0
IsW3cAttribute none = ⊥
IsW3cAttribute (some a) = (is_truthy a.title ≡ true) × (is_truthy a.type_name ≡ true)

-- A list with an element, all of whose elements satisfy the predicate.
abbrev pub IsFull : {A : Type 0} → (A → Type 0) → Option (List A) → Type 0
IsFull P none = ⊥
IsFull P (some []) = ⊥
IsFull P (some (a ∷ rest)) = All P (a ∷ rest)

abbrev pub IsIndyPayload : SchemaFields → Type 0
IsIndyPayload p =
    (IsText p.name × (is_truthy p.version ≡ true)) × IsFull IsIndyAttribute p.attributes

abbrev pub IsW3cPayload : SchemaFields → Type 0
IsW3cPayload p =
    (IsText p.schema_name × (IsText p.did × IsText p.description))
    × IsFull IsW3cAttribute p.schema_attributes

append-nil_iff : {A : Type 0} (xs ys : List A) → ((xs ++ ys) ≡ []) ↔ ((xs ≡ []) × (ys ≡ []))
append-nil_iff [] ys = ground arith
append-nil_iff (x ∷ xs) ys = ground arith

indy_field_errors_iff :
    (p : SchemaFields) → (indy_field_errors p ≡ []) ↔ (IsText p.name × (is_truthy p.version ≡ true))
unfolding indy_field_errors
indy_field_errors_iff p = ground arith

w3c_field_errors_iff :
    (p : SchemaFields)
    → (w3c_field_errors p ≡ []) ↔ (IsText p.schema_name × (IsText p.did × IsText p.description))
unfolding w3c_field_errors
w3c_field_errors_iff p = ground arith

indy_attribute_errors_iff :
    (position : ℕ) (a : Option IndyAttribute)
    → (indy_attribute_errors position a ≡ []) ↔ IsIndyAttribute a
unfolding indy_attribute_errors
indy_attribute_errors_iff position none = ground arith
indy_attribute_errors_iff position (some a) = ground arith

w3c_attribute_errors_iff :
    (position : ℕ) (a : Option W3cAttribute)
    → (w3c_attribute_errors position a ≡ []) ↔ IsW3cAttribute a
unfolding w3c_attribute_errors
w3c_attribute_errors_iff position none = ground arith
w3c_attribute_errors_iff position (some a) = ground arith

module _ {A : Type 0} {P : A → Type 0} (errors : ℕ → A → List PayloadError)
    (each : (position : ℕ) (a : A) → (errors position a ≡ []) ↔ P a) where
  errors_from_iff :
      (position : ℕ) (as_given : List A)
      → (errors_from errors position as_given ≡ []) ↔ All P as_given
  unfolding errors_from
  errors_from_iff position [] = ground arith
  errors_from_iff position (a ∷ as_given) = ground (
    arith,
    append-nil_iff (errors position a) (errors_from errors (suc position) as_given),
    each position a,
    errors_from_iff (suc position) as_given,
  )

  array_errors_iff : (given : Option (List A)) → (array_errors errors given ≡ []) ↔ IsFull P given
  unfolding array_errors
  array_errors_iff none = ground arith
  array_errors_iff (some []) = ground arith
  array_errors_iff (some (a ∷ rest)) = errors_from_iff 1 (a ∷ rest)

none_iff :
    (p : SchemaFields) (t : Text) → (validate_schema_payload p t ≡ none) ↔ (schema_errors p t ≡ [])
unfolding validate_schema_payload
none_iff p t = ground arith

-- What the type of a schema asks for. Nothing is asked of a type that the code does not know.
abbrev pub IsPayload : Text → SchemaFields → Type 0
IsPayload t p =
    if same (codes "indy") t
    then IsIndyPayload p
    else if same (codes "w3c") t
    then IsW3cPayload p
    else Unit

both_iff :
    {P Q : Type 0} (xs ys : List PayloadError)
    → (xs ≡ []) ↔ P
    → (ys ≡ []) ↔ Q
    → ((xs ++ ys) ≡ []) ↔ (P × Q)
both_iff xs ys f g = ground (arith, append-nil_iff xs ys, f.0, f.1, g.0, g.1)

choice_iff :
    {P Q : Type 0} {xs ys : List PayloadError} (b c : Bool)
    → (xs ≡ []) ↔ P
    → (ys ≡ []) ↔ Q
    → ((if b then xs else if c then ys else []) ≡ []) ↔ (if b then P else if c then Q else Unit)
choice_iff true c f g = f
choice_iff false true f g = g
choice_iff false false f g = (λ e. tt, λ u. refl)

schema_errors_iff : (p : SchemaFields) (t : Text) → (schema_errors p t ≡ []) ↔ IsPayload t p
unfolding schema_errors
schema_errors_iff p t =
    choice_iff (same (codes "indy") t) (same (codes "w3c") t)
      (both_iff (indy_field_errors p) (array_errors indy_attribute_errors p.attributes)
        (indy_field_errors_iff p)
        (array_errors_iff indy_attribute_errors indy_attribute_errors_iff p.attributes))
      (both_iff (w3c_field_errors p) (array_errors w3c_attribute_errors p.schema_attributes)
        (w3c_field_errors_iff p)
        (array_errors_iff w3c_attribute_errors w3c_attribute_errors_iff p.schema_attributes))

-- A payload is accepted exactly when it is what its type asks for. For `indy` its name is a string
-- that is not empty, it has a version, and its attributes are a list with an element, each with
-- the three fields. For `w3c` its name, DID and description are strings that are not empty, and
-- its attributes are a list with an element, each with a title and a type. A payload of any other
-- type is accepted as it is.
pub validate_schema_payload_iff :
    (p : SchemaFields) (t : Text) → (validate_schema_payload p t ≡ none) ↔ IsPayload t p
validate_schema_payload_iff p t =
    let (f, g) = none_iff p t in let (h, k) = schema_errors_iff p t in (λ e. h (f e), λ x. g (k x))
