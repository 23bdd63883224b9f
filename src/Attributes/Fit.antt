-- ===== src/Attributes/Fit.antt =====
-- Which attributes are accepted, and what is reported first.
use confirmd_platform.Common.{
  ◌≡◌, sym, if◌then◌else◌, ◌↔◌, ◌⊎◌, inl, inr, Bool, true, false, not, ◌&&◌, ◌||◌, none, List, [],
  ◌∷◌, map, arith, All, Text, codes, same, same_iff, member, Bool-cases,
}
use confirmd_platform.Attributes.{
  JsValue, SchemaAttribute, type_of, is_truthy, is_undefined, property, Check, fine, missing, blank,
  wrong_type, date_time, is_wrong_type, check_attribute, push, collect, extra_attributes,
  validate_w3c_schema_attributes,
}

-- A required attribute has a value that is neither missing nor blank; a value that is there has
-- the type of the schema, where a date is a string.
abbrev pub HasType : JsValue → Text → Type 0
HasType v t =
    ((t ≡ date_time) × (type_of v ≡ codes "string"))
    ⊎ ((same date_time t ≡ false) × (type_of v ≡ t))

abbrev pub IsFit : List (Text × JsValue) → SchemaAttribute → Type 0
IsFit attributes a =
    ((a.is_required ≡ false) ⊎ (is_truthy (property attributes a.attribute_name) ≡ true))
    × ((is_undefined (property attributes a.attribute_name) ≡ true)
        ⊎ HasType (property attributes a.attribute_name) a.schema_data_type)

wrong_type_test :
    (d s y : Bool)
    → (((d && not s) || (not d && not y)) ≡ false)
      ↔ (((d ≡ true) × (s ≡ true)) ⊎ ((d ≡ false) × (y ≡ true)))
wrong_type_test true s y = ground arith
wrong_type_test false s y = ground arith

is_wrong_type_iff : (v : JsValue) (t : Text) → (is_wrong_type v t ≡ false) ↔ HasType v t
is_wrong_type_iff v t =
    let (f, g) =
      wrong_type_test (same date_time t) (same (codes "string") (type_of v)) (same (type_of v) t) in
    (
      λ e. elim (f e) [
        | inl (a, b) ↦
            inl
              (sym ((same_iff date_time t).0 a), sym ((same_iff (codes "string") (type_of v)).0 b))
        | inr (a, b) ↦ inr (a, (same_iff (type_of v) t).0 b)
      ],
      λ h. g (elim h [
        | inl (a, b) ↦
            inl
              ((same_iff date_time t).1 (sym a), (same_iff (codes "string") (type_of v)).1 (sym b))
        | inr (a, b) ↦ inr (a, (same_iff (type_of v) t).1 b)
      ]),
    )

undefined-is_falsy : (v : JsValue) → is_undefined v ≡ true → is_truthy v ≡ false
unfolding is_truthy
undefined-is_falsy v e = ground arith

check_test :
    (r u k x : Bool)
    → (u ≡ true → k ≡ false)
    → ((if r && u
          then missing
          else if r && not k
          then blank
          else if not u && x
          then wrong_type
          else fine)
        ≡ fine)
      ↔ (((r ≡ false) ⊎ (k ≡ true)) × ((u ≡ true) ⊎ (x ≡ false)))
check_test true true k x h = ground arith
check_test true false true x h = ground arith
check_test true false false x h = ground arith
check_test false true k x h = ground arith
check_test false false k x h = ground arith

check_attribute_iff :
    (attributes : List (Text × JsValue)) (a : SchemaAttribute)
    → (check_attribute attributes a ≡ fine) ↔ IsFit attributes a
unfolding check_attribute
check_attribute_iff attributes a =
    let v = property attributes a.attribute_name in
    let (f, g) =
      check_test a.is_required (is_undefined v) (is_truthy v) (is_wrong_type v a.schema_data_type)
        (undefined-is_falsy v) in
    let (p, q) = is_wrong_type_iff v a.schema_data_type in
    (
      λ e. ((f e).0, elim (f e).1 [ inl u ↦ inl u | inr x ↦ inr (p x) ]),
      λ h. g (h.0, elim h.1 [ inl u ↦ inl u | inr t ↦ inr (q t) ]),
    )

push_iff :
    (name : Text) (c : Check) (l : List Text × List (Text × Check))
    → (((push name c l).0 ≡ []) × ((push name c l).1 ≡ []))
      ↔ ((c ≡ fine) × ((l.0 ≡ []) × (l.1 ≡ [])))
push_iff name fine l = ground arith
push_iff name missing l = ground arith
push_iff name blank l = ground arith
push_iff name wrong_type l = ground arith

collect_iff :
    (attributes : List (Text × JsValue)) (schema : List SchemaAttribute)
    → (((collect attributes schema).0 ≡ []) × ((collect attributes schema).1 ≡ []))
      ↔ All (IsFit attributes) schema
unfolding collect
collect_iff attributes [] = ground arith
collect_iff attributes (a ∷ schema) = ground (
  arith,
  push_iff a.attribute_name (check_attribute attributes a) (collect attributes schema),
  check_attribute_iff attributes a,
  collect_iff attributes schema,
)

-- Every attribute of the object is one of the schema.
abbrev pub IsKnown : List SchemaAttribute → Text × JsValue → Type 0
IsKnown schema e = member e.0 (map (λ a. a.attribute_name) schema) ≡ true

extra_attributes_iff :
    (attributes : List (Text × JsValue)) (schema : List SchemaAttribute)
    → (extra_attributes attributes schema ≡ []) ↔ All (IsKnown schema) attributes
unfolding extra_attributes
extra_attributes_iff [] schema = ground arith
extra_attributes_iff (e ∷ attributes) schema =
    elim (Bool-cases (member e.0 (map (λ a. a.attribute_name) schema))) [
      | inl k ↦ ground (arith, extra_attributes_iff attributes schema)
      | inr k ↦ ground arith
    ]

-- The attributes of a credential are accepted exactly when each attribute of the schema fits, a
-- required one by a value that is not blank, and each attribute given is one of the schema.
pub validate_w3c_schema_attributes_iff :
    (attributes : List (Text × JsValue)) (schema : List SchemaAttribute)
    → (validate_w3c_schema_attributes attributes schema ≡ none)
      ↔ (All (IsFit attributes) schema × All (IsKnown schema) attributes)
unfolding validate_w3c_schema_attributes
validate_w3c_schema_attributes_iff attributes schema =
    let (f, g) = collect_iff attributes schema in
    let (p, q) = extra_attributes_iff attributes schema in
    (λ e. (f (ground arith), p (ground arith)), λ (h, k). ground (arith, g h, q k))
