-- ===== src/Issuance/Filled.antt =====
-- Which rows of a file are accepted.
use confirmd_platform.Common.{
  ℕ, suc, ◌≡◌, ◌↔◌, inl, inr, refl, ◌≢◌, true, same_iff, false, Option, none, some, List, [], ◌∷◌,
  arith, All, Text, length, length-append, Bool-cases,
}
use confirmd_platform.Outcome.{ok}
use confirmd_platform.Issuance.{
  Attribute, with_header, is_missing, element_errors, row_errors, file_errors, validate_file_data,
}

-- An element is not empty if it stands under the header of a required attribute; an element without
-- a header may be anything.
abbrev pub IsFilled : List Attribute → List Text → List Text → Type 0
IsFilled attributes header [] = Unit {0}
IsFilled attributes [] (v ∷ row) = Unit {0}
IsFilled attributes (h ∷ header) (v ∷ row) =
    All (λ (a : Attribute). a.is_required ≡ true → a.attribute_name ≡ h → v ≢ []) attributes
    × IsFilled attributes header row

-- The same in the words of the check.
abbrev HasAll : List Attribute → List Text → List Text → Type 0
HasAll attributes header row =
    All (λ element. All (λ a. is_missing element a ≡ false) attributes) (with_header row header)

element_errors_iff :
    (i : ℕ) (attributes : List Attribute) (element : Text × Option Text)
    → (length (element_errors i attributes element) ≡ 0)
      ↔ All (λ a. is_missing element a ≡ false) attributes
unfolding element_errors
element_errors_iff i [] element = ground arith
element_errors_iff i (a ∷ attributes) element = elim (Bool-cases (is_missing element a)) [
  | inl e ↦ ground arith
  | inr e ↦ ground (arith, element_errors_iff i attributes element)
]

row_errors_iff :
    (i : ℕ) (attributes : List Attribute) (es : List (Text × Option Text))
    → (length (row_errors i attributes es) ≡ 0)
      ↔ All (λ element. All (λ a. is_missing element a ≡ false) attributes) es
unfolding row_errors
row_errors_iff i attributes [] = ground arith
row_errors_iff i attributes (e ∷ es) = ground (
  arith,
  element_errors_iff i attributes e,
  row_errors_iff i attributes es,
  length-append (element_errors i attributes e) (row_errors i attributes es),
)

file_errors_iff :
    (i : ℕ) (rows : List (List Text)) (attributes : List Attribute) (header : List Text)
    → (length (file_errors i rows attributes header) ≡ 0) ↔ All (HasAll attributes header) rows
unfolding file_errors
file_errors_iff i [] attributes header = ground arith
file_errors_iff i (row ∷ rows) attributes header = ground (
  arith,
  row_errors_iff (suc i) attributes (with_header row header),
  file_errors_iff (suc i) rows attributes header,
  length-append (row_errors (suc i) attributes (with_header row header))
      (file_errors (suc i) rows attributes header),
)

is_missing_iff :
    (v h : Text) (a : Attribute)
    → (is_missing (v, some h) a ≡ false) ↔ (a.is_required ≡ true → a.attribute_name ≡ h → v ≢ [])
is_missing_iff [] h a = ground (arith, same_iff a.attribute_name h)
is_missing_iff (c ∷ v) h a = (λ _ _ _ e. absurd (ground arith), λ _. ground arith)

headed_iff :
    (v h : Text) (attributes : List Attribute)
    → All (λ a. is_missing (v, some h) a ≡ false) attributes
      ↔ All (λ (a : Attribute). a.is_required ≡ true → a.attribute_name ≡ h → v ≢ []) attributes
headed_iff v h [] = (λ x. x, λ x. x)
headed_iff v h (a ∷ attributes) =
    let i = is_missing_iff v h a in
    let r = headed_iff v h attributes in (λ p. (i.0 p.0, r.0 p.1), λ p. (i.1 p.0, r.1 p.1))

headless :
    (v : Text) (attributes : List Attribute) → All (λ a. is_missing (v, none) a ≡ false) attributes
headless v [] = tt
headless v (a ∷ attributes) = (refl, headless v attributes)

HasAll-iff-IsFilled :
    (attributes : List Attribute) (header row : List Text)
    → HasAll attributes header row ↔ IsFilled attributes header row
unfolding with_header
HasAll-iff-IsFilled attributes header [] = (λ _. tt, λ _. tt)
HasAll-iff-IsFilled attributes [] (v ∷ row) =
    let r = HasAll-iff-IsFilled attributes [] row in
    (λ _. tt, λ _. (headless v attributes, r.1 (unheaded row)))
  where
    unheaded : (row : List Text) → IsFilled attributes [] row
    unheaded [] = tt
    unheaded (u ∷ row) = tt
HasAll-iff-IsFilled attributes (h ∷ header) (v ∷ row) =
    let i = headed_iff v h attributes in
    let r = HasAll-iff-IsFilled attributes header row in
    (λ p. (i.0 p.0, r.0 p.1), λ p. (i.1 p.0, r.1 p.1))

rows-iff-IsFilled :
    (attributes : List Attribute) (header : List Text) (rows : List (List Text))
    → All (HasAll attributes header) rows ↔ All (IsFilled attributes header) rows
rows-iff-IsFilled attributes header [] = (λ x. x, λ x. x)
rows-iff-IsFilled attributes header (row ∷ rows) =
    let i = HasAll-iff-IsFilled attributes header row in
    let r = rows-iff-IsFilled attributes header rows in
    (λ p. (i.0 p.0, r.0 p.1), λ p. (i.1 p.0, r.1 p.1))

-- The data of a file is accepted exactly when, in every row, each element that stands under the name
-- of a required attribute is not empty. A row that is shorter than the header is accepted without
-- the elements that it lacks.
pub validate_file_data_iff :
    (rows : List (List Text)) (attributes : List Attribute) (header : List Text)
    → (validate_file_data rows attributes header ≡ ok tt) ↔ All (IsFilled attributes header) rows
unfolding validate_file_data
validate_file_data_iff rows attributes header =
    ground
      (arith, file_errors_iff 0 rows attributes header, rows-iff-IsFilled attributes header rows)
