-- ===== src/Issuance.antt =====
-- Issuing credentials from a file: `splitIntoBatches`, `_storeBulkPayloadInBatch`,
-- `validateFileHeaders` and `validateFileData` of apps/issuance/src/issuance.service.ts.
pub mod Batches
pub mod Stored
pub mod Headers
pub mod Filled
use confirmd_platform.Common.{
  ℕ, zero, suc, ◌+◌, Bool, true, false, not, ◌&&◌, Option, none, some, List, [], ◌∷◌, ◌++◌, Text,
  codes, same, filter, any, member, length, take, drop, ltb, ◌==◌, if◌then◌else◌,
}
use confirmd_platform.Outcome.{
  Outcome, ok, err, bad_request, conflict, email_column, attribute_number, mismatched_attributes,
  missing_data, http,
}
use confirmd_platform.Effect.{Action, ◌>>=◌, ◌>>◌, pure, lift, perform, start, catch_with, for_each}

-- `array.slice(first, last)`
abbrev pub slice {ℓ} : {A : Type ℓ} → ℕ → ℕ → List A → List A
slice first size xs = take size (drop first xs)

-- The loop of `splitIntoBatches` from `i` on; out of fuel, it has not ended.
unfoldable pub batches_from {ℓ} : {A : Type ℓ} → ℕ → ℕ → List A → ℕ → Option (List (List A))
batches_from zero i xs batch_size = none
batches_from (suc fuel) i xs batch_size =
    let rest = batches_from fuel (i + batch_size) xs batch_size in
    if ltb i (length xs)
    then elim rest [ none ↦ none | some bs ↦ some (slice i batch_size xs ∷ bs) ]
    else some []

-- Every batch takes one element at least, so the loop ends within as many steps and one.
unfoldable pub split_into_batches {ℓ} :
    {A : Type ℓ} → List A → (batch_size : ℕ) → Option (List (List A))
unfolding batches_from
split_into_batches xs batch_size = batches_from (suc (length xs)) 0 xs batch_size

-- One row of the file that is stored.
pub record FileRow : Type 0 where
  pub credential_data : Text
  pub file_upload_id : Text
  pub user_id : Text

-- `CommonConstants.BATCH_SIZE`
abbrev pub batch_size : ℕ
batch_size = 100

-- The first failure of a list of outcomes, as `Promise.all` reports it.
unfoldable pub first_failure : List (Outcome (Unit {0})) → Outcome (Unit {0})
first_failure [] = ok tt
first_failure (ok _ ∷ rs) = first_failure rs
first_failure (err f ∷ rs) = err f

module _ (saved : List FileRow → FileRow → Outcome (Unit {0})) where
  -- Every row of a batch is sent to the database before any answer is looked at.
  unfoldable pub start_all : List FileRow → Action FileRow (List (Outcome (Unit {0})))
  start_all [] = pure []
  start_all (row ∷ rows) = do
    r ← start (perform row (λ h. saved h row))
    rs ← start_all rows
    pure (r ∷ rs)

  unfoldable pub store_batch : List FileRow → Action FileRow (Unit {0})
  store_batch rows = start_all rows >>= λ rs. lift (first_failure rs)

  unfoldable pub store_batches : List (List FileRow) → Action FileRow (Unit {0})
  unfolding for_each
  store_batches batches = for_each batches store_batch

  -- `_storeBulkPayloadInBatch`; `none` is a run that does not end.
  unfoldable pub store_bulk_payload_in_batch : List FileRow → Option (Action FileRow (Unit {0}))
  store_bulk_payload_in_batch rows = elim (split_into_batches rows batch_size) [
    | none ↦ none
    | some batches ↦ some (catch_with http (store_batches batches))
  ]

abbrev pub email_identifier : Text
email_identifier = codes "email_identifier"

unfoldable pub validate_file_headers : List Text → List Text → Outcome (Unit {0})
unfolding same
validate_file_headers [] schema_attributes = err (bad_request email_column)
validate_file_headers (first ∷ file_schema_header) schema_attributes =
    if not (same email_identifier first)
    then err (bad_request email_column)
    else if not (length schema_attributes == length file_schema_header)
    then err (conflict attribute_number)
    else if ltb 0
        (length (filter (λ value. not (member value schema_attributes)) file_schema_header))
    then err (conflict mismatched_attributes)
    else ok tt

pub record Attribute : Type 0 where
  pub attribute_name : Text
  pub is_required : Bool

-- The elements of a row with their headers; past the last header there is none.
unfoldable pub with_header : List Text → List Text → List (Text × Option Text)
with_header [] header = []
with_header (v ∷ row) [] = (v, none) ∷ with_header row []
with_header (v ∷ row) (h ∷ header) = (v, some h) ∷ with_header row header

abbrev pub is_empty : Text → Bool
is_empty [] = true
is_empty (_ ∷ _) = false

-- `eachItem.attributeName === eachElement.header && eachItem.isRequired && !eachElement.value`
abbrev pub is_missing : Text × Option Text → Attribute → Bool
is_missing element a =
    elim element.1 [ none ↦ false | some h ↦ same a.attribute_name h ]
    && a.is_required
    && is_empty element.0

-- The entries of `errorFileData`: an attribute, and the row from 1 on.
unfoldable pub element_errors : ℕ → List Attribute → Text × Option Text → List (Text × ℕ)
element_errors row [] element = []
element_errors row (a ∷ attributes) element =
    let rest = element_errors row attributes element in
    if is_missing element a then (a.attribute_name, row) ∷ rest else rest

unfoldable pub row_errors : ℕ → List Attribute → List (Text × Option Text) → List (Text × ℕ)
unfolding element_errors
row_errors row attributes [] = []
row_errors row attributes (e ∷ es) = element_errors row attributes e ++ row_errors row attributes es

unfoldable pub file_errors : ℕ → List (List Text) → List Attribute → List Text → List (Text × ℕ)
unfolding row_errors with_header
file_errors i [] attributes header = []
file_errors i (row ∷ rows) attributes header =
    row_errors (suc i) attributes (with_header row header)
    ++ file_errors (suc i) rows attributes header

unfoldable pub validate_file_data :
    List (List Text) → List Attribute → List Text → Outcome (Unit {0})
unfolding file_errors
validate_file_data file_data attributes file_header =
    if ltb 0 (length (file_errors 0 file_data attributes file_header))
    then err (bad_request missing_data)
    else ok tt
