-- ===== src/Bulk.antt =====
-- Bulk issuance: the tables `file_upload` and `file_data` with their operations in
-- apps/issuance/src/issuance.repository.ts, the counters of apps/issuance/src/issuance.service.ts,
-- the queue, and what the service relies on outside.
pub mod Job
pub mod Queue
pub mod Queued
pub mod Finished
pub mod Kept
pub mod Issued
pub mod Retried
mod Examples
pub mod Settled
pub mod Processed
pub mod Described
use confirmd_platform.Common.{
  ℕ, Bool, true, false, not, ◌&&◌, ◌||◌, Option, none, some, List, [], ◌∷◌, ◌++◌, map, filter, any,
  length, Text, same, if◌then◌else◌,
}
use confirmd_platform.Outcome.{
  Fault, Outcome, ok, err, external, not_found, agent_end_point_not_found,
}
use confirmd_platform.Effect.{Stateful, ◌>>=◌, pure, throw, read}

-- The fields of a row of the file, by their header and in their order.
abbrev pub CredentialData : Type 0
CredentialData = List (Text × Text)

-- A row of `file_data`. The columns `error` and `detailError` hold the error as JSON; here they
-- are one column with the error itself.
pub record FileData : Type 0 where
  pub id : Text
  pub reference_id : Option Text
  pub is_error : Option Bool
  pub error : Option Fault
  pub file_upload_id : Text
  pub schema_id : Text
  pub cred_def_id : Text
  pub status : Bool
  pub credential_data : Option CredentialData
  pub credential_type : Text

-- `FileUploadStatus`
pub data FileUploadStatus : Type 0 where
  started completed interrupted retry partially_completed : FileUploadStatus

-- A row of `file_upload`.
pub record FileUpload : Type 0 where
  pub id : Text
  pub name : Text
  pub status : FileUploadStatus
  pub org_id : Text
  pub credential_type : Text
  pub template_id : Text

-- What the caller chose for the look of the mail and the certificate.
pub record Look : Type 0 where
  pub organization_logo_url : Option Text
  pub platform_name : Option Text
  pub certificate : Option Text
  pub size : Option Text
  pub orientation : Option Text
  pub height : Option Text
  pub width : Option Text

-- `IQueuePayload`, a job of the queue.
pub record QueuePayload : Type 0 where
  pub id : Text
  pub job_id : Text
  pub cache_id : Option Text
  pub is_validate_schema : Bool
  pub client_id : Text
  pub reference_id : Option Text
  pub file_upload_id : Text
  pub schema_ledger_id : Text
  pub credential_definition_id : Text
  pub status : Bool
  pub credential_data : Option CredentialData
  pub org_id : Text
  pub credential_type : Text
  pub total_jobs : ℕ
  pub is_retry : Bool
  pub is_last_data : Bool
  pub look : Look

-- What goes to the client over the socket, and the entry of the cache that is dropped.
pub data Notice : Type 0 where
  process_completed retry_completed process_error : (client_id file_upload_id : Text) → Notice
  dropped : (cache_id : Option Text) → Notice

-- `counters` is `processedJobsCounters`; `notices` has the newest first.
pub record BulkStore : Type 0 where
  pub counters : List (Text × ℕ)
  pub file_data : List FileData
  pub file_uploads : List FileUpload
  pub queue : List QueuePayload
  pub notices : List Notice

abbrev pub BulkAct : Type 0 → Type 0
BulkAct A = Stateful BulkStore A

-- An offer to the agent: the payloads that `processIssuanceData` makes. `no_payload` is the
-- `undefined` of a type that is neither Indy nor W3C.
pub data Offer : Type 0 where
  indy_offer :
      (credential_definition_id org_id label : Text)
      → (attributes : CredentialData) → (email_id : Option Text) → Offer
  jsonld_offer :
      (schema_name schema_ledger_id org_did org_id proof_type : Text)
      → (credential_subject : CredentialData) → (email_id : Option Text) → (look : Look)
      → (is_validate_schema : Bool) → Offer
  no_payload : Offer

pub record OrgAgent : Type 0 where
  pub org_name : Text
  pub org_did : Text

pub record SchemaDetails : Type 0 where
  pub name : Text
  pub schema_ledger_id : Text

-- A write to the database or the queue.
pub data Write : Type 0 where
  update_file_data update_file_upload : (id : Text) → Write
  create_file_data create_file_upload : Write
  add_bulk : List QueuePayload → Write

-- What `uploadCSVTemplate` leaves in the cache, parsed from JSON; `rows` is `fileData.data`.
pub record CachedFile : Type 0 where
  pub rows : Option (List CredentialData)
  pub file_name : Text
  pub credential_type : Text
  pub schema_ledger_id : Text
  pub credential_definition_id : Text

-- The outside: reads of other tables, `outOfBandCredentialOffer` and `uploadCSVTemplate`, the cache,
-- the failures of writes, uuid. The reads of the two tables do not fail. Each answer may depend on all that was done before.
pub record BulkServices : Type 0 where
  pub org_agent : BulkStore → (org_id : Text) → Outcome (Option OrgAgent)
  pub schema_details : BulkStore → (schema_ledger_id : Text) → Outcome (Option SchemaDetails)
  pub offered : BulkStore → Offer → Look → Outcome Bool
  pub failure : BulkStore → Write → Option Fault
  pub new_uuid : BulkStore → Text
  pub new_row_id : BulkStore → Text
  pub cached_file : BulkStore → (request_id : Text) → Outcome (Option CachedFile)
  pub uploaded_template : BulkStore → (org_id : Text) → Outcome (Unit {0})

-- A row that the client of the database does not find is an error (`P2025`).
abbrev pub no_file_row : Fault
no_file_row = external 2025

abbrev pub has_row_id : Text → FileData → Bool
has_row_id id r = same r.id id

abbrev pub change_if : Bool → (FileData → FileData) → FileData → FileData
change_if true f r = f r
change_if false f r = r

-- `update` by the primary key.
unfoldable pub change_row : Text → (FileData → FileData) → List FileData → List FileData
change_row id f [] = []
change_row id f (r ∷ rs) = change_if (has_row_id id r) f r ∷ change_row id f rs

abbrev pub set_status_if : Bool → FileUploadStatus → FileUpload → FileUpload
set_status_if true status u = record u { status = status }
set_status_if false status u = u

unfoldable pub change_upload : Text → FileUploadStatus → List FileUpload → List FileUpload
change_upload id status [] = []
change_upload id status (u ∷ us) =
    set_status_if (same u.id id) status u ∷ change_upload id status us

-- `{ fileUploadId, OR: [{ isError: true }, { status: false }] }`
abbrev pub is_failed : Text → FileData → Bool
is_failed file_upload_id r =
    same r.file_upload_id file_upload_id
    && (elim r.is_error [ none ↦ false | some e ↦ e ] || not r.status)

-- The columns that `deleteFileDataByJobId` and `updateFileUploadData` write.
abbrev pub delivered : FileData → FileData
delivered r = record r { credential_data = none; status = true }

abbrev pub recorded :
    (file_upload_id : Text) (reference_id : Option Text) (error : Option Fault)
    → FileData
    → FileData
recorded file_upload_id reference_id error r = record r {
  error = error;
  is_error = some (elim error [ none ↦ false | some _ ↦ true ]);
  reference_id = reference_id;
  file_upload_id = file_upload_id;
}

abbrev pub agent_or_error : Option OrgAgent → BulkAct OrgAgent
agent_or_error none = throw (not_found agent_end_point_not_found)
agent_or_error (some a) = pure a

module _ (w : BulkServices) where
  -- A write that fails changes nothing.
  abbrev pub write : Write → Bool → (BulkStore → BulkStore) → BulkAct (Unit {0})
  write op found f s = elim (w.failure s op) [
    | some e ↦ (err e, s)
    | none ↦ if found then (ok tt, f s) else (err no_file_row, s)
  ]

  unfoldable pub update_data_row : Text → (FileData → FileData) → BulkAct (Unit {0})
  update_data_row id f s =
      write (update_file_data id) (any (has_row_id id) s.file_data)
        (λ t. record t { file_data = change_row id f t.file_data }) s

  abbrev pub delete_file_data_by_job_id : Text → BulkAct (Unit {0})
  delete_file_data_by_job_id [] = pure tt
  delete_file_data_by_job_id (c ∷ id) = update_data_row (c ∷ id) delivered

  -- With no id it throws the `error` of its argument, which is the empty text or the error.
  unfoldable pub update_file_upload_data :
      (id file_upload_id : Text) (reference_id : Option Text) (error : Option Fault)
      → BulkAct (Unit {0})
  update_file_upload_data [] file_upload_id reference_id error =
      throw (elim error [ none ↦ external 0 | some e ↦ e ])
  update_file_upload_data (c ∷ id) file_upload_id reference_id error =
      update_data_row (c ∷ id) (recorded file_upload_id reference_id error)

  unfoldable pub update_file_upload_details : Text → FileUploadStatus → BulkAct (Unit {0})
  update_file_upload_details id status s =
      write (update_file_upload id) (any (λ (u : FileUpload). same u.id id) s.file_uploads)
        (λ t. record t { file_uploads = change_upload id status t.file_uploads }) s

  unfoldable pub get_agent_end_point : Text → BulkAct OrgAgent
  get_agent_end_point org_id = read (λ s. w.org_agent s org_id) >>= agent_or_error

-- `countErrorsForFile` and `getFailedCredentials` have the same condition.
unfoldable pub get_failed_credentials : Text → BulkStore → List FileData
get_failed_credentials file_upload_id s = filter (is_failed file_upload_id) s.file_data

unfoldable pub count_errors_for_file : Text → BulkStore → ℕ
unfolding get_failed_credentials
count_errors_for_file file_upload_id s = length (get_failed_credentials file_upload_id s)
