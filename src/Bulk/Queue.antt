-- ===== src/Bulk/Queue.antt =====
-- Queueing the rows of a file: `processInBatches`, `issueBulkCredential` and `retryBulkCredential`
-- of apps/issuance/src/issuance.service.ts.
use confirmd_platform.Common.{
  ℕ, Bool, true, false, Option, none, some, List, [], ◌∷◌, ◌++◌, map, filter, length, Text, same,
  if◌then◌else◌,
}
use confirmd_platform.Outcome.{
  Outcome, ok, http, bad_request, missing_request_id, cached_data, cache_time_out,
  file_details_not_found, retry_file,
}
use confirmd_platform.Effect.{
  ◌>>=◌, ◌>>◌, pure, throw, lift, read, start, catch_with, non_null, rethrow_rpc, for_each,
}
use confirmd_platform.Issuance.{split_into_batches, batch_size, first_failure}
use confirmd_platform.Bulk.{
  CredentialData, FileData, FileUpload, FileUploadStatus, Look, QueuePayload, dropped, BulkStore,
  BulkAct, add_bulk, create_file_data, create_file_upload, CachedFile, BulkServices, write,
  update_file_upload_details, get_failed_credentials,
}
use confirmd_platform.Bulk.Job.{add_notice}

-- The details of the caller, and what a run is for.
pub record ClientDetails : Type 0 where
  pub client_id : Text
  pub user_id : Text
  pub is_selective_issuance : Bool
  pub look : Look

pub record BulkPayloadDetails : Type 0 where
  pub client_id : Text
  pub org_id : Text
  pub request_id : Option Text
  pub is_retry : Bool
  pub is_validate_schema : Bool
  pub look : Look

-- `CommonConstants.ISSUANCE_BATCH_SIZE`
abbrev pub issuance_batch_size : ℕ
issuance_batch_size = 2000

-- `createBatches`, the loop of `splitIntoBatches`; it ends for each size that is not 0.
unfoldable pub create_batches {ℓ} : {A : Type ℓ} → List A → ℕ → List (List A)
create_batches rows size = elim (split_into_batches rows size) [ none ↦ [] | some bs ↦ bs ]

abbrev pub job_of : (unique_job_id : Text) → BulkPayloadDetails → ℕ → FileData → QueuePayload
job_of unique_job_id d total item = record {
  id = item.id;
  job_id = unique_job_id;
  cache_id = d.request_id;
  is_validate_schema = d.is_validate_schema;
  client_id = d.client_id;
  reference_id = item.reference_id;
  file_upload_id = item.file_upload_id;
  schema_ledger_id = item.schema_id;
  credential_definition_id = item.cred_def_id;
  status = item.status;
  credential_data = item.credential_data;
  org_id = d.org_id;
  credential_type = item.credential_type;
  total_jobs = total;
  is_retry = d.is_retry;
  is_last_data = false;
  look = d.look;
}

abbrev pub retry_details : ClientDetails → (org_id : Text) → Bool → BulkPayloadDetails
retry_details client org_id is_validate_schema = record {
  client_id = client.client_id;
  org_id = org_id;
  request_id = none;
  is_retry = true;
  is_validate_schema = is_validate_schema;
  look = client.look;
}

abbrev pub issue_details : ClientDetails → (org_id request_id : Text) → Bool → BulkPayloadDetails
issue_details client org_id request_id is_validate_schema = record {
  client_id = client.client_id;
  org_id = org_id;
  request_id = some request_id;
  is_retry = false;
  is_validate_schema = is_validate_schema;
  look = client.look;
}

-- `findUnique`
unfoldable pub find_upload : Text → List FileUpload → Option FileUpload
find_upload id [] = none
find_upload id (u ∷ us) = if same u.id id then some u else find_upload id us

-- The row of `saveFileDetails`; its payload has no `status`, so the column is false.
abbrev pub new_row : (id file_upload_id : Text) → CachedFile → CredentialData → FileData
new_row id file_upload_id file fields = record {
  id = id;
  reference_id = none;
  is_error = some false;
  error = none;
  file_upload_id = file_upload_id;
  schema_id = file.schema_ledger_id;
  cred_def_id = file.credential_definition_id;
  status = false;
  credential_data = some fields;
  credential_type = file.credential_type;
}

abbrev pub new_upload : (id org_id : Text) → CachedFile → FileUpload
new_upload id org_id file = record {
  id = id;
  name = file.file_name;
  status = FileUploadStatus.started;
  org_id = org_id;
  credential_type = file.credential_type;
  template_id = file.schema_ledger_id;
}

abbrev status_after : {A : Type 0} → Outcome A → FileUploadStatus
status_after (ok _) = FileUploadStatus.started
status_after (Outcome.err _) = FileUploadStatus.interrupted

-- `getFileDetails`
unfoldable pub get_file_details : (file_upload_id : Text) → BulkStore → List FileData
get_file_details file_upload_id s =
    filter (λ (r : FileData). same r.file_upload_id file_upload_id) s.file_data

module _ (w : BulkServices) where
  unfoldable pub add_to_queue : List QueuePayload → BulkAct (Unit {0})
  add_to_queue jobs = write w (add_bulk jobs) true (λ s. record s { queue = s.queue ++ jobs })

  -- Every batch is added in turn; the waiting between two batches is left out.
  unfoldable pub process_in_batches : List FileData → BulkPayloadDetails → BulkAct (Unit {0})
  unfolding for_each create_batches add_to_queue
  process_in_batches rows d = do
    unique_job_id ← read (λ s. ok (w.new_uuid s))
    for_each (create_batches rows issuance_batch_size)
        (λ batch. add_to_queue (map (job_of unique_job_id d (length rows)) batch))

  -- Nothing waits for `processInBatches`, and its `try` does not see what it throws.
  abbrev pub queue_rows : List FileData → BulkPayloadDetails → BulkAct (Unit {0})
  queue_rows rows d = start (process_in_batches rows d) >>= λ _. pure tt

  abbrev pub retry_rows : List FileData → BulkPayloadDetails → BulkAct (Unit {0})
  retry_rows [] d = throw (bad_request file_details_not_found)
  retry_rows (r ∷ rs) d = queue_rows (r ∷ rs) d

  abbrev pub upload_or_error : Option FileUpload → BulkAct (Unit {0})
  upload_or_error none = throw (bad_request retry_file)
  upload_or_error (some u) = pure tt

  unfoldable pub retry_bulk_credential :
      (file_id org_id : Text) → ClientDetails → (is_validate_schema : Bool) → BulkAct (Unit {0})
  retry_bulk_credential file_id org_id client is_validate_schema = rethrow_rpc (do
    found ← read (λ s. ok (find_upload file_id s.file_uploads))
    upload_or_error found
    rows ← read (λ s. ok (get_failed_credentials file_id s))
    retry_rows rows (retry_details client org_id is_validate_schema))

  unfoldable pub save_file_details :
      (file_upload_id : Text) → CachedFile → CredentialData → BulkAct (Unit {0})
  save_file_details file_upload_id file fields = read (λ s. ok (w.new_row_id s)) >>= λ id.
      write w create_file_data true
        (λ s. record s { file_data = s.file_data ++ new_row id file_upload_id file fields ∷ [] })

  -- Every row of a batch is sent to the database before any answer is looked at.
  unfoldable pub save_all :
      (file_upload_id : Text)
      → CachedFile
      → List CredentialData
      → BulkAct (List (Outcome (Unit {0})))
  unfolding save_file_details
  save_all file_upload_id file [] = pure []
  save_all file_upload_id file (fields ∷ rows) = do
    r ← start (save_file_details file_upload_id file fields)
    rs ← save_all file_upload_id file rows
    pure (r ∷ rs)

  -- `_storeBulkPayloadInBatch` on the tables.
  unfoldable pub store_rows :
      (file_upload_id : Text) → CachedFile → List CredentialData → BulkAct (Unit {0})
  unfolding for_each save_all first_failure create_batches
  store_rows file_upload_id file rows = catch_with http (
      for_each (create_batches rows batch_size)
        (λ batch. save_all file_upload_id file batch >>= λ rs. lift (first_failure rs)))

  abbrev cached_or_error : Option CachedFile → BulkAct CachedFile
  cached_or_error none = throw (bad_request cache_time_out)
  cached_or_error (some file) = pure file

  abbrev rows_or_error : Option (List CredentialData) → BulkAct (List CredentialData)
  rows_or_error none = throw (bad_request cached_data)
  rows_or_error (some rows) = pure rows

  -- With selective issuance the entry is dropped and the file is uploaded again; the source gives
  -- `uploadCSVTemplate` the id of the request in the place of the organisation.
  abbrev reload_if : Bool → (request_id : Text) → CachedFile → BulkAct CachedFile
  reload_if false request_id file = pure file
  reload_if true request_id file = do
    add_notice (dropped (some request_id))
    read (λ s. w.uploaded_template s request_id)
    found ← read (λ s. w.cached_file s request_id)
    non_null found

  unfoldable pub load_file : (request_id : Text) → ClientDetails → BulkAct CachedFile
  load_file request_id client = do
    found ← read (λ s. w.cached_file s request_id)
    file ← cached_or_error found
    reload_if client.is_selective_issuance request_id file

  unfoldable pub save_file_upload_details : (org_id : Text) → CachedFile → BulkAct Text
  save_file_upload_details org_id file = read (λ s. ok (w.new_row_id s)) >>= λ id.
      write w create_file_upload true
        (λ s. record s { file_uploads = s.file_uploads ++ new_upload id org_id file ∷ [] })
      >> pure id

  -- `finally { … updateFileUploadDetails … }` once the row of the file is there.
  abbrev pub with_status : Text → BulkAct (Unit {0}) → BulkAct (Unit {0})
  with_status id m = start m >>= λ r. update_file_upload_details w id (status_after r) >> lift r

  unfoldable pub store_and_queue :
      (file_upload_id : Text)
      → CachedFile
      → List CredentialData
      → BulkPayloadDetails
      → BulkAct (Unit {0})
  unfolding store_rows get_file_details
  store_and_queue file_upload_id file rows d = rethrow_rpc (do
    store_rows file_upload_id file rows
    stored ← read (λ s. ok (get_file_details file_upload_id s))
    queue_rows stored d)

  unfoldable pub issue_bulk_credential :
      (request_id org_id : Text) → ClientDetails → (is_validate_schema : Bool) → BulkAct (Unit {0})
  unfolding load_file save_file_upload_details store_and_queue
  issue_bulk_credential [] org_id client is_validate_schema = throw (bad_request missing_request_id)
  issue_bulk_credential (c ∷ request_id) org_id client is_validate_schema = do
    file ← rethrow_rpc (load_file (c ∷ request_id) client)
    rows ← rethrow_rpc (rows_or_error file.rows)
    id ← rethrow_rpc (save_file_upload_details org_id file)
    with_status id (
        store_and_queue id file rows
          (issue_details client org_id (c ∷ request_id) is_validate_schema))
