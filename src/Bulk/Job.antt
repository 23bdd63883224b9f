-- ===== src/Bulk/Job.antt =====
-- One job of a bulk issuance: `processIssuanceData` of apps/issuance/src/issuance.service.ts. The
-- processor of the queue (apps/issuance/src/issuance.processor.ts) starts it and does not wait.
use confirmd_platform.Common.{
  ℕ, suc, Bool, true, false, not, ◌==◌, Option, none, some, List, [], ◌∷◌, Text, codes, same,
  filter, if◌then◌else◌,
}
use confirmd_platform.Outcome.{Fault, Outcome}
use confirmd_platform.Effect.{◌>>=◌, ◌>>◌, pure, throw, read, start, catch, non_null}
use confirmd_platform.Issuance.{email_identifier}
use confirmd_platform.Bulk.{
  CredentialData, QueuePayload, Notice, process_completed, retry_completed, process_error, dropped,
  BulkAct, Offer, indy_offer, jsonld_offer, no_payload, OrgAgent, SchemaDetails, BulkServices,
  FileUploadStatus, delete_file_data_by_job_id, update_file_upload_data, update_file_upload_details,
  get_agent_end_point, count_errors_for_file,
}

-- A counter that is not there counts from 0.
unfoldable pub counter_of : Text → List (Text × ℕ) → ℕ
counter_of job_id [] = 0
counter_of job_id ((k, n) ∷ cs) = if same k job_id then n else counter_of job_id cs

unfoldable pub without_counter : Text → List (Text × ℕ) → List (Text × ℕ)
without_counter job_id [] = []
without_counter job_id ((k, n) ∷ cs) =
    let rest = without_counter job_id cs in if same k job_id then rest else (k, n) ∷ rest

-- The job is counted; the one that reaches the total is the last, and its counter is deleted.
unfoldable pub begin_job : QueuePayload → BulkAct QueuePayload
unfolding counter_of without_counter
begin_job job s =
    let count = suc (counter_of job.job_id s.counters) in
    let others = without_counter job.job_id s.counters in
    if count == job.total_jobs
    then (Outcome.ok (record job { is_last_data = true }), record s { counters = others })
    else (Outcome.ok job, record s { counters = (job.job_id, count) ∷ others })

unfoldable pub field_of : Text → CredentialData → Option Text
field_of key [] = none
field_of key ((k, v) ∷ fields) = if same k key then some v else field_of key fields

-- `credential_data?.email_identifier`
abbrev pub email_of : Option CredentialData → Option Text
email_of none = none
email_of (some fields) = field_of email_identifier fields

-- Every field but the address; of no data there is none.
abbrev pub attributes_of : Option CredentialData → CredentialData
attributes_of none = []
attributes_of (some fields) = filter (λ f. not (same email_identifier f.0)) fields

abbrev indy : Text
indy = codes "indy"

abbrev w3c : Text
w3c = codes "w3c"

-- `orgDid?.includes('polygon')`
unfoldable pub is_prefix : Text → Text → Bool
is_prefix [] t = true
is_prefix (c ∷ p) [] = false
is_prefix (c ∷ p) (d ∷ t) = if c == d then is_prefix p t else false

unfoldable pub includes_text : Text → Text → Bool
unfolding is_prefix
includes_text p [] = is_prefix p []
includes_text p (d ∷ t) = if is_prefix p (d ∷ t) then true else includes_text p t

abbrev pub proof_type : (org_did : Text) → Text
proof_type org_did =
    if includes_text (codes "polygon") org_did
    then codes "EcdsaSecp256k1Signature2019"
    else codes "Ed25519Signature2018"

-- `createOobJsonldIssuancePayload`; its mail address is read from the data itself.
unfoldable pub create_oob_jsonld_issuance_payload :
    QueuePayload → OrgAgent → SchemaDetails → BulkAct Offer
create_oob_jsonld_issuance_payload job agent schema = non_null job.credential_data >>= λ fields.
    pure (
      jsonld_offer schema.name schema.schema_ledger_id agent.org_did job.org_id
        (proof_type agent.org_did) (attributes_of (some fields)) (email_of (some fields)) job.look
        job.is_validate_schema)

abbrev pub add_notice : Notice → BulkAct (Unit {0})
add_notice n s = (Outcome.ok tt, record s { notices = n ∷ s.notices })

abbrev pub final_status : ℕ → FileUploadStatus
final_status errors =
    if errors == 0 then FileUploadStatus.completed else FileUploadStatus.partially_completed

abbrev pub notify_completed : Bool → QueuePayload → BulkAct (Unit {0})
notify_completed true job = add_notice (retry_completed job.client_id job.file_upload_id)
notify_completed false job =
    add_notice (process_completed job.client_id job.file_upload_id)
    >> add_notice (dropped job.cache_id)

-- `if (!isErrorOccurred) { … socket.emit(…) }`
abbrev pub notify_error : Option Fault → QueuePayload → BulkAct (Unit {0})
notify_error none job = add_notice (process_error job.client_id job.file_upload_id)
notify_error (some _) job = pure tt

module _ (w : BulkServices) where
  unfoldable pub offer_payload : QueuePayload → OrgAgent → BulkAct Offer
  unfolding create_oob_jsonld_issuance_payload
  offer_payload job agent =
      if same job.credential_type indy
      then pure (
          indy_offer job.credential_definition_id job.org_id agent.org_name
            (attributes_of job.credential_data) (email_of job.credential_data))
      else if same job.credential_type w3c
      then (read (λ s. w.schema_details s job.schema_ledger_id) >>= λ found.
          non_null found >>= λ schema. create_oob_jsonld_issuance_payload job agent schema)
      else pure no_payload

  abbrev pub delete_if : Bool → QueuePayload → BulkAct (Option Fault)
  delete_if true job = delete_file_data_by_job_id w job.id >> pure none
  delete_if false job = pure none

  -- The `try` around the offer: the error that it ended with, if any.
  unfoldable pub offer_job : QueuePayload → OrgAgent → BulkAct (Option Fault)
  unfolding offer_payload
  offer_job job agent =
      catch (λ e. pure (some e))
        (do
          offer ← offer_payload job agent
          sent ← read (λ s. w.offered s offer job.look)
          delete_if sent job)

  -- What the last job does for the file.
  unfoldable pub complete_file : QueuePayload → BulkAct (Unit {0})
  complete_file job = do
    errors ← read (λ s. Outcome.ok (count_errors_for_file job.file_upload_id s))
    notify_completed job.is_retry job
    update_file_upload_details w job.file_upload_id (final_status errors)

  abbrev pub finish_if : Bool → QueuePayload → Option Fault → BulkAct (Unit {0})
  finish_if true job error = catch (λ e. notify_error error job >> throw e) (complete_file job)
  finish_if false job error = pure tt

  unfoldable pub record_job : QueuePayload → Option Fault → BulkAct (Unit {0})
  record_job job error =
      update_file_upload_data w job.id job.file_upload_id (email_of job.credential_data) error

  unfoldable pub process_issuance_data : QueuePayload → BulkAct Bool
  process_issuance_data payload = do
    job ← begin_job payload
    agent ← get_agent_end_point w job.org_id
    error ← offer_job job agent
    record_job job error
    finish_if job.is_last_data job error
    pure true

  -- The jobs one after the other; what one throws is not looked at.
  unfoldable pub run_jobs : List QueuePayload → BulkAct (Unit {0})
  run_jobs [] = pure tt
  run_jobs (job ∷ jobs) = start (process_issuance_data job) >>= λ _. run_jobs jobs
