-- ===== src/Bulk/Examples.antt =====
-- A file with two rows: the theorems on a bulk issuance there, and what happens when two jobs run
-- at the same time.
use confirmd_platform.Common.{
  ◌≡◌, ◌≢◌, refl, ◌++◌, false, true, none, some, List, [], ◌∷◌, map, All, arith, same, Text, codes,
}
use confirmd_platform.Outcome.{ok}
use confirmd_platform.Effect.{◌>>=◌, ◌>>◌, pure}
use confirmd_platform.Bulk.{
  FileData, FileUpload, FileUploadStatus, Look, QueuePayload, BulkStore, BulkAct, OrgAgent,
  BulkServices, CachedFile, update_data_row, update_file_upload_data, change_row,
  update_file_upload_details, change_upload, count_errors_for_file,
}
use confirmd_platform.Bulk.Job.{
  complete_file, offer_payload, begin_job, offer_job, record_job, finish_if, process_issuance_data,
  run_jobs,
}
use confirmd_platform.Bulk.Settled.{answer_of, IsWorking}
use confirmd_platform.Bulk.Processed.{IsReady}
use confirmd_platform.Bulk.Queue.{
  ClientDetails, issue_bulk_credential, retry_bulk_credential, job_of, retry_details,
}
use confirmd_platform.Bulk.Described.{
  described, counted_state, IsAtHand, process_issuance_data-settled,
}
use confirmd_platform.Bulk.Issued.{IsStarted, issue_bulk_credential-IsStarted}
use confirmd_platform.Bulk.Retried.{retry-skips_issued}

abbrev row : Text → FileData
row id = record {
  id = id;
  reference_id = none;
  is_error = some false;
  error = none;
  file_upload_id = codes "f1";
  schema_id = codes "s1";
  cred_def_id = codes "c1";
  status = false;
  credential_data =
      some ((codes "email_identifier", codes "a@b") ∷ (codes "name", codes "Ann") ∷ []);
  credential_type = codes "indy";
}

abbrev file : FileUpload
file = record {
  id = codes "f1";
  name = codes "members.csv";
  status = FileUploadStatus.started;
  org_id = codes "o1";
  credential_type = codes "indy";
  template_id = codes "s1";
}

abbrev tables : BulkStore
tables = record {
  counters = [];
  file_data = row (codes "r1") ∷ row (codes "r2") ∷ [];
  file_uploads = file ∷ [];
  queue = [];
  notices = [];
}

abbrev agent : OrgAgent
agent = record { org_name = codes "Org"; org_did = codes "did:indy:x" }

-- Every offer is taken.
abbrev services : BulkServices
services = record {
  org_agent = λ s id. ok (some agent);
  schema_details = λ s id. ok none;
  offered = λ s o l. ok true;
  failure = λ s op. none;
  new_uuid = λ s. codes "j1";
  new_row_id = λ s. codes "r3";
  cached_file = λ s id. ok none;
  uploaded_template = λ s id. ok tt;
}

abbrev look : Look
look = record {
  organization_logo_url = none;
  platform_name = none;
  certificate = none;
  size = none;
  orientation = none;
  height = none;
  width = none;
}

abbrev client : ClientDetails
client = record {
  client_id = codes "c1";
  user_id = codes "u1";
  is_selective_issuance = false;
  look = look;
}

abbrev job : Text → QueuePayload
job id = job_of (codes "j1") (retry_details client (codes "o1") true) 2 (row id)

services-IsWorking : IsWorking services
services-IsWorking s op = refl

first-IsReady : IsReady services (job (codes "r1")) agent tables
unfolding begin_job same
first-IsReady = record {
  row_there = refl;
  file_there = refl;
  agent_there = refl;
  named = cc;
  queued = refl;
}

first-IsAtHand : IsAtHand services (job (codes "r1")) agent tables
unfolding same
first-IsAtHand = record {
  row_there = refl;
  file_there = refl;
  agent_there = refl;
  named = cc;
  queued = refl;
}

process_issuance_data-settled_example : process_issuance_data services (job (codes "r1")) tables ≡ (
  ok true,
  described
      (job (codes "r1"))
      (answer_of services (job (codes "r1")) agent (counted_state (job (codes "r1")) tables))
      tables,
)
process_issuance_data-settled_example =
    process_issuance_data-settled services (job (codes "r1")) agent tables services-IsWorking
      first-IsAtHand

apart : codes "r2" ≢ codes "r1"
apart = ground arith

abbrev after_both : BulkStore
after_both = (run_jobs services (job (codes "r1") ∷ job (codes "r2") ∷ []) tables).1

retry-skips_issued_example :
    (added : List QueuePayload) × (((retry_bulk_credential services
          (codes "f1")
          (codes "o1")
          client
          true
          after_both).1.queue
        ≡ after_both.queue ++ added)
      × All (λ (j : QueuePayload). j.id ≢ codes "r1") added)
unfolding answer_of offer_payload same
retry-skips_issued_example =
    retry-skips_issued services services-IsWorking (job (codes "r1")) agent tables first-IsReady
      refl (job (codes "r2") ∷ []) (apart, tt) (codes "f1") (codes "o1") client true

abbrev cached : CachedFile
cached = record {
  rows = some (((codes "email_identifier", codes "c@d") ∷ []) ∷ []);
  file_name = codes "new.csv";
  credential_type = codes "indy";
  schema_ledger_id = codes "s1";
  credential_definition_id = codes "c1";
}

abbrev with_cache : BulkServices
with_cache = record {
  org_agent = services.org_agent;
  schema_details = services.schema_details;
  offered = services.offered;
  failure = services.failure;
  new_uuid = services.new_uuid;
  new_row_id = services.new_row_id;
  cached_file = λ s id. ok (some cached);
  uploaded_template = services.uploaded_template;
}

with_cache-IsWorking : IsWorking with_cache
with_cache-IsWorking s op = refl

issue_bulk_credential-IsStarted_example :
    ((issue_bulk_credential with_cache (codes "q1") (codes "o1") client true tables).0 ≡ ok tt)
    × IsStarted with_cache cached
        (((codes "email_identifier", codes "c@d") ∷ []) ∷ [])
        (codes "o1")
        (codes "q1")
        client
        true
        tables
        (issue_bulk_credential with_cache (codes "q1") (codes "o1") client true tables).1
unfolding same
issue_bulk_credential-IsStarted_example =
    issue_bulk_credential-IsStarted with_cache with_cache-IsWorking b'q' (codes "1") (codes "o1")
      client true tables cached (((codes "email_identifier", codes "c@d") ∷ []) ∷ []) refl refl refl
      refl

-- Two jobs at the same time: the second is counted as the last and finishes the file before the
-- first has its answer.
abbrev overlapping : BulkAct QueuePayload
overlapping = do
  first ← begin_job (job (codes "r1"))
  second ← begin_job (job (codes "r2"))
  e ← offer_job services second agent
  record_job services second e
  finish_if services second.is_last_data second e
  e' ← offer_job services first agent
  record_job services first e'
  finish_if services first.is_last_data first e'
  pure first

-- Both rows are issued, and the file stays partially completed.
overlapping_test :
    (map (λ (r : FileData). r.status) (overlapping tables).1.file_data ≡ true ∷ true ∷ [])
    × (map (λ (u : FileUpload). u.status) (overlapping tables).1.file_uploads
        ≡ FileUploadStatus.partially_completed ∷ [])
unfolding begin_job same offer_job update_data_row record_job update_file_upload_data change_row
    complete_file update_file_upload_details change_upload count_errors_for_file
overlapping_test = (refl, refl)
