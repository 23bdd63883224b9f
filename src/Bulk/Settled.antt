-- ===== src/Bulk/Settled.antt =====
-- What one job does when the database works: an exact description of `processIssuanceData`.
use confirmd_platform.Common.{
  ◌≢◌, ◌⊎◌, inl, inr, suc, ◌≡◌, refl, ap, ◌∙◌, Bool, true, false, ◌==◌, Option, none, some, List,
  [], ◌∷◌, ◌++◌, any, length, filter, Text, if◌then◌else◌, arith,
}
use confirmd_platform.Outcome.{Fault, Outcome, ok, err}
use confirmd_platform.Effect.{◌>>=◌}
use confirmd_platform.Bulk.{
  FileData, QueuePayload, Notice, process_completed, retry_completed, dropped, BulkStore, OrgAgent,
  Write, update_file_data, BulkServices, has_row_id, change_row, change_upload, is_failed,
  delivered, recorded, delete_file_data_by_job_id, update_data_row, update_file_upload_data,
  get_agent_end_point,
}
use confirmd_platform.Bulk.Job.{
  counter_of, begin_job, email_of, offer_payload, offer_job, record_job, final_status,
}

-- How the offer of a job ended.
pub data Answer : Type 0 where
  issued refused : Answer
  failed : Fault → Answer

abbrev pub error_of : Answer → Option Fault
error_of issued = none
error_of refused = none
error_of (failed e) = some e

-- What becomes of the row.
abbrev pub settle_row : QueuePayload → Answer → FileData → FileData
settle_row job issued r = record r {
  credential_data = none;
  status = true;
  error = none;
  is_error = some false;
  reference_id = email_of job.credential_data;
  file_upload_id = job.file_upload_id;
}
settle_row job refused r = record r {
  error = none;
  is_error = some false;
  reference_id = email_of job.credential_data;
  file_upload_id = job.file_upload_id;
}
settle_row job (failed e) r = record r {
  error = some e;
  is_error = some true;
  reference_id = email_of job.credential_data;
  file_upload_id = job.file_upload_id;
}

abbrev pub answer_from : Outcome Bool → Answer
answer_from (ok true) = issued
answer_from (ok false) = refused
answer_from (err e) = failed e

abbrev pub notices_of : QueuePayload → List Notice
notices_of job =
    if job.is_retry
    then retry_completed job.client_id job.file_upload_id ∷ []
    else dropped job.cache_id ∷ process_completed job.client_id job.file_upload_id ∷ []

-- The state in which the offer of a job is made: it is counted.
abbrev pub counted : QueuePayload → BulkStore → BulkStore
counted job s = (begin_job job s).1

abbrev pub last : QueuePayload → QueuePayload
last job = record job { is_last_data = true }

-- The row of a job changes.
abbrev pub row_changed : Text → (FileData → FileData) → BulkStore → BulkStore
row_changed id f s = record s { file_data = change_row id f s.file_data }

pub any_changed :
    (id key : Text) (f : FileData → FileData) (rows : List FileData)
    → ((r : FileData) → (f r).id ≡ r.id)
    → any (has_row_id id) (change_row key f rows) ≡ any (has_row_id id) rows
unfolding change_row
any_changed id key f [] h = refl
any_changed id key f (r ∷ rs) h = ground (arith, any_changed id key f rs h, h r)

change_row_twice :
    (id : Text) (f g : FileData → FileData) (rows : List FileData)
    → ((r : FileData) → (f r).id ≡ r.id)
    → change_row id g (change_row id f rows) ≡ change_row id (λ r. g (f r)) rows
unfolding change_row
change_row_twice id f g [] h = refl
change_row_twice id f g (r ∷ rs) h = ground (arith, change_row_twice id f g rs h, h r)

module _ (w : BulkServices) where
  -- The answer to a job from the state in which its offer is made.
  unfoldable pub answer_of : QueuePayload → OrgAgent → BulkStore → Answer
  answer_of job agent s = elim (offer_payload w job agent s).0 [
    | err e ↦ failed e
    | ok offer ↦ answer_from (w.offered s offer job.look)
  ]

  -- The state after a job with an answer.
  unfoldable pub settled_by : QueuePayload → Answer → BulkStore → BulkStore
  settled_by job a s =
      let rows = change_row job.id (settle_row job a) s.file_data in
      let t = counted job s in
      if suc (counter_of job.job_id s.counters) == job.total_jobs
      then record t {
        file_data = rows;
        file_uploads =
            change_upload job.file_upload_id
              (final_status (length (filter (is_failed job.file_upload_id) rows))) s.file_uploads;
        notices = notices_of job ++ s.notices;
      }
      else record t { file_data = rows }

  pub offer_payload-keeps :
      (job : QueuePayload) (agent : OrgAgent) (s : BulkStore) → (offer_payload w job agent s).1 ≡ s
  unfolding offer_payload
  offer_payload-keeps job agent s = ground arith

  -- The failures of the database are left out.
  abbrev pub IsWorking : Type 0
  IsWorking = (s : BulkStore) (op : Write) → w.failure s op ≡ none

  update_data_row-writes :
      (id : Text) (f : FileData → FileData) (s : BulkStore)
      → IsWorking
      → any (has_row_id id) s.file_data ≡ true
      → update_data_row w id f s ≡ (ok tt, row_changed id f s)
  unfolding update_data_row
  update_data_row-writes id f s k h = ground (arith, k s (update_file_data id))

  delete_file_data_by_job_id-writes :
      (id : Text) (s : BulkStore)
      → IsWorking
      → (id ≡ []) ⊎ (any (has_row_id id) s.file_data ≡ true)
      → id ≢ []
      → delete_file_data_by_job_id w id s ≡ (ok tt, row_changed id delivered s)
  delete_file_data_by_job_id-writes [] s k h n = absurd (n refl)
  delete_file_data_by_job_id-writes (c ∷ id) s k (inl e) n = cc
  delete_file_data_by_job_id-writes (c ∷ id) s k (inr h) n =
      update_data_row-writes (c ∷ id) delivered s k h

  record_job-writes :
      (job : QueuePayload) (id : Text) (e : Option Fault) (s : BulkStore)
      → IsWorking
      → any (has_row_id id) s.file_data ≡ true
      → id ≢ []
      → update_file_upload_data w id job.file_upload_id (email_of job.credential_data) e s
        ≡ (ok tt, row_changed id (recorded job.file_upload_id (email_of job.credential_data) e) s)
  unfolding update_file_upload_data
  record_job-writes job [] e s k h n = absurd (n refl)
  record_job-writes job (c ∷ id) e s k h n =
      update_data_row-writes (c ∷ id) (recorded job.file_upload_id (email_of job.credential_data) e)
        s k h

  abbrev after_offer : Answer → QueuePayload → BulkStore → BulkStore
  after_offer issued job s = row_changed job.id delivered s
  after_offer refused job s = s
  after_offer (failed e) job s = s

  offer_job-answers :
      (job : QueuePayload) (agent : OrgAgent) (s : BulkStore)
      → IsWorking
      → any (has_row_id job.id) s.file_data ≡ true
      → job.id ≢ []
      → offer_job w job agent s
        ≡ (ok (error_of (answer_of job agent s)), after_offer (answer_of job agent s) job s)
  unfolding offer_job answer_of
  offer_job-answers job agent s k h n =
      let p = offer_payload-keeps job agent s in
      let d = delete_file_data_by_job_id-writes job.id s k (inr h) n in ground arith

  pub answer_of-last :
      (job : QueuePayload) (agent : OrgAgent) (s : BulkStore)
      → answer_of (last job) agent s ≡ answer_of job agent s
  unfolding answer_of offer_payload
  answer_of-last job agent s = refl

  -- The row after the offer and the record of its result.
  after_recorded :
      (a : Answer) (job : QueuePayload) (s : BulkStore)
      → row_changed job.id
          (recorded job.file_upload_id (email_of job.credential_data) (error_of a))
          (after_offer a job s)
        ≡ row_changed job.id (settle_row job a) s
  after_recorded issued job s =
      ap (λ rows. record s { file_data = rows })
        (change_row_twice job.id delivered
          (recorded job.file_upload_id (email_of job.credential_data) none) s.file_data (λ r. refl))
  after_recorded refused job s = refl
  after_recorded (failed e) job s = refl

  after_offer-any :
      (a : Answer) (job : QueuePayload) (s : BulkStore)
      → any (has_row_id job.id) (after_offer a job s).file_data
        ≡ any (has_row_id job.id) s.file_data
  after_offer-any issued job s = any_changed job.id job.id delivered s.file_data (λ r. refl)
  after_offer-any refused job s = refl
  after_offer-any (failed e) job s = refl

  pub get_agent_end_point-finds :
      (agent : OrgAgent) (org_id : Text) (s : BulkStore)
      → w.org_agent s org_id ≡ ok (some agent)
      → get_agent_end_point w org_id s ≡ (ok agent, s)
  unfolding get_agent_end_point
  get_agent_end_point-finds agent org_id s h = ground arith

  -- The offer and the record of its result.
  pub offered_and_recorded :
      (job : QueuePayload) (agent : OrgAgent) (s : BulkStore)
      → IsWorking
      → any (has_row_id job.id) s.file_data ≡ true
      → job.id ≢ []
      → (offer_job w job agent >>= λ e. record_job w job e) s
        ≡ (ok tt, row_changed job.id (settle_row job (answer_of job agent s)) s)
  unfolding record_job
  offered_and_recorded job agent s k h n =
      let a = answer_of job agent s in
      let o = offer_job-answers job agent s k h n in
      let r =
        record_job-writes job job.id (error_of a) (after_offer a job s) k
          (after_offer-any a job s ∙ h) n in
      let f = after_recorded a job s in ground arith
