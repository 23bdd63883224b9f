-- ===== src/Bulk/Processed.antt =====
-- `processIssuanceData` meets its exact description, when the database works.
use confirmd_platform.Common.{
  ◌≢◌, inl, inr, suc, ◌≡◌, ap, ◌∷◌, true, false, ◌==◌, some, [], ◌++◌, any, Text, same, arith,
  Bool-cases,
}
use confirmd_platform.Outcome.{ok}
use confirmd_platform.Bulk.{
  FileUpload, QueuePayload, BulkStore, OrgAgent, update_file_upload, BulkServices, FileUploadStatus,
  has_row_id, change_upload, update_file_upload_details, count_errors_for_file,
}
use confirmd_platform.Bulk.Job.{
  counter_of, without_counter, begin_job, final_status, complete_file, process_issuance_data,
}
use confirmd_platform.Bulk.Settled.{
  answer_of, counted, settled_by, settle_row, IsWorking, last, answer_of-last, row_changed,
  notices_of, get_agent_end_point-finds, offered_and_recorded,
}

pub begin_job-last :
    (job : QueuePayload) (s : BulkStore)
    → (suc (counter_of job.job_id s.counters) == job.total_jobs) ≡ true
    → begin_job job s
      ≡ (ok (last job), record s { counters = without_counter job.job_id s.counters })
unfolding begin_job
begin_job-last job s e = ground arith

pub begin_job-counts :
    (job : QueuePayload) (s : BulkStore)
    → (suc (counter_of job.job_id s.counters) == job.total_jobs) ≡ false
    → begin_job job s ≡ (
      ok job,
      record s {
        counters =
            (job.job_id, suc (counter_of job.job_id s.counters))
            ∷ without_counter job.job_id s.counters;
      },
    )
unfolding begin_job
begin_job-counts job s e = ground arith

module _ (w : BulkServices) where
  pub update_file_upload_details-writes :
      (id : Text) (status : FileUploadStatus) (s : BulkStore)
      → IsWorking w
      → any (λ (u : FileUpload). same u.id id) s.file_uploads ≡ true
      → update_file_upload_details w id status s
        ≡ (ok tt, record s { file_uploads = change_upload id status s.file_uploads })
  unfolding update_file_upload_details
  update_file_upload_details-writes id status s k h = ground (arith, k s (update_file_upload id))

  complete_file-completes :
      (job : QueuePayload) (s : BulkStore)
      → IsWorking w
      → any (λ (u : FileUpload). same u.id job.file_upload_id) s.file_uploads ≡ true
      → complete_file w job s ≡ (
        ok tt,
        record s {
          file_uploads =
              change_upload job.file_upload_id
                (final_status (count_errors_for_file job.file_upload_id s))
                s.file_uploads;
          notices = notices_of job ++ s.notices;
        },
      )
  unfolding complete_file
  complete_file-completes job s k h = elim (Bool-cases job.is_retry) [
    | inl r ↦
        let t = record s { notices = notices_of job ++ s.notices } in
        let u =
          update_file_upload_details-writes job.file_upload_id
            (final_status (count_errors_for_file job.file_upload_id s)) t k h in
        ground arith
    | inr r ↦
        let t = record s { notices = notices_of job ++ s.notices } in
        let u =
          update_file_upload_details-writes job.file_upload_id
            (final_status (count_errors_for_file job.file_upload_id s)) t k h in
        ground arith
  ]

  -- The tables in which a job finds its row and its file, and an organisation with an agent.
  pub record IsReady (job : QueuePayload) (agent : OrgAgent) (s : BulkStore) : Type 0 where
    pub row_there : any (has_row_id job.id) s.file_data ≡ true
    pub file_there : any (λ (u : FileUpload). same u.id job.file_upload_id) s.file_uploads ≡ true
    pub agent_there : w.org_agent (counted job s) job.org_id ≡ ok (some agent)
    pub named : job.id ≢ []
    pub queued : job.is_last_data ≡ false

  pub process_issuance_data-settled_by :
      (job : QueuePayload) (agent : OrgAgent) (s : BulkStore)
      → IsWorking w
      → IsReady job agent s
      → process_issuance_data w job s
        ≡ (ok true, settled_by w job (answer_of w job agent (counted job s)) s)
  unfolding process_issuance_data settled_by count_errors_for_file
  process_issuance_data-settled_by job agent s k i =
      elim (Bool-cases (suc (counter_of job.job_id s.counters) == job.total_jobs)) [
        | inl e ↦
            let j = last job in
            let t = record s { counters = without_counter job.job_id s.counters } in
            let b = begin_job-last job s e in
            let a = answer_of w job agent t in
            let g =
              get_agent_end_point-finds w agent job.org_id t
                (rw (← ap (λ p. p.1) b) i.agent_there) in
            let l = answer_of-last w job agent t in
            let o = offered_and_recorded w j agent t k i.row_there i.named in
            let c =
              complete_file-completes j (row_changed job.id (settle_row job a) t) k i.file_there in
            ground arith
        | inr e ↦
            let t = record s {
              counters =
                  (job.job_id, suc (counter_of job.job_id s.counters))
                  ∷ without_counter job.job_id s.counters;
            } in
            let b = begin_job-counts job s e in
            let g =
              get_agent_end_point-finds w agent job.org_id t
                (rw (← ap (λ p. p.1) b) i.agent_there) in
            let o = offered_and_recorded w job agent t k i.row_there i.named in ground arith
      ]
