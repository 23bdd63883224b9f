-- ===== src/Bulk/Described.antt =====
-- What a job and a run do to the tables, in words of their own: no function of the service or the
-- repository is used to say it.
use confirmd_platform.Common.{
  ℕ, suc, ◌≡◌, ◌≢◌, refl, sym, ap, ◌∙◌, inl, inr, Bool, true, false, not, ◌&&◌, ◌||◌, ◌==◌, none,
  some, List, [], ◌∷◌, ◌++◌, map, filter, any, length, Text, same, if◌then◌else◌, arith, Bool-cases,
}
use confirmd_platform.Outcome.{ok}
use confirmd_platform.Bulk.{
  FileData, FileUpload, FileUploadStatus, QueuePayload, Notice, BulkStore, OrgAgent, BulkServices,
  change_row, change_upload, is_failed, get_failed_credentials, count_errors_for_file,
}
use confirmd_platform.Bulk.Job.{
  counter_of, without_counter, begin_job, final_status, process_issuance_data,
}
use confirmd_platform.Bulk.Settled.{
  Answer, settle_row, notices_of, counted, answer_of, settled_by, IsWorking,
}
use confirmd_platform.Bulk.Processed.{process_issuance_data-settled_by}
use confirmd_platform.Bulk.Finished.{settle_all, IsTaken}

-- The rows with this id change, and no others.
abbrev pub with_row : Text → (FileData → FileData) → List FileData → List FileData
with_row id f = map (λ r. if same r.id id then f r else r)

abbrev pub with_upload : Text → FileUploadStatus → List FileUpload → List FileUpload
with_upload id status = map (λ u. if same u.id id then record u { status = status } else u)

-- A row of the file that failed or was not issued.
abbrev pub remains : Text → FileData → Bool
remains file_id r =
    same r.file_upload_id file_id && (elim r.is_error [ none ↦ false | some e ↦ e ] || not r.status)

abbrev pub fitting_status : Text → List FileData → FileUploadStatus
fitting_status file_id rows =
    if any (remains file_id) rows
    then FileUploadStatus.partially_completed
    else FileUploadStatus.completed

-- The number kept under a key, 0 if there is none.
abbrev pub first_or_zero : List (Text × ℕ) → ℕ
first_or_zero [] = 0
first_or_zero ((k, n) ∷ cs) = n

abbrev pub count_in : Text → List (Text × ℕ) → ℕ
count_in k cs = first_or_zero (filter (λ c. same c.0 k) cs)

abbrev pub others : Text → List (Text × ℕ) → List (Text × ℕ)
others k cs = filter (λ c. not (same c.0 k)) cs

-- The state in which the offer of a job is made: the job is counted, and the counter of a run that
-- is complete is dropped.
abbrev pub counted_state : QueuePayload → BulkStore → BulkStore
counted_state job s =
    let n = suc (count_in job.job_id s.counters) in
    let rest = others job.job_id s.counters in
    record s { counters = if n == job.total_jobs then rest else (job.job_id, n) ∷ rest }

-- The state after the job: its row has the result, and if the run is complete, the file has the
-- status that fits its rows and the notices are sent.
abbrev pub described : QueuePayload → Answer → BulkStore → BulkStore
described job a s =
    let rows = with_row job.id (settle_row job a) s.file_data in
    let t = record (counted_state job s) { file_data = rows } in
    if suc (count_in job.job_id s.counters) == job.total_jobs
    then record t {
      file_uploads =
          with_upload job.file_upload_id (fitting_status job.file_upload_id rows) s.file_uploads;
      notices = notices_of job ++ s.notices;
    }
    else t

change_row-with_row :
    (id : Text) (f : FileData → FileData) (rows : List FileData)
    → change_row id f rows ≡ with_row id f rows
unfolding change_row
change_row-with_row id f [] = refl
change_row-with_row id f (r ∷ rs) = ground (arith, change_row-with_row id f rs)

pub change_upload-with_upload :
    (id : Text) (status : FileUploadStatus) (us : List FileUpload)
    → change_upload id status us ≡ with_upload id status us
unfolding change_upload
change_upload-with_upload id status [] = refl
change_upload-with_upload id status (u ∷ us) =
    ground (arith, change_upload-with_upload id status us)

pub counter_of-count_in : (k : Text) (cs : List (Text × ℕ)) → counter_of k cs ≡ count_in k cs
unfolding counter_of
counter_of-count_in k [] = refl
counter_of-count_in k ((j, n) ∷ cs) = ground (arith, counter_of-count_in k cs)

without_counter-others : (k : Text) (cs : List (Text × ℕ)) → without_counter k cs ≡ others k cs
unfolding without_counter
without_counter-others k [] = refl
without_counter-others k ((j, n) ∷ cs) = ground (arith, without_counter-others k cs)

final_status-fitting :
    (f : Text) (rows : List FileData)
    → final_status (length (filter (is_failed f) rows)) ≡ fitting_status f rows
final_status-fitting f [] = refl
final_status-fitting f (r ∷ rs) = ground (arith, final_status-fitting f rs)

counted-counted_state : (job : QueuePayload) (s : BulkStore) → counted job s ≡ counted_state job s
unfolding begin_job
counted-counted_state job s =
    ground (
      arith,
      counter_of-count_in job.job_id s.counters,
      without_counter-others job.job_id s.counters,
    )

module _ (w : BulkServices) where
  settled_by-described :
      (job : QueuePayload) (a : Answer) (s : BulkStore) → settled_by w job a s ≡ described job a s
  unfolding settled_by
  settled_by-described job a s =
      let c = counted-counted_state job s in
      let n = counter_of-count_in job.job_id s.counters in
      let rows = change_row-with_row job.id (settle_row job a) s.file_data in
      let done = with_row job.id (settle_row job a) s.file_data in
      let f = final_status-fitting job.file_upload_id done in
      let u =
        change_upload-with_upload job.file_upload_id (fitting_status job.file_upload_id done)
          s.file_uploads in
      elim (Bool-cases (suc (count_in job.job_id s.counters) == job.total_jobs)) [
        | inl e ↦ ground (arith, c, n, rows, f, u, e)
        | inr e ↦ ground (arith, c, n, rows, e)
      ]

  -- The tables in which a job finds its row and its file, and an organisation with an agent.
  pub record IsAtHand (job : QueuePayload) (agent : OrgAgent) (s : BulkStore) : Type 0 where
    pub row_there : any (λ (r : FileData). same r.id job.id) s.file_data ≡ true
    pub file_there : any (λ (u : FileUpload). same u.id job.file_upload_id) s.file_uploads ≡ true
    pub agent_there : w.org_agent (counted_state job s) job.org_id ≡ ok (some agent)
    pub named : job.id ≢ []
    pub queued : job.is_last_data ≡ false

  -- Where no write to the database fails, and the row of the job, its file and an agent of the
  -- organisation are there, the job has an id and is not marked as the last already:
  -- `processIssuanceData` returns true, counts the job, and writes to the rows with its id, and to no
  -- others, whether the offer was taken and with what error it ended. If the job completes the
  -- count, the file becomes completed if no row of it is left that failed or was not issued, and
  -- partially completed otherwise, the counter is dropped and the notices are sent. Nothing else
  -- changes.
  pub process_issuance_data-settled :
      (job : QueuePayload) (agent : OrgAgent) (s : BulkStore)
      → IsWorking w
      → IsAtHand job agent s
      → process_issuance_data w job s
        ≡ (ok true, described job (answer_of w job agent (counted_state job s)) s)
  process_issuance_data-settled job agent s works i =
      let c = counted-counted_state job s in
      process_issuance_data-settled_by w job agent s works (record {
        row_there = i.row_there;
        file_there = i.file_there;
        agent_there = ap (λ t. w.org_agent t job.org_id) c ∙ i.agent_there;
        named = i.named;
        queued = i.queued;
      })
      ∙ ap (λ t. (ok true, t)) (settled_by-described job (answer_of w job agent (counted job s)) s)
      ∙ ap (λ t. (ok true, described job (answer_of w job agent t) s)) c

-- Each job gives its row the result of its answer.
unfoldable pub with_rows : List QueuePayload → List Answer → List FileData → List FileData
with_rows [] bs rows = rows
with_rows (j ∷ js) [] rows = rows
with_rows (j ∷ js) (b ∷ bs) rows = with_rows js bs (with_row j.id (settle_row j b) rows)

settle_all-with_rows :
    (jobs : List QueuePayload) (answers : List Answer) (rows : List FileData)
    → settle_all jobs answers rows ≡ with_rows jobs answers rows
unfolding settle_all with_rows
settle_all-with_rows [] bs rows = refl
settle_all-with_rows (j ∷ js) [] rows = refl
settle_all-with_rows (j ∷ js) (b ∷ bs) rows =
    ap (settle_all js bs) (change_row-with_row j.id (settle_row j b) rows)
    ∙ settle_all-with_rows js bs (with_row j.id (settle_row j b) rows)

-- The jobs of a run, for these rows, have been taken: the counter is gone, each job has an answer,
-- which its row shows, the notices are sent, and the status of the file fits the rows.
pub record IsFinished (ids : List Text) (jobs : List QueuePayload) (k f : Text) (sent : List Notice)
    (s t : BulkStore) : Type 0 where
  pub for_rows : map (λ (j : QueuePayload). j.id) jobs ≡ ids
  pub no_counter : count_in k t.counters ≡ 0
  pub answers : List Answer
  pub all_answered : length answers ≡ length jobs
  pub rows_settled : t.file_data ≡ with_rows jobs answers s.file_data
  pub told : t.notices ≡ sent ++ s.notices
  pub status_fits : t.file_uploads ≡ with_upload f (fitting_status f t.file_data) s.file_uploads

pub taken-IsFinished :
    (ids : List Text) (jobs : List QueuePayload) (k f : Text) (sent : List Notice) (s t : BulkStore)
    → map (λ (j : QueuePayload). j.id) jobs ≡ ids
    → IsTaken jobs k f sent s t
    → IsFinished ids jobs k f sent s t
unfolding count_errors_for_file get_failed_credentials
taken-IsFinished ids jobs k f sent s t e h = record {
  for_rows = e;
  no_counter = sym (counter_of-count_in k t.counters) ∙ h.no_counter;
  answers = h.answers;
  all_answered = h.all_answered;
  rows_settled = h.rows_settled ∙ settle_all-with_rows jobs h.answers s.file_data;
  told = h.told;
  status_fits =
      h.status_fits
      ∙ ap (λ c. change_upload f c s.file_uploads) (final_status-fitting f t.file_data)
      ∙ change_upload-with_upload f (fitting_status f t.file_data) s.file_uploads;
}
