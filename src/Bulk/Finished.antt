-- ===== src/Bulk/Finished.antt =====
-- A whole run of a bulk issuance: its jobs one after the other.
use confirmd_platform.Common.{
  ◌≢◌, ◌∙◌, ℕ, suc, ◌+◌, ◌≤◌, ◌≡◌, refl, sym, ap, subst, true, some, List, [], ◌∷◌, ◌++◌, map, any,
  All, length, Text, same, same_refl, arith, if◌then◌else◌,
}
use confirmd_platform.Outcome.{ok}
use confirmd_platform.Bulk.{
  FileData, FileUpload, QueuePayload, Notice, process_completed, retry_completed, dropped,
  BulkStore, OrgAgent, BulkServices, has_row_id, change_row, change_upload, count_errors_for_file,
  get_failed_credentials,
}
use confirmd_platform.Bulk.Job.{counter_of, without_counter, final_status, run_jobs}
use confirmd_platform.Bulk.Settled.{
  Answer, settle_row, IsWorking, counted, settled_by, answer_of, any_changed,
}
use confirmd_platform.Bulk.Processed.{
  process_issuance_data-settled_by, begin_job-counts, begin_job-last,
}
use confirmd_platform.Bulk.Queue.{BulkPayloadDetails, job_of}

counter_of-without_counter :
    (k : Text) (cs : List (Text × ℕ)) → counter_of k (without_counter k cs) ≡ 0
unfolding counter_of without_counter
counter_of-without_counter k [] = refl
counter_of-without_counter k ((j, n) ∷ cs) = ground (arith, counter_of-without_counter k cs)

-- Each job gives its row the result of its answer.
unfoldable pub settle_all : List QueuePayload → List Answer → List FileData → List FileData
settle_all [] bs rows = rows
settle_all (j ∷ js) [] rows = rows
settle_all (j ∷ js) (b ∷ bs) rows = settle_all js bs (change_row j.id (settle_row j b) rows)

-- A row that a job of the file `f` can be made for.
abbrev pub IsRow : Text → List FileData → FileData → Type 0
IsRow f table r = (any (has_row_id r.id) table ≡ true) × ((r.id ≢ []) × (r.file_upload_id ≡ f))

IsRow-kept :
    (f key : Text) (g : FileData → FileData) (table rows : List FileData)
    → ((r : FileData) → (g r).id ≡ r.id)
    → All (IsRow f table) rows
    → All (IsRow f (change_row key g table)) rows
IsRow-kept f key g table [] h a = tt
IsRow-kept f key g table (r ∷ rows) h a = (
  (any_changed r.id key g table h ∙ a.0.0, (a.0.1.0, a.0.1.1)),
  IsRow-kept f key g table rows h a.1,
)

-- The jobs of a run have been taken: the counter is gone, each job has an answer, which its row
-- shows, the notice is sent, and the status of the file fits the rows.
pub record IsTaken (jobs : List QueuePayload) (k f : Text) (sent : List Notice) (s t : BulkStore)
    : Type 0 where
  pub no_counter : counter_of k t.counters ≡ 0
  pub answers : List Answer
  pub all_answered : length answers ≡ length jobs
  pub rows_settled : t.file_data ≡ settle_all jobs answers s.file_data
  pub told : t.notices ≡ sent ++ s.notices
  pub status_fits :
      t.file_uploads ≡ change_upload f (final_status (count_errors_for_file f t)) s.file_uploads

settle_row-id : (j : QueuePayload) (a : Answer) (r : FileData) → (settle_row j a r).id ≡ r.id
settle_row-id j Answer.issued r = refl
settle_row-id j Answer.refused r = refl
settle_row-id j (Answer.failed e) r = refl

module _ (w : BulkServices) (works : IsWorking w) (k f : Text) (d : BulkPayloadDetails) (n : ℕ)
    (agent : (t : BulkStore) → (a : OrgAgent) × (w.org_agent t d.org_id ≡ ok (some a))) where
  abbrev job : FileData → QueuePayload
  job = job_of k d n

  -- What the client is told at the end of the run.
  abbrev pub farewell : List Notice
  farewell =
      if d.is_retry
      then retry_completed d.client_id f ∷ []
      else dropped d.request_id ∷ process_completed d.client_id f ∷ []

  abbrev pub HasFile : BulkStore → Type 0
  HasFile s = any (λ (u : FileUpload). same u.id f) s.file_uploads ≡ true

  abbrev result : FileData → BulkStore → BulkStore
  result r s =
      settled_by w (job r) (answer_of w (job r) (agent (counted (job r) s)).0 (counted (job r) s)) s

  job-settled_by :
      (r : FileData) (s : BulkStore)
      → IsRow f s.file_data r
      → HasFile s
      → run_jobs w (job r ∷ []) s ≡ (ok tt, result r s)
  unfolding run_jobs
  job-settled_by r s h file =
      let e = agent (counted (job r) s) in
      let p = process_issuance_data-settled_by w (job r) e.0 s works (record {
        row_there = h.0;
        file_there = ground arith;
        agent_there = e.1;
        named = h.1.0;
        queued = refl;
      }) in
      ground arith

  run_jobs-cons :
      (r : FileData) (jobs : List QueuePayload) (s : BulkStore)
      → IsRow f s.file_data r
      → HasFile s
      → run_jobs w (job r ∷ jobs) s ≡ run_jobs w jobs (result r s)
  unfolding run_jobs
  run_jobs-cons r jobs s h file = let p = job-settled_by r s h file in ground arith

  -- Before the last job, only the counter and the row change.
  result-counts :
      (r : FileData) (s : BulkStore)
      → suc (suc (counter_of k s.counters)) ≤ n
      → result r s ≡ record s {
        counters = (k, suc (counter_of k s.counters)) ∷ without_counter k s.counters;
        file_data =
            change_row r.id
              (settle_row
                (job r)
                (answer_of w (job r) (agent (counted (job r) s)).0 (counted (job r) s)))
              s.file_data;
      }
  unfolding settled_by
  result-counts r s h = let b = begin_job-counts (job r) s (ground arith) in ground arith

  result-last :
      (r : FileData) (s : BulkStore)
      → suc (counter_of k s.counters) ≡ n
      → r.file_upload_id ≡ f
      → IsTaken (job r ∷ []) k f farewell s (result r s)
  unfolding settled_by count_errors_for_file get_failed_credentials settle_all
  result-last r s h e =
      let b = begin_job-last (job r) s (ground arith) in
      let a = answer_of w (job r) (agent (counted (job r) s)).0 (counted (job r) s) in
      let z = counter_of-without_counter k s.counters in
      record {
        no_counter = ground arith;
        answers = a ∷ [];
        all_answered = refl;
        rows_settled = ground arith;
        told = ground arith;
        status_fits = ground arith;
      }

  counter_of-head : (c : ℕ) (cs : List (Text × ℕ)) → counter_of k ((k, c) ∷ cs) ≡ c
  unfolding counter_of
  counter_of-head c cs = ground (arith, same_refl k)

  -- If the database works, the organisation has an agent, and each of at least one row is in the
  -- table and of the file, then the jobs of these rows, with a counter that fits, are taken to the
  -- end: each is answered and its row shows the answer, the client is told once, and the status of
  -- the file is completed exactly when no row of it is left that failed or was not offered.
  pub run_jobs-IsTaken :
      (rows : List FileData) (s : BulkStore)
      → rows ≢ []
      → counter_of k s.counters + length rows ≡ n
      → All (IsRow f s.file_data) rows
      → HasFile s
      → IsTaken (map job rows) k f farewell s (run_jobs w (map job rows) s).1
  unfolding change_row settle_all
  run_jobs-IsTaken [] s z c h file = absurd (z refl)
  run_jobs-IsTaken (r ∷ []) s z c h file =
      subst (λ p. IsTaken (job r ∷ []) k f farewell s p.1) (sym (job-settled_by r s h.0 file))
        (result-last r s (omega arith) h.0.1.1)
  run_jobs-IsTaken (r ∷ r' ∷ rs) s z c h file =
      let a = answer_of w (job r) (agent (counted (job r) s)).0 (counted (job r) s) in
      let t = record s {
        counters = (k, suc (counter_of k s.counters)) ∷ without_counter k s.counters;
        file_data = change_row r.id (settle_row (job r) a) s.file_data;
      } in
      let c' = counter_of-head (suc (counter_of k s.counters)) (without_counter k s.counters) in
      let i =
        run_jobs-IsTaken (r' ∷ rs) t (λ e. cc e) (omega arith)
          (IsRow-kept f r.id (settle_row (job r) a) s.file_data (r' ∷ rs) (settle_row-id (job r) a)
            h.1)
          file in
      subst (λ p. IsTaken (map job (r ∷ r' ∷ rs)) k f farewell s p.1)
        (sym (
          run_jobs-cons r (map job (r' ∷ rs)) s h.0 file
          ∙ ap (λ u. run_jobs w (map job (r' ∷ rs)) u) (result-counts r s (omega arith))))
        (record {
          no_counter = i.no_counter;
          answers = a ∷ i.answers;
          all_answered = ap suc i.all_answered;
          rows_settled = i.rows_settled;
          told = i.told;
          status_fits = i.status_fits;
        })
