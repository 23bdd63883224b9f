-- ===== src/Bulk/Kept.antt =====
-- A job leaves the rows of other ids alone, whatever fails.
use confirmd_platform.Common.{
  ◌≢◌, ◌≡◌, suc, inl, inr, ◌==◌, Bool-cases, refl, ◌∙◌, ap, Bool, true, false, Option, none, some,
  List, [], ◌∷◌, filter, All, Text, same_iff, arith,
}
use confirmd_platform.Outcome.{Fault, Outcome, ok, err}
use confirmd_platform.Effect.{◌>>=◌, read}
use confirmd_platform.Triple.{
  Ends, Triple, bind-Triple, pure-Triple, throw-Triple, catch-Triple, given-Triple,
}
use confirmd_platform.Bulk.{
  FileData, QueuePayload, BulkStore, BulkAct, OrgAgent, BulkServices, has_row_id, change_row,
  delivered, recorded, update_data_row, delete_file_data_by_job_id, update_file_upload_data,
  update_file_upload_details, get_agent_end_point,
}
use confirmd_platform.Bulk.Job.{
  counter_of, email_of, notify_error, begin_job, offer_payload, offer_job, delete_if, record_job,
  complete_file, finish_if, process_issuance_data, run_jobs,
}
use confirmd_platform.Bulk.Settled.{offer_payload-keeps}
use confirmd_platform.Bulk.Processed.{begin_job-last, begin_job-counts}

-- The rows of an id.
unfoldable pub rows_of : Text → List FileData → List FileData
rows_of id rows = filter (has_row_id id) rows

rows_of-change_row :
    (i key : Text) (f : FileData → FileData) (rows : List FileData)
    → ((r : FileData) → (f r).id ≡ r.id)
    → key ≢ i
    → rows_of i (change_row key f rows) ≡ rows_of i rows
unfolding rows_of change_row
rows_of-change_row i key f [] h n = refl
rows_of-change_row i key f (r ∷ rs) h n =
    ground
      (arith, rows_of-change_row i key f rs h n, h r, (same_iff r.id i), (same_iff r.id key), n)

module _ (w : BulkServices) (i : Text) (before : List FileData) where
  abbrev Same : BulkStore → Type 0
  Same s = rows_of i s.file_data ≡ before

  abbrev Keeps : {A : Type 0} → BulkAct A → Type 0
  Keeps m = Triple Same m (λ _. Same) Same

  Same-Ends : {A : Type 0} (q : Outcome A × BulkStore) → Same q.1 → Ends (λ _. Same) Same q
  Same-Ends (ok a, t) p = p
  Same-Ends (err e, t) p = p

  Ends-Same : {A : Type 0} (q : Outcome A × BulkStore) → Ends (λ _. Same) Same q → Same q.1
  Ends-Same (ok a, t) p = p
  Ends-Same (err e, t) p = p

  -- An action that leaves the table alone.
  quiet-Keeps :
      {A : Type 0} (m : BulkAct A) → ((s : BulkStore) → (m s).1.file_data ≡ s.file_data) → Keeps m
  quiet-Keeps m h = record { runs = λ s p. Same-Ends (m s) (ap (rows_of i) (h s) ∙ p) }

  then-Keeps :
      {A B : Type 0} {m : BulkAct A} {f : A → BulkAct B}
      → Keeps m
      → ((a : A) → Keeps (f a))
      → Keeps (m >>= f)
  then-Keeps h k = bind-Triple h k

  update_data_row-Keeps :
      (key : Text) (f : FileData → FileData)
      → ((r : FileData) → (f r).id ≡ r.id)
      → key ≢ i
      → Keeps (update_data_row w key f)
  unfolding update_data_row
  update_data_row-Keeps key f h n = record {
    runs = λ s p.
        Same-Ends (update_data_row w key f s)
          (let c = rows_of-change_row i key f s.file_data h n in ground arith);
  }

  delete-Keeps : (key : Text) → key ≢ i → Keeps (delete_file_data_by_job_id w key)
  delete-Keeps [] n = pure-Triple tt
  delete-Keeps (c ∷ key) n = update_data_row-Keeps (c ∷ key) delivered (λ r. refl) n

  record-Keeps :
      (key f : Text) (r : Option Text) (e : Option Fault)
      → key ≢ i
      → Keeps (update_file_upload_data w key f r e)
  unfolding update_file_upload_data
  record-Keeps [] f r e n = throw-Triple _
  record-Keeps (c ∷ key) f r e n = update_data_row-Keeps (c ∷ key) (recorded f r e) (λ x. refl) n

  delete_if-Keeps : (b : Bool) (job : QueuePayload) → job.id ≢ i → Keeps (delete_if w b job)
  delete_if-Keeps true job n = then-Keeps (delete-Keeps job.id n) (λ _. pure-Triple none)
  delete_if-Keeps false job n = pure-Triple none

  offer_job-Keeps :
      (job : QueuePayload) (agent : OrgAgent) → job.id ≢ i → Keeps (offer_job w job agent)
  unfolding offer_job
  offer_job-Keeps job agent n =
      catch-Triple
        (then-Keeps
          (quiet-Keeps (offer_payload w job agent)
            (λ s. ap (λ (t : BulkStore). t.file_data) (offer_payload-keeps w job agent s)))
          (λ offer.
            then-Keeps (quiet-Keeps (read (λ s. w.offered s offer job.look)) (λ s. refl))
              (λ sent. delete_if-Keeps sent job n)))
        (λ e. pure-Triple (some e))

  complete_file-Keeps : (job : QueuePayload) → Keeps (complete_file w job)
  unfolding complete_file update_file_upload_details
  complete_file-Keeps job = quiet-Keeps (complete_file w job) (λ s. ground arith)

  finish_if-Keeps : (b : Bool) (job : QueuePayload) (e : Option Fault) → Keeps (finish_if w b job e)
  finish_if-Keeps true job none =
      catch-Triple (complete_file-Keeps job)
        (λ f. then-Keeps (quiet-Keeps (notify_error none job) (λ s. refl)) (λ _. throw-Triple f))
  finish_if-Keeps true job (some e) =
      catch-Triple (complete_file-Keeps job)
        (λ f. then-Keeps (pure-Triple tt) (λ _. throw-Triple f))
  finish_if-Keeps false job e = pure-Triple tt

  begin_job-Keeps :
      (job : QueuePayload)
      → job.id ≢ i
      → Triple Same (begin_job job) (λ j s. Same s × (j.id ≢ i)) Same
  unfolding begin_job
  begin_job-Keeps job n = record {
    runs = λ s p. elim (Bool-cases (suc (counter_of job.job_id s.counters) == job.total_jobs)) [
      | inl e ↦ rw (begin_job-last job s e) (p, n)
      | inr e ↦ rw (begin_job-counts job s e) (p, n)
    ];
  }

  -- Whatever fails, a job keeps the rows of every id but its own.
  process_issuance_data-Keeps :
      (job : QueuePayload) → job.id ≢ i → Keeps (process_issuance_data w job)
  unfolding process_issuance_data get_agent_end_point record_job
  process_issuance_data-Keeps job n = bind-Triple (begin_job-Keeps job n) (λ j. given-Triple (λ m.
      then-Keeps (quiet-Keeps (get_agent_end_point w j.org_id) (λ s. ground arith)) (λ agent.
        then-Keeps (offer_job-Keeps j agent m) (λ e.
          then-Keeps (record-Keeps j.id j.file_upload_id (email_of j.credential_data) e m)
            (λ _. then-Keeps (finish_if-Keeps j.is_last_data j e) (λ _. pure-Triple true))))))

  pub run_jobs-Keeps :
      (jobs : List QueuePayload) (s : BulkStore)
      → All (λ (j : QueuePayload). j.id ≢ i) jobs
      → Same s
      → Same (run_jobs w jobs s).1
  unfolding run_jobs
  run_jobs-Keeps [] s h p = p
  run_jobs-Keeps (j ∷ jobs) s h p =
      run_jobs-Keeps jobs (process_issuance_data w j s).1 h.1
        (Ends-Same (process_issuance_data w j s) ((process_issuance_data-Keeps j h.0).runs s p))
