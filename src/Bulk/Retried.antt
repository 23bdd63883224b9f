-- ===== src/Bulk/Retried.antt =====
-- A retry: it does not offer again what was issued, and its jobs finish the file.
use confirmd_platform.Common.{
  Option-cases, append-nil, ◌≢◌, ◌≡◌, refl, sym, ap, ◌∙◌, subst, inl, inr, Bool, true, false, List,
  [], ◌∷◌, ◌++◌, map, filter, All, length, Text, same, same_iff, arith, Bool-cases, if◌then◌else◌,
}
use confirmd_platform.Bulk.{
  FileData, QueuePayload, BulkStore, OrgAgent, BulkServices, has_row_id, change_row, is_failed,
  get_failed_credentials,
}
use confirmd_platform.Bulk.Job.{process_issuance_data, run_jobs}
use confirmd_platform.Bulk.Settled.{issued, settle_row, IsWorking, counted, settled_by, answer_of}
use confirmd_platform.Bulk.Processed.{IsReady, process_issuance_data-settled_by}
use confirmd_platform.Bulk.Queue.{
  ClientDetails, job_of, retry_details, find_upload, retry_bulk_credential,
}
use confirmd_platform.Bulk.Queued.{List-cases, retry_bulk_credential-enqueued}
use confirmd_platform.Bulk.Kept.{rows_of, run_jobs-Keeps}

module _ {A : Type 0} (P : A → Type 0) (x : A) (xs : List A) where
  All-if : (b : Bool) → (b ≡ true → P x) → All P xs → All P (if b then x ∷ xs else xs)
  All-if true h a = (h refl, a)
  All-if false h a = a

  if-All : (b : Bool) → All P (if b then x ∷ xs else xs) → (b ≡ true → P x) × All P xs
  if-All true a = (λ _. a.0, a.1)
  if-All false a = (λ e. cc, a)

-- The rows of an id after its job was issued have not failed.
issued_rows :
    (f : Text) (job : QueuePayload) (rows : List FileData)
    → All
        (λ r. is_failed f r ≡ false)
        (rows_of job.id (change_row job.id (settle_row job issued) rows))
unfolding rows_of change_row
issued_rows f job [] = tt
issued_rows f job (r ∷ rs) = elim (Bool-cases (same r.id job.id)) [
  | inl e ↦ rw e (rw e (ground arith, issued_rows f job rs))
  | inr e ↦ rw e (rw e (issued_rows f job rs))
]

not_among :
    (f i : Text) (rows : List FileData)
    → All (λ r. is_failed f r ≡ false) (rows_of i rows)
    → All (λ (r : FileData). r.id ≢ i) (filter (is_failed f) rows)
unfolding rows_of
not_among f i [] h = tt
not_among f i (r ∷ rs) h =
    let (p, a) = if-All (λ x. is_failed f x ≡ false) r (rows_of i rs) (has_row_id i r) h in
    All-if (λ (x : FileData). x.id ≢ i) r (filter (is_failed f) rs) (is_failed f r)
      (λ e q. cc (e, p ((same_iff r.id i).1 q))) (not_among f i rs a)

All-jobs :
    (P : Text → Type 0) (job : FileData → QueuePayload)
    → ((r : FileData) → (job r).id ≡ r.id)
    → (rows : List FileData) → All (λ (r : FileData). P r.id) rows
    → All (λ (j : QueuePayload). P j.id) (map job rows)
All-jobs P job h [] a = tt
All-jobs P job h (r ∷ rs) a = (subst P (sym (h r)) a.0, All-jobs P job h rs a.1)

module _ (w : BulkServices) (works : IsWorking w) where
  -- The jobs that a retry adds are for rows that failed or were not offered.
  retry-adds :
      (P : Text → Type 0) (file_id org_id : Text) (client : ClientDetails) (v : Bool)
      (s : BulkStore)
      → All (λ (r : FileData). P r.id) (get_failed_credentials file_id s)
      → (added : List QueuePayload) × (((retry_bulk_credential w file_id org_id client v s).1.queue
            ≡ s.queue ++ added)
          × All (λ (j : QueuePayload). P j.id) added)
  unfolding retry_bulk_credential
  retry-adds P file_id org_id client v s a =
      elim (Option-cases (find_upload file_id s.file_uploads)) [
        | inl e ↦ ([], (ground (arith, append-nil s.queue), tt))
        | inr (u, e) ↦ elim (List-cases (get_failed_credentials file_id s)) [
          | inl z ↦ ([], (ground (arith, append-nil s.queue), tt))
          | inr (r, (rs, z)) ↦
              let job =
                job_of (w.new_uuid s) (retry_details client org_id v)
                  (length (get_failed_credentials file_id s)) in
              (
                map job (get_failed_credentials file_id s),
                (
                  ap (λ p. p.1.queue)
                      (retry_bulk_credential-enqueued w works file_id org_id client v s u e
                        (λ n. cc (n, z))),
                  All-jobs P job (λ x. refl) (get_failed_credentials file_id s) a,
                ),
              )
        ]
      ]

  -- Where no write to the database or the queue fails: if a job finds its row, its file and an agent
  -- of its organisation, has an id, is not marked as the last already, and its offer is taken, then, after any further jobs for other
  -- rows, no job that `retryBulkCredential` adds is for that row again.
  pub retry-skips_issued :
      (job : QueuePayload) (agent : OrgAgent) (s : BulkStore)
      → IsReady w job agent s
      → answer_of w job agent (counted job s) ≡ issued
      → (jobs : List QueuePayload) → All (λ (j : QueuePayload). j.id ≢ job.id) jobs
      → (file_id org_id : Text) (client : ClientDetails) (v : Bool)
      → let t = (run_jobs w (job ∷ jobs) s).1 in
        (added : List QueuePayload) × (((retry_bulk_credential w file_id org_id client v t).1.queue
            ≡ t.queue ++ added)
          × All (λ (j : QueuePayload). j.id ≢ job.id) added)
  unfolding run_jobs settled_by get_failed_credentials
  retry-skips_issued job agent s i e jobs h file_id org_id client v =
      let u = (process_issuance_data w job s).1 in
      let t = (run_jobs w jobs u).1 in
      let p = process_issuance_data-settled_by w job agent s works i in
      let rows : u.file_data ≡ change_row job.id (settle_row job issued) s.file_data =
        ground arith in
      let same_rows : rows_of job.id t.file_data ≡ rows_of job.id u.file_data =
        run_jobs-Keeps w job.id (rows_of job.id u.file_data) jobs u h refl in
      retry-adds (λ x. x ≢ job.id) file_id org_id client v t
        (not_among file_id job.id t.file_data (
          subst (All (λ r. is_failed file_id r ≡ false))
            (sym (same_rows ∙ ap (rows_of job.id) rows)) (issued_rows file_id job s.file_data)))
