-- ===== src/Bulk/Issued.antt =====
-- What `issueBulkCredential` stores and queues.
use confirmd_platform.Common.{
  ℕ, ◌≡◌, refl, sym, ap, ◌∙◌, subst, Bool, true, false, none, some, List, [], ◌∷◌, ◌++◌, map, any,
  filter, append-nil, append_assoc, length, Text, same, same_refl, arith,
}
use confirmd_platform.Outcome.{Outcome, ok}
use confirmd_platform.Effect.{◌>>=◌, lift, for_each}
use confirmd_platform.Issuance.{batch_size, first_failure}
use confirmd_platform.Issuance.Batches.{concat}
use confirmd_platform.Bulk.{
  QueuePayload, CredentialData, FileData, FileUpload, FileUploadStatus, BulkStore, CachedFile,
  create_file_data, create_file_upload, BulkServices, change_upload,
}
use confirmd_platform.Bulk.Settled.{IsWorking}
use confirmd_platform.Bulk.Described.{with_upload, change_upload-with_upload}
use confirmd_platform.Bulk.Processed.{update_file_upload_details-writes}
use confirmd_platform.Bulk.Queue.{
  BulkPayloadDetails, ClientDetails, job_of, issue_details, new_row, new_upload, create_batches,
  get_file_details, save_file_details, save_all, store_rows, load_file, save_file_upload_details,
  store_and_queue, issue_bulk_credential,
}
use confirmd_platform.Bulk.Queued.{create_batches-concat, enqueued, process_in_batches-enqueued}

-- A row of the file as it is stored: its fields, no error, not issued.
abbrev pub stored_row : (id file_upload_id : Text) → CachedFile → CredentialData → FileData
stored_row id file_upload_id file fields = record {
  id = id;
  reference_id = none;
  is_error = some false;
  error = none;
  file_upload_id = file_upload_id;
  schema_id = file.schema_ledger_id;
  cred_def_id = file.credential_definition_id;
  status = false;
  credential_data = some fields;
  credential_type = file.credential_type;
}

-- The job of a row, with the row's fields and the number of all jobs.
abbrev pub job_for :
    (uuid org_id request_id : Text)
    → ClientDetails
    → (is_validate_schema : Bool) → ℕ
    → FileData
    → QueuePayload
job_for uuid org_id request_id client v total r = record {
  id = r.id;
  job_id = uuid;
  cache_id = some request_id;
  is_validate_schema = v;
  client_id = client.client_id;
  reference_id = r.reference_id;
  file_upload_id = r.file_upload_id;
  schema_ledger_id = r.schema_id;
  credential_definition_id = r.cred_def_id;
  status = r.status;
  credential_data = r.credential_data;
  org_id = org_id;
  credential_type = r.credential_type;
  total_jobs = total;
  is_retry = false;
  is_last_data = false;
  look = client.look;
}

-- The new rows hold the fields of the file, in order; only the ids are the database's.
abbrev pub AreNew : Text → CachedFile → List CredentialData → List FileData → Type 0
AreNew f file [] [] = Unit {0}
AreNew f file [] (r ∷ rs) = ⊥
AreNew f file (x ∷ xs) [] = ⊥
AreNew f file (x ∷ xs) (r ∷ rs) = (r ≡ stored_row r.id f file x) × AreNew f file xs rs

AreNew-append :
    (f : Text) (file : CachedFile) (xs ys : List CredentialData) (rs qs : List FileData)
    → AreNew f file xs rs
    → AreNew f file ys qs
    → AreNew f file (xs ++ ys) (rs ++ qs)
AreNew-append f file [] ys [] qs a b = b
AreNew-append f file [] ys (r ∷ rs) qs a b = absurd a
AreNew-append f file (x ∷ xs) ys [] qs a b = absurd a
AreNew-append f file (x ∷ xs) ys (r ∷ rs) qs a b = (a.0, AreNew-append f file xs ys rs qs a.1 b)

abbrev pub stored : List FileData → BulkStore → BulkStore
stored rows s = record s { file_data = s.file_data ++ rows }

stored-stored :
    (xs ys : List FileData) (s : BulkStore) → stored ys (stored xs s) ≡ stored (xs ++ ys) s
stored-stored xs ys s = ap (λ rows. record s { file_data = rows }) (append_assoc s.file_data xs ys)

module _ (w : BulkServices) (works : IsWorking w) (f : Text) (file : CachedFile) where
  save_all-stores :
      (xs : List CredentialData) (s : BulkStore)
      → (rows : List FileData) × ((rs : List (Outcome (Unit {0}))) × ((save_all w f file xs s
              ≡ (ok rs, stored rows s))
            × ((first_failure rs ≡ ok tt) × AreNew f file xs rows)))
  unfolding save_all save_file_details first_failure
  save_all-stores [] s = (
    [],
    (
      [],
      (
        ap (λ rows. (ok [], record s { file_data = rows })) (sym (append-nil s.file_data)),
        (refl, tt),
      ),
    ),
  )
  save_all-stores (x ∷ xs) s =
      let r = new_row (w.new_row_id s) f file x in
      let k = works s create_file_data in
      let (rows, (rs, (e, (g, a)))) = save_all-stores xs (stored (r ∷ []) s) in
      let j = stored-stored (r ∷ []) rows s in
      (r ∷ rows, (ok tt ∷ rs, (ground arith, (g, (refl, a)))))

  batches-stored :
      (batches : List (List CredentialData)) (s : BulkStore)
      → (rows : List FileData) × ((for_each batches
              (λ batch. save_all w f file batch >>= λ rs. lift (first_failure rs))
              s
            ≡ (ok tt, stored rows s))
          × AreNew f file (concat batches) rows)
  unfolding for_each concat
  batches-stored [] s =
      ([], (ap (λ rows. (ok tt, record s { file_data = rows })) (sym (append-nil s.file_data)), tt))
  batches-stored (b ∷ bs) s =
      let (xs, (rs, (e, (g, a)))) = save_all-stores b s in
      let (ys, (e', a')) = batches-stored bs (stored xs s) in
      let j = stored-stored xs ys s in
      (xs ++ ys, (ground arith, AreNew-append f file b (concat bs) xs ys a a'))

  -- Storing a file appends one row for each row of the file.
  store_rows-stores :
      (xs : List CredentialData) (s : BulkStore)
      → (rows : List FileData) × ((store_rows w f file xs s ≡ (ok tt, stored rows s))
          × AreNew f file xs rows)
  unfolding store_rows
  store_rows-stores xs s =
      let (rows, (e, a)) = batches-stored (create_batches xs batch_size) s in
      (rows, (ground arith, subst (λ l. AreNew f file l rows) (create_batches-concat xs 99) a))

filter-append :
    (p : FileData → Bool) (xs ys : List FileData) → filter p (xs ++ ys) ≡ filter p xs ++ filter p ys
filter-append p [] ys = refl
filter-append p (x ∷ xs) ys = ground (arith, filter-append p xs ys)

abbrev of_file : Text → FileData → Bool
of_file f r = same r.file_upload_id f

new_rows_of_file :
    (f : Text) (file : CachedFile) (xs : List CredentialData) (rows : List FileData)
    → AreNew f file xs rows
    → filter (of_file f) rows ≡ rows
new_rows_of_file f file [] [] a = refl
new_rows_of_file f file [] (r ∷ rs) a = absurd a
new_rows_of_file f file (x ∷ xs) [] a = absurd a
new_rows_of_file f file (x ∷ xs) (r ∷ rs) a =
    let e : r.file_upload_id ≡ f = ap (λ (y : FileData). y.file_upload_id) a.0 in
    ground (arith, same_refl f, new_rows_of_file f file xs rs a.1)

any-last :
    (id : Text) (u : FileUpload) (us : List FileUpload)
    → u.id ≡ id
    → any (λ (x : FileUpload). same x.id id) (us ++ u ∷ []) ≡ true
any-last id u [] e = ground (arith, same_refl id)
any-last id u (x ∷ us) e = ground (arith, any-last id u us e)

-- The tables after a file was taken for issuance.
pub record IsStarted (w : BulkServices) (file : CachedFile) (fields : List CredentialData)
    (org_id request_id : Text) (client : ClientDetails) (v : Bool) (s t : BulkStore) : Type 0 where
  pub rows : List FileData
  pub rows_new : AreNew (w.new_row_id s) file fields rows
  pub rows_there : t.file_data ≡ s.file_data ++ rows
  pub file_started :
      t.file_uploads
      ≡ with_upload (w.new_row_id s) FileUploadStatus.started (
          s.file_uploads
          ++ record {
            id = w.new_row_id s;
            name = file.file_name;
            status = FileUploadStatus.started;
            org_id = org_id;
            credential_type = file.credential_type;
            template_id = file.schema_ledger_id;
          }
            ∷ [])
  pub uuid : Text
  pub jobs_queued :
      t.queue ≡ s.queue ++ map (job_for uuid org_id request_id client v (length rows)) rows

module _ (w : BulkServices) (works : IsWorking w) where
  store_and_queue-queues :
      (f : Text) (file : CachedFile) (fields : List CredentialData) (d : BulkPayloadDetails)
      (s : BulkStore)
      → filter (of_file f) s.file_data ≡ []
      → (rows : List FileData) × ((uuid : Text) × ((store_and_queue w f file fields d s
              ≡ (ok tt, enqueued (map (job_of uuid d (length rows)) rows) (stored rows s)))
            × AreNew f file fields rows))
  unfolding store_and_queue get_file_details
  store_and_queue-queues f file fields d s fresh =
      let (rows, (e, a)) = store_rows-stores w works f file fields s in
      let t = stored rows s in
      let g : filter (of_file f) t.file_data ≡ rows =
        filter-append (of_file f) s.file_data rows
        ∙ ap (λ xs. xs ++ filter (of_file f) rows) fresh
        ∙ new_rows_of_file f file fields rows a in
      let q = process_in_batches-enqueued w works rows d t in
      (rows, (w.new_uuid t, (ground arith, a)))

  -- Where no write to the database or the queue fails: if the id of the request is not empty, the
  -- cache has the rows of the file, the client takes them all, and no row is of the new file yet, then `issueBulkCredential` returns: each row of the file is stored once and in order,
  -- not yet issued, the file is started, and each of its rows has one job in the queue,
  -- with the fields of the row.
  pub issue_bulk_credential-IsStarted :
      (c : ℕ) (request_id org_id : Text) (client : ClientDetails) (v : Bool) (s : BulkStore)
      (file : CachedFile) (fields : List CredentialData)
      → w.cached_file s (c ∷ request_id) ≡ ok (some file)
      → file.rows ≡ some fields
      → client.is_selective_issuance ≡ false
      → filter (λ (r : FileData). same r.file_upload_id (w.new_row_id s)) s.file_data ≡ []
      → ((issue_bulk_credential w (c ∷ request_id) org_id client v s).0 ≡ ok tt)
        × IsStarted w file fields org_id
            (c ∷ request_id)
            client
            v
            s
            (issue_bulk_credential w (c ∷ request_id) org_id client v s).1
  unfolding issue_bulk_credential load_file save_file_upload_details
  issue_bulk_credential-IsStarted c request_id org_id client v s file fields a b e fresh =
      let id = w.new_row_id s in
      let t = record s { file_uploads = s.file_uploads ++ new_upload id org_id file ∷ [] } in
      let d = issue_details client org_id (c ∷ request_id) v in
      let k = works s create_file_upload in
      let (rows, (uuid, (q, n))) = store_and_queue-queues id file fields d t fresh in
      let u = enqueued (map (job_of uuid d (length rows)) rows) (stored rows t) in
      let l = any-last id (new_upload id org_id file) s.file_uploads refl in
      let z = update_file_upload_details-writes w id FileUploadStatus.started u works l in
      let r : issue_bulk_credential w (c ∷ request_id) org_id client v s ≡ (
        ok tt,
        record u { file_uploads = change_upload id FileUploadStatus.started u.file_uploads },
      ) =
        ground arith in
      (
        ap (λ p. p.0) r,
        record {
          rows = rows;
          rows_new = n;
          rows_there = ap (λ p. p.1.file_data) r;
          file_started =
              ap (λ p. p.1.file_uploads) r
              ∙ change_upload-with_upload id FileUploadStatus.started u.file_uploads;
          uuid = uuid;
          jobs_queued = ap (λ p. p.1.queue) r;
        },
      )
