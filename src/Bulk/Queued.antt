-- ===== src/Bulk/Queued.antt =====
-- What `processInBatches` and `retryBulkCredential` add to the queue.
use confirmd_platform.Common.{
  ℕ, suc, ◌≡◌, refl, ap, sym, ◌∙◌, ◌⊎◌, inl, inr, Bool, ◌≢◌, some, List, [], ◌∷◌, ◌++◌, map,
  append-nil, append_assoc, map-append, length, Text, arith,
}
use confirmd_platform.Outcome.{ok}
use confirmd_platform.Effect.{for_each}
use confirmd_platform.Issuance.Batches.{concat, split_into_batches-concat}
use confirmd_platform.Bulk.{
  FileData, FileUpload, QueuePayload, BulkStore, add_bulk, BulkServices, get_failed_credentials,
}
use confirmd_platform.Bulk.Settled.{IsWorking}
use confirmd_platform.Bulk.Queue.{
  ClientDetails, BulkPayloadDetails, issuance_batch_size, create_batches, job_of, retry_details,
  find_upload, add_to_queue, process_in_batches, retry_bulk_credential,
}

pub create_batches-concat {ℓ} :
    {A : Type ℓ} (rows : List A) (k : ℕ) → concat (create_batches rows (suc k)) ≡ rows
unfolding create_batches
create_batches-concat rows k =
    let (bs, (e, (f, a))) = split_into_batches-concat rows k in ground arith

pub List-cases {ℓ} :
    {A : Type ℓ} (xs : List A) → (xs ≡ []) ⊎ ((y : A) × ((ys : List A) × (xs ≡ y ∷ ys)))
List-cases [] = inl refl
List-cases (y ∷ ys) = inr (y, (ys, refl))

abbrev pub enqueued : List QueuePayload → BulkStore → BulkStore
enqueued jobs s = record s { queue = s.queue ++ jobs }

module _ (w : BulkServices) (k : IsWorking w) where
  batches-enqueued :
      (job : FileData → QueuePayload) (batches : List (List FileData)) (s : BulkStore)
      → for_each batches (λ batch. add_to_queue w (map job batch)) s
        ≡ (ok tt, enqueued (map job (concat batches)) s)
  unfolding for_each add_to_queue concat
  batches-enqueued job [] s = ap (λ q. (ok tt, record s { queue = q })) (sym (append-nil s.queue))
  batches-enqueued job (b ∷ bs) s =
      let n = k s (add_bulk (map job b)) in
      let r = batches-enqueued job bs (enqueued (map job b) s) in
      let a : (s.queue ++ map job b) ++ map job (concat bs) ≡ s.queue ++ map job (b ++ concat bs) =
        simp (map-append, append_assoc) in
      ground arith

  -- `processInBatches` adds one job for each row, in the order of the rows.
  pub process_in_batches-enqueued :
      (rows : List FileData) (d : BulkPayloadDetails) (s : BulkStore)
      → process_in_batches w rows d s
        ≡ (ok tt, enqueued (map (job_of (w.new_uuid s) d (length rows)) rows) s)
  unfolding process_in_batches
  process_in_batches-enqueued rows d s =
      batches-enqueued (job_of (w.new_uuid s) d (length rows))
        (create_batches rows issuance_batch_size) s
      ∙ ap (λ rs. (ok tt, enqueued (map (job_of (w.new_uuid s) d (length rows)) rs) s))
          (create_batches-concat rows 1999)

  -- If the file is there and has a row that failed or was not offered, `retryBulkCredential` adds
  -- one job for each such row, in their order and marked as a retry, and for no other row.
  pub retry_bulk_credential-enqueued :
      (file_id org_id : Text) (client : ClientDetails) (v : Bool) (s : BulkStore) (u : FileUpload)
      → find_upload file_id s.file_uploads ≡ some u
      → get_failed_credentials file_id s ≢ []
      → retry_bulk_credential w file_id org_id client v s ≡ (
        ok tt,
        enqueued
            (map
              (job_of
                (w.new_uuid s)
                (retry_details client org_id v)
                (length (get_failed_credentials file_id s)))
              (get_failed_credentials file_id s))
            s,
      )
  unfolding retry_bulk_credential
  retry_bulk_credential-enqueued file_id org_id client v s u e n =
      let q =
        process_in_batches-enqueued (get_failed_credentials file_id s)
          (retry_details client org_id v) s in
      elim (List-cases (get_failed_credentials file_id s)) [
        | inl z ↦ absurd (n z)
        | inr (r, (rs, z)) ↦ ground arith
      ]
