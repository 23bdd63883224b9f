-- ===== src/Issuance/Stored.antt =====
-- Which rows of a file are stored, and in which order.
use confirmd_platform.Common.{
  ◌≡◌, ◌⊎◌, refl, sym, ap, ◌∙◌, inl, inr, some, List, [], ◌∷◌, ◌++◌, arith, append_assoc,
}
use confirmd_platform.Outcome.{err, Fault, Outcome, ok, http, Outcome-cases}
use confirmd_platform.Effect.{Action, catch_with}
use confirmd_platform.Issuance.{
  FileRow, start_all, store_batch, store_batches, store_bulk_payload_in_batch,
}
use confirmd_platform.Issuance.Batches.{concat, split_into_batches-concat}

-- The rows put on a history one after the other, the newest first.
abbrev pub sent_onto : List FileRow → List FileRow → List FileRow
sent_onto [] h = h
sent_onto (r ∷ rs) h = sent_onto rs (r ∷ h)

sent_onto-append : (rs ts h : List FileRow) → sent_onto (rs ++ ts) h ≡ sent_onto ts (sent_onto rs h)
sent_onto-append [] ts h = refl
sent_onto-append (r ∷ rs) ts h = sent_onto-append rs ts (r ∷ h)

module _ (saved : List FileRow → FileRow → Outcome (Unit {0})) where
  start_all-sent_onto : (rows h : List FileRow) → (start_all saved rows h).1 ≡ sent_onto rows h
  unfolding start_all
  start_all-sent_onto [] h = refl
  start_all-sent_onto (row ∷ rows) h = ground (arith, start_all-sent_onto rows (row ∷ h))

  store_batch-sent_onto : (rows h : List FileRow) → (store_batch saved rows h).1 ≡ sent_onto rows h
  unfolding store_batch
  store_batch-sent_onto rows h = ground (arith, start_all-sent_onto rows h)

  store_batches-sent_onto :
      (bs : List (List FileRow)) (h : List FileRow)
      → (store_batches saved bs h).0 ≡ ok tt
      → (store_batches saved bs h).1 ≡ sent_onto (concat bs) h
  unfolding store_batches concat
  store_batches-sent_onto [] h e = refl
  store_batches-sent_onto (b ∷ bs) h e =
      let t = (store_batch saved b h).1 in
      ground (
        arith,
        store_batches-sent_onto bs t (ground arith),
        store_batch-sent_onto b h,
        sent_onto-append b (concat bs) h,
      )

  -- What was sent before a batch failed: some batches, whole, and nothing of those behind.
  store_batches-prefix :
      (bs : List (List FileRow)) (h : List FileRow)
      → (rows rest : List FileRow) × ((concat bs ≡ rows ++ rest)
          × ((store_batches saved bs h).1 ≡ sent_onto rows h))
  unfolding store_batches concat
  store_batches-prefix [] h = ([], [], (refl, refl))
  store_batches-prefix (b ∷ bs) h = elim (Outcome-cases (store_batch saved b h).0) [
    | inl (tt, e) ↦
        let (rows, rest, (c, d)) = store_batches-prefix bs (store_batch saved b h).1 in
        (
          b ++ rows,
          rest,
          (
            ap (λ r. b ++ r) c ∙ sym (append_assoc b rows rest),
            ground (arith, d, store_batch-sent_onto b h, sent_onto-append b rows h),
          ),
        )
    | inr (f, e) ↦ (b, concat bs, (refl, ground (arith, store_batch-sent_onto b h)))
  ]

-- `_storeBulkPayloadInBatch` ends. Either it succeeds, and every row of the file has been sent
-- once, in order, or it fails, and the rows that were sent are the first ones of the file.
pub store_bulk_payload_in_batch-sent_onto :
    (saved : List FileRow → FileRow → Outcome (Unit {0})) (rows h : List FileRow)
    → (run : Action FileRow (Unit {0})) × ((store_bulk_payload_in_batch saved rows ≡ some run)
        × ((((run h).0 ≡ ok tt) × ((run h).1 ≡ sent_onto rows h))
            ⊎ ((f : Fault) × ((sent rest : List FileRow) × (((run h).0 ≡ err f)
                    × ((rows ≡ sent ++ rest) × ((run h).1 ≡ sent_onto sent h)))))))
unfolding store_bulk_payload_in_batch
store_bulk_payload_in_batch-sent_onto saved rows h =
    let (bs, (e, (c, a))) = split_into_batches-concat rows 99 in
    let (sent, rest, (p, q)) = store_batches-prefix saved bs h in
    (
      catch_with http (store_batches saved bs),
      (
        ground (arith, e),
        elim (Outcome-cases (store_batches saved bs h).0) [
          | inl (tt, o) ↦
              inl (ground arith, ground (arith, c, store_batches-sent_onto saved bs h o))
          | inr (f, o) ↦ inr (http f, (sent, rest, (ground arith, (sym c ∙ p, ground (arith, q)))))
        ],
      ),
    )
