-- ===== src/Issuance/Batches.antt =====
-- The batches of a list.
use confirmd_platform.Common.{
  ℕ, zero, suc, ◌+◌, ◌-◌, ◌≤◌, ◌<◌, ◌≡◌, refl, sym, ap, none, inl, inr, Bool-cases, ltb, some, List,
  [], ◌∷◌, ◌++◌, arith, All, length, drop, length-take, length-drop, take-append-drop,
}
use confirmd_platform.Issuance.{slice, batches_from, split_into_batches}

-- The elements of the batches, in order.
unfoldable pub concat {ℓ} : {A : Type ℓ} → List (List A) → List A
concat [] = []
concat (b ∷ bs) = b ++ concat bs

-- A batch that is not empty and not above the size.
abbrev pub IsBatch {ℓ} : {A : Type ℓ} → ℕ → List A → Type 0
IsBatch batch_size b = (0 < length b) × (length b ≤ batch_size)

suc_add : (m n : ℕ) → suc m + n ≡ suc (m + n)
suc_add m n = omega arith

module _ {ℓ} {A : Type ℓ} where
  drop_nil : (n : ℕ) → drop {A = A} n [] ≡ []
  drop_nil zero = refl
  drop_nil (suc n) = refl

  drop-add : (m n : ℕ) (xs : List A) → drop (m + n) xs ≡ drop n (drop m xs)
  drop-add zero n xs = ap (λ m. drop m xs) (omega arith)
  drop-add (suc m) n [] = ground (arith, drop_nil (suc m + n), drop_nil n)
  drop-add (suc m) n (x ∷ xs) = rw (suc_add m n) (drop-add m n xs)

  drop_all : (n : ℕ) (xs : List A) → length xs ≤ n → drop n xs ≡ []
  drop_all zero [] h = refl
  drop_all (suc n) [] h = refl
  drop_all zero (x ∷ xs) h = absurd (omega (arith, h))
  drop_all (suc n) (x ∷ xs) h = drop_all n xs (omega (arith, h))

  -- With enough fuel, the batches from `i` on are those of the rest of the list.
  batches_from-concat :
      (fuel i k : ℕ) (xs : List A)
      → length xs - i < fuel
      → (bs : List (List A)) × ((batches_from fuel i xs (suc k) ≡ some bs)
          × ((concat bs ≡ drop i xs) × All (IsBatch (suc k)) bs))
  unfolding batches_from concat
  batches_from-concat zero i k xs h = absurd (omega (arith, h))
  batches_from-concat (suc fuel) i k xs h = elim (Bool-cases (ltb i (length xs))) [
    | inl c ↦
        let (bs, (e, (f, a))) = batches_from-concat fuel (i + suc k) k xs (ground arith) in
        (
          slice i (suc k) xs ∷ bs,
          (
            ground arith,
            (
              rw f (rw (drop-add i (suc k) xs) (take-append-drop (suc k) (drop i xs))),
              (
                (
                  ground (arith, length-take (suc k) (drop i xs), length-drop i xs),
                  ground (arith, length-take (suc k) (drop i xs)),
                ),
                a,
              ),
            ),
          ),
        )
    | inr c ↦ ([], (ground arith, (sym (drop_all i xs (ground arith)), tt)))
  ]

  -- `splitIntoBatches` with a size that is not 0 ends; its batches are the elements in order, and
  -- each is neither empty nor above the size.
  pub split_into_batches-concat :
      (xs : List A) (k : ℕ)
      → (bs : List (List A)) × ((split_into_batches xs (suc k) ≡ some bs)
          × ((concat bs ≡ xs) × All (IsBatch (suc k)) bs))
  unfolding split_into_batches
  split_into_batches-concat xs k = batches_from-concat (suc (length xs)) 0 k xs (omega arith)

  -- With the size 0, the loop over a list that is not empty does not end, whatever the fuel.
  pub batches_from-diverges :
      (fuel : ℕ) (x : A) (xs : List A) → batches_from fuel 0 (x ∷ xs) 0 ≡ none
  unfolding batches_from
  batches_from-diverges zero x xs = refl
  batches_from-diverges (suc fuel) x xs = ground (arith, batches_from-diverges fuel x xs)
