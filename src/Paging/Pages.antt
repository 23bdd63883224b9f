-- ===== src/Paging/Pages.antt =====
-- The pages of `paginator` of libs/common/src/common.utils.ts are a partition of the list.
use confirmd_platform.Common.{
  ℕ, zero, suc, ◌+◌, ◌-◌, ◌*◌, ◌≤◌, ◌<◌, ◌≡◌, refl, sym, ap, ◌∙◌, List, [], ◌∷◌, ◌++◌, length, take,
  drop, arith,
}
use native.Mathlib.Nat.{div-add-mod', mod-lt}
use confirmd_platform.Paging.{number_or, ceil_div, paginator}

page_of_suc : (k : ℕ) → number_or (suc k) 1 - 1 ≡ k
page_of_suc k = grind arith

module _ {ℓ} {A : Type ℓ} where
  take_nil : (n : ℕ) → take {A = A} n [] ≡ []
  take_nil zero = refl
  take_nil (suc n) = refl

  take_add : (n m : ℕ) (xs : List A) → take (n + m) xs ≡ take n xs ++ take m (drop n xs)
  take_add zero m xs = ground arith
  take_add (suc n) m [] = take_nil (suc n + m) ∙ sym (take_nil m)
  take_add (suc n) m (x ∷ xs) =
      let sum : suc n + m ≡ suc (n + m) = omega arith in
      ap (λ k. take k (x ∷ xs)) sum ∙ ap (λ ys. x ∷ ys) (take_add n m xs)

  take_all : (n : ℕ) (xs : List A) → length xs ≤ n → take n xs ≡ xs
  take_all zero [] h = refl
  take_all zero (x ∷ xs) h = absurd (omega (arith, h))
  take_all (suc n) [] h = refl
  take_all (suc n) (x ∷ xs) h = ap (λ ys. x ∷ ys) (take_all n xs (omega (arith, h)))

  -- The items of the pages 1 to `k`, one page after the other.
  unfoldable pub pages_to : List A → (items_per_page k : ℕ) → List A
  unfolding paginator
  pages_to items n zero = []
  pages_to items n (suc k) = pages_to items n k ++ (paginator items (suc k) n).data_of_page

  pages_to-take : (items : List A) (n k : ℕ) → pages_to items n k ≡ take (k * number_or n 10) items
  unfolding pages_to paginator
  pages_to-take items n zero = ground arith
  pages_to-take items n (suc k) =
      let d = number_or n 10 in
      let count : k * d + d ≡ suc k * d = ground arith in
      ap (λ p. pages_to items n k ++ take d (drop (p * d) items)) (page_of_suc k)
      ∙ ap (λ ys. ys ++ take d (drop (k * d) items)) (pages_to-take items n k)
      ∙ sym (take_add (k * d) d items)
      ∙ ap (λ m. take m items) count

default_positive : (n : ℕ) → 0 < number_or n 10
default_positive zero = omega arith
default_positive (suc n) = grind arith

ceil_div_enough : (n d : ℕ) → 0 < d → n ≤ ceil_div n d * d
ceil_div_enough n d h = omega (arith, h, div-add-mod' (n + (d - 1)) d, mod-lt (n + (d - 1)) h)

-- For each size of a page, the items of the pages from 1 to the last page, one page after the
-- other, are the items of the list in order.
pub paginator-covers {ℓ} :
    {A : Type ℓ} (items : List A) (current_page items_per_page : ℕ)
    → pages_to items items_per_page (paginator items current_page items_per_page).last_page ≡ items
unfolding paginator
paginator-covers items current_page items_per_page =
    let d = number_or items_per_page 10 in
    pages_to-take items items_per_page (ceil_div (length items) d)
    ∙ take_all (ceil_div (length items) d * d) items
        (ceil_div_enough (length items) d (default_positive items_per_page))
