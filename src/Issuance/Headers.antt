-- ===== src/Issuance/Headers.antt =====
-- Which headers of a file are accepted.
use mathlib.Core.List.{Memᴰ}
use confirmd_platform.Common.{
  suc, ◌≤◌, ◌≡◌, refl, ap, inl, inr, Bool, true, false, not, List, [], ◌∷◌, arith, All, Text, same,
  same_iff, filter, length, if◌then◌else◌, Bool-cases, member, member_iff,
}
use confirmd_platform.Outcome.{ok}
use confirmd_platform.Issuance.{validate_file_headers}

-- No element repeats.
abbrev pub IsDistinct : List Text → Type 0
IsDistinct [] = Unit
IsDistinct (x ∷ xs) = (member x xs ≡ false) × IsDistinct xs

-- A list without the first copy of an element.
unfoldable remove_first : Text → List Text → List Text
remove_first x [] = []
remove_first x (y ∷ ys) = let rest = remove_first x ys in if same x y then ys else y ∷ rest

length-remove_first :
    (x : Text) (ys : List Text) → member x ys ≡ true → suc (length (remove_first x ys)) ≡ length ys
unfolding remove_first
length-remove_first x [] m = absurd (ground (arith, m))
length-remove_first x (y ∷ ys) m = elim (Bool-cases (same x y)) [
  | inl e ↦ ground arith
  | inr e ↦ ground (arith, length-remove_first x ys (ground arith))
]

member-remove_first :
    (x z : Text) (ys : List Text)
    → same z x ≡ false
    → member z ys ≡ true
    → member z (remove_first x ys) ≡ true
unfolding remove_first
member-remove_first x z [] n m = ground (arith, m)
member-remove_first x z (y ∷ ys) n m = elim (Bool-cases (same x y)) [
  | inl e ↦ ground (arith, ap (same z) ((same_iff x y).0 e))
  | inr e ↦ elim (Bool-cases (same z y)) [
    | inl k ↦ ground arith
    | inr k ↦ ground (arith, member-remove_first x z ys n (ground arith))
  ]
]

same_comm : (s t : Text) → same s t ≡ same t s
unfolding same
same_comm [] [] = refl
same_comm [] (b ∷ t) = refl
same_comm (a ∷ s) [] = refl
same_comm (a ∷ s) (b ∷ t) = ground (arith, same_comm s t)

All-remove_first :
    (x : Text) (ys zs : List Text)
    → member x zs ≡ false
    → All (λ z. member z ys ≡ true) zs
    → All (λ z. member z (remove_first x ys) ≡ true) zs
All-remove_first x ys [] n a = tt
All-remove_first x ys (z ∷ zs) n a = (
  member-remove_first x z ys (ground (arith, same_comm x z)) a.0,
  All-remove_first x ys zs (ground arith) a.1,
)

-- Distinct elements of a list that is no longer than they are cover it.
IsDistinct-covers :
    (xs ys : List Text)
    → IsDistinct xs
    → All (λ x. member x ys ≡ true) xs
    → length ys ≤ length xs
    → (z : Text) → member z ys ≡ true
    → member z xs ≡ true
IsDistinct-covers [] [] d a l z m = m
IsDistinct-covers [] (y ∷ ys) d a l z m = absurd (omega (arith, l))
IsDistinct-covers (x ∷ xs) ys d a l z m = elim (Bool-cases (same z x)) [
  | inl e ↦ ground arith
  | inr e ↦ ground (
    arith,
    IsDistinct-covers xs (remove_first x ys) d.1 (All-remove_first x ys xs d.0 a.1)
        (omega (arith, l, length-remove_first x ys a.0)) z (member-remove_first x z ys e m),
  )
]

filter_none :
    (p : Text → Bool) (xs : List Text)
    → length (filter (λ x. not (p x)) xs) ≡ 0
    → All (λ x. p x ≡ true) xs
filter_none p [] e = tt
filter_none p (x ∷ xs) e = elim (Bool-cases (p x)) [
  | inl a ↦ (a, filter_none p xs (ground arith))
  | inr a ↦ absurd (ground arith)
]

-- If the headers of a file are accepted, and no column but the first repeats, then every
-- attribute of the schema has a column.
pub validate_file_headers-covers :
    (first : Text) (columns schema_attributes : List Text)
    → validate_file_headers (first ∷ columns) schema_attributes ≡ ok tt
    → IsDistinct columns
    → (attribute : Text) → Memᴰ attribute schema_attributes
    → Memᴰ attribute columns
unfolding validate_file_headers
validate_file_headers-covers first columns schema_attributes e d attribute m =
    (member_iff attribute columns).0 (
      IsDistinct-covers columns schema_attributes d
        (filter_none (λ value. member value schema_attributes) columns (ground arith))
        (ground arith) attribute ((member_iff attribute schema_attributes).1 m))
