-- ===== src/Naming/Slug.antt =====
-- The texts that `createOrgSlug` returns.
use confirmd_platform.Common.{
  ℕ, ◌≡◌, refl, ◌≢◌, inl, inr, Bool, true, false, [], ◌∷◌, arith, ◌==◌, filter, All, Text,
  Bool-cases, ap, subst, ◌↔◌,
}
use confirmd_platform.Naming.{
  to_lower_case, is_space, spaces_to_hyphen, is_slug_unit, collapse_hyphens, create_org_slug,
}

abbrev pub IsSlugUnit : ℕ → Type 0
IsSlugUnit c = is_slug_unit c ≡ true

-- No two hyphens stand side by side; the flag says that a hyphen stands just before.
abbrev pub HasNoDouble : Bool → Text → Type 0
HasNoDouble before [] = Unit
HasNoDouble before (c ∷ s) = ((before ≡ true → c ≢ b'-')) × HasNoDouble (c == b'-') s

abbrev pub IsSlug : Text → Type 0
IsSlug s = All IsSlugUnit s × HasNoDouble false s

filter-All : (s : Text) → All IsSlugUnit (filter is_slug_unit s)
filter-All [] = tt
filter-All (c ∷ s) = elim (Bool-cases (is_slug_unit c)) [
  | inl yes_unit ↦ rw yes_unit (yes_unit, filter-All s)
  | inr no_unit ↦ rw no_unit (filter-All s)
]

collapse_hyphens-All :
    (inside : Bool) (s : Text) → All IsSlugUnit s → All IsSlugUnit (collapse_hyphens inside s)
unfolding collapse_hyphens
collapse_hyphens-All inside [] h = tt
collapse_hyphens-All inside (c ∷ s) h = ground (arith, collapse_hyphens-All (c == b'-') s h.1)

collapse_hyphens-HasNoDouble :
    (inside : Bool) (s : Text) → HasNoDouble inside (collapse_hyphens inside s)
unfolding collapse_hyphens
collapse_hyphens-HasNoDouble inside [] = tt
collapse_hyphens-HasNoDouble inside (c ∷ s) =
    ground (arith, collapse_hyphens-HasNoDouble (c == b'-') s)

to_lower_case_of_slug : (s : Text) → All IsSlugUnit s → to_lower_case s ≡ s
unfolding to_lower_case is_slug_unit
to_lower_case_of_slug [] h = refl
to_lower_case_of_slug (c ∷ s) h = ground (arith, to_lower_case_of_slug s h.1)

is_space_of_slug_unit : (c : ℕ) → IsSlugUnit c → is_space c ≡ false
unfolding is_space is_slug_unit
is_space_of_slug_unit c h = ground arith

spaces_to_hyphen_of_slug :
    (inside : Bool) (s : Text) → All IsSlugUnit s → spaces_to_hyphen inside s ≡ s
unfolding spaces_to_hyphen
spaces_to_hyphen_of_slug inside [] h = refl
spaces_to_hyphen_of_slug inside (c ∷ s) h =
    rw (is_space_of_slug_unit c h.0) (ap (◌∷◌ c) (spaces_to_hyphen_of_slug false s h.1))

filter_of_slug : (s : Text) → All IsSlugUnit s → filter is_slug_unit s ≡ s
filter_of_slug [] h = refl
filter_of_slug (c ∷ s) h = rw (h.0) (ap (◌∷◌ c) (filter_of_slug s h.1))

collapse_hyphens_of_slug :
    (inside : Bool) (s : Text) → HasNoDouble inside s → collapse_hyphens inside s ≡ s
unfolding collapse_hyphens
collapse_hyphens_of_slug inside [] h = refl
collapse_hyphens_of_slug inside (c ∷ s) h =
    ground (arith, collapse_hyphens_of_slug (c == b'-') s h.1)

-- A slug holds lower-case letters, digits and hyphens only, and no two hyphens in a row.
create_org_slug-IsSlug : (org_name : Text) → IsSlug (create_org_slug org_name)
unfolding create_org_slug
create_org_slug-IsSlug org_name =
    let spaced = spaces_to_hyphen false (to_lower_case org_name) in
    let kept = filter is_slug_unit spaced in
    (collapse_hyphens-All false kept (filter-All spaced), collapse_hyphens-HasNoDouble false kept)

create_org_slug_of_IsSlug : (s : Text) → IsSlug s → create_org_slug s ≡ s
unfolding create_org_slug
create_org_slug_of_IsSlug s (h, k) = rw (
  to_lower_case_of_slug s h,
  spaces_to_hyphen_of_slug false s h,
  filter_of_slug s h,
  collapse_hyphens_of_slug false s k,
)

-- A text is its own slug exactly when it is made of lower-case letters, digits and single hyphens.
pub create_org_slug-fixed_iff : (s : Text) → (create_org_slug s ≡ s) ↔ IsSlug s
create_org_slug-fixed_iff s =
    (λ e. subst IsSlug e (create_org_slug-IsSlug s), create_org_slug_of_IsSlug s)

-- The slug of a slug is that slug.
pub create_org_slug_idempotent :
    (org_name : Text) → create_org_slug (create_org_slug org_name) ≡ create_org_slug org_name
create_org_slug_idempotent org_name = create_org_slug_of_IsSlug _ (create_org_slug-IsSlug org_name)
