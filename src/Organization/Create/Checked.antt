-- ===== src/Organization/Create/Checked.antt =====
-- When an organisation is created, and what is left when its client cannot be.
use confirmd_platform.Common.{ℕ, ◌≡◌, ◌⊎◌, inl, inr, false, none, arith, Text}
use confirmd_platform.Naming.{create_org_slug}
use confirmd_platform.Outcome.{ok, Outcome-cases}
use confirmd_platform.Organization.Model.World.{World, History}
use confirmd_platform.Organization.Respond.{is_over_limit}
use confirmd_platform.Organization.Create.{CreateOrganization, check_new, create_organization}

-- The number of organisations of the user was read and is below the limit, and neither the name
-- nor its slug is taken.
pub record IsFree (w : World) (dto : CreateOrganization) (user_id : Text) (h : History)
    : Type 0 where
  pub count : ℕ
  pub counted : w.organisation_count h user_id ≡ ok count
  pub below : is_over_limit w.max_org_limit count ≡ false
  pub name_free : w.organisation_by_name h dto.name ≡ ok none
  pub slug_free : w.organisation_by_slug h (create_org_slug dto.name) ≡ ok none

check_new-history :
    (w : World) (dto : CreateOrganization) (user_id : Text) (h : History)
    → (check_new w dto user_id h).1 ≡ h
unfolding check_new
check_new-history w dto user_id h = ground arith

check_new-IsFree :
    (w : World) (dto : CreateOrganization) (user_id : Text) (h : History)
    → (check_new w dto user_id h).0 ≡ ok tt
    → IsFree w dto user_id h
unfolding check_new
check_new-IsFree w dto user_id h e = elim (Outcome-cases (w.organisation_count h user_id)) [
  | inl (n, c) ↦ record {
    count = n;
    counted = c;
    below = ground arith;
    name_free = ground arith;
    slug_free = ground arith;
  }
  | inr (f, c) ↦ absurd (ground arith)
]

-- If `createOrganization` makes any call for its effect, then the user is below the limit, and no
-- organisation has the name or its slug.
pub create_organization-IsFree :
    (w : World) (dto : CreateOrganization) (user_id keycloak_user_id : Text) (h : History)
    → ((create_organization w dto user_id keycloak_user_id h).1 ≡ h) ⊎ IsFree w dto user_id h
unfolding create_organization
create_organization-IsFree w dto user_id keycloak_user_id h =
    elim (Outcome-cases (check_new w dto user_id h).0) [
      | inl (u, e) ↦ inr (check_new-IsFree w dto user_id h e)
      | inr (f, e) ↦ inl (ground (arith, check_new-history w dto user_id h))
    ]
