-- ===== src/Organization/Members/Replaced.antt =====
-- What a change of roles has done when it reports success.
use confirmd_platform.Common.{◌≡◌, refl, true, none, some, List, [], ◌∷◌, arith, Text, ℕ, suc}
use confirmd_platform.Outcome.{ok}
use confirmd_platform.Effect.{for_each}
use confirmd_platform.Organization.Model.Rows.{UserOrgRole, Organisation, OrgRole}
use confirmd_platform.Organization.Model.World.{World, Call, History}
use confirmd_platform.Organization.Roles.{
  new_role, create_user_org_role, create_role_later, check_user_org_exist, delete_org_roles,
}
use confirmd_platform.Organization.Invite.{
  get_organization_details, get_organization_details-history,
}
use confirmd_platform.Organization.Respond.Granted.{granted}
use confirmd_platform.Organization.Members.{replace_roles, update_roles_in, update_user_roles}

for_each_later :
    (w : World) (user_id org_id : Text) (roles : List Text) (h : History)
    → for_each roles (λ r. create_role_later w user_id r (some org_id) none) h
      ≡ (ok tt, granted user_id org_id roles h)
unfolding for_each create_role_later create_user_org_role
for_each_later w user_id org_id [] h = refl
for_each_later w user_id org_id (r ∷ rs) h = ground (
  arith,
  for_each_later w user_id org_id rs
      (Call.create_user_org_role (new_role user_id r (some org_id) none) ∷ h),
)

replace_roles_lem :
    (w : World) (org_id user_id : Text) (role_ids : List Text) (role : OrgRole)
    (roles : List OrgRole) (n : ℕ) (h : History)
    → w.roles_by_ids h role_ids ≡ ok (role ∷ roles)
    → w.deleted_count h user_id org_id ≡ ok (suc n)
    → replace_roles w org_id role_ids user_id h
      ≡ (ok true, granted user_id org_id role_ids (Call.delete_user_org_roles user_id org_id ∷ h))
unfolding replace_roles delete_org_roles
replace_roles_lem w org_id user_id role_ids role roles n h e d = ground (
  arith,
  for_each_later w user_id org_id role_ids (Call.delete_user_org_roles user_id org_id ∷ h),
)

-- In an organisation without a Keycloak client, a member's old rows are removed, and then a row is
-- asked for each role identifier of the request, in order. It is enough that one of them is known,
-- and success is reported whatever the creation of the rows answers.
pub update_user_roles-reports_success :
    (w : World) (org_id user_id : Text) (role_ids : List Text) (row : UserOrgRole)
    (rows : List UserOrgRole) (o : Organisation) (role : OrgRole) (roles : List OrgRole) (n : ℕ)
    (h : History)
    → w.user_roles_by h user_id org_id ≡ ok (row ∷ rows)
    → (get_organization_details w org_id h).0 ≡ ok (some o)
    → o.idp_id ≡ none
    → w.roles_by_ids h role_ids ≡ ok (role ∷ roles)
    → w.deleted_count h user_id org_id ≡ ok (suc n)
    → update_user_roles w org_id role_ids user_id h
      ≡ (ok true, granted user_id org_id role_ids (Call.delete_user_org_roles user_id org_id ∷ h))
unfolding update_user_roles check_user_org_exist update_roles_in
update_user_roles-reports_success w org_id user_id role_ids row rows o role roles n h a b c d e =
    ground (
      arith,
      get_organization_details-history w org_id h,
      replace_roles_lem w org_id user_id role_ids role roles n h d e,
    )
