-- ===== src/Organization/Roles.antt =====
-- The roles of users in organisations: `UserOrgRolesService` and `UserOrgRolesRepository` of
-- libs/user-org-roles, and the reads of libs/org-roles.
use confirmd_platform.Common.{
  ℕ, Bool, true, false, not, ◌≡◌, arith, Option, none, some, List, [], ◌∷◌, Text, codes, same,
  filter, if◌then◌else◌,
}
use confirmd_platform.Outcome.{internal, user_org_role_not_created}
use confirmd_platform.Effect.{◌>>=◌, ◌>>◌, pure, read, perform, start, catch_with, for_each}
use confirmd_platform.Organization.Model.Rows.{UserOrgRole, OrgRole, is_set}
use confirmd_platform.Organization.Model.World.{World, Act, Call, History, issue}

-- What `createUserOrgRole` of the repository puts into `data`: an organisation or a Keycloak role
-- only if it is given and not empty.
abbrev if_set : Option Text → Option Text
if_set o = if is_set o then o else none

abbrev pub new_role : (user_id role_id : Text) (org_id idp_role_id : Option Text) → UserOrgRole
new_role user_id role_id org_id idp_role_id = record {
  user_id = user_id;
  role_id = role_id;
  org_id = if_set org_id;
  idp_role_id = if_set idp_role_id;
}

module _ (w : World) where
  unfoldable pub create_user_org_role :
      (user_id role_id : Text) (org_id idp_role_id : Option Text) → Act (Unit {0})
  create_user_org_role user_id role_id org_id idp_role_id =
      catch_with (λ _. internal user_org_role_not_created)
        (issue w (Call.create_user_org_role (new_role user_id role_id org_id idp_role_id)))

  unfoldable pub check_user_org_exist : (user_id org_id : Text) → Act Bool
  check_user_org_exist user_id org_id = do
    rows ← read (λ h. w.user_roles_by h user_id org_id)
    pure (elim rows [ [] ↦ false | _ ∷ _ ↦ true ])

  -- `deleteMany`, which gives the number of rows that it removed.
  unfoldable pub delete_org_roles : (user_id org_id : Text) → Act ℕ
  delete_org_roles user_id org_id =
      perform (Call.delete_user_org_roles user_id org_id) (λ h. w.deleted_count h user_id org_id)

  -- The rows are created without `await`: their outcomes are not looked at.
  unfoldable pub create_role_later :
      (user_id role_id : Text) (org_id idp_role_id : Option Text) → Act (Unit {0})
  unfolding create_user_org_role
  create_role_later user_id role_id org_id idp_role_id =
      start (create_user_org_role user_id role_id org_id idp_role_id) >> pure tt

  -- `getOrgRoles` leaves the platform administrator's role out.
  unfoldable pub get_org_roles : Act (List OrgRole)
  unfolding same
  get_org_roles = do
    roles ← read (λ h. w.all_roles h)
    pure (filter (λ r. not (same r.name (codes "platform_admin"))) roles)

  pub get_org_roles-history : (h : History) → (get_org_roles h).1 ≡ h
  unfolding get_org_roles
  get_org_roles-history h = ground arith

pub record RolePayload : Type 0 where
  pub role_id : Text
  pub name : Text
  pub idp_role_id : Text

-- `updateUserOrgRole`, which always returns `true`.
unfoldable pub update_user_org_role :
    (w : World) (user_id org_id : Text) → List RolePayload → Act Bool
unfolding create_role_later for_each
update_user_org_role w user_id org_id payload = do
  for_each payload (λ p. create_role_later w user_id p.role_id (some org_id) (some p.idp_role_id))
  pure true
