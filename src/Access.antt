-- ===== src/Access.antt =====
-- Who may call a route of the gateway: the guards of apps/api-gateway/src/authz/guards.
pub mod Allowed
use confirmd_platform.Common.{
  member, Bool, true, false, not, Option, none, some, List, [], ◌∷◌, map, Text, codes, same, any,
  is_some, if◌then◌else◌,
}
use confirmd_platform.Outcome.{
  Outcome, ok, err, bad_request, unauthorized, forbidden, type_error, invalid_org_id,
  role_not_match, org_not_match, holder_role, not_a_holder_role, no_access, valid_org_id_required,
}
use confirmd_platform.Organization.Model.Rows.{is_set}
use confirmd_platform.Organization.Invite.{trim}

-- A row of `user_org_roles` with its `orgRole`.
pub record UserRole : Type 0 where
  pub org_id : Option Text
  pub role : Text

-- `request.user`: the row of the user and the claims of the token. `resource_access` goes from
-- the id of an organisation to its `roles`.
pub record Requester : Type 0 where
  pub client_id : Option Text
  pub user_role : Option (List Text)
  pub resource_access : Option (List (Text × List Text))
  pub user_org_roles : List UserRole

-- The places where a request names an organisation. The user is there, since the check of the
-- token runs before the guards, and so are the three objects.
pub record GuardedRequest : Type 0 where
  pub user : Requester
  pub params_org_id : Option Text
  pub query_org_id : Option Text
  pub body_org_id : Option Text

-- `selectedOrg` with its `orgRoles`; an entry of another organisation is `undefined`.
pub record SelectedOrg : Type 0 where
  pub org : UserRole
  pub org_roles : List (Option Text)

-- What a guard answers, and what it leaves in the request.
pub record Access : Type 0 where
  pub allowed : Bool
  pub org_id : Text
  pub selected_org : Option SelectedOrg

abbrev pub is_holder : Requester → Bool
is_holder u = elim u.user_role [ none ↦ false | some roles ↦ member (codes "holder") roles ]

-- `value ? value.trim() : ''`
abbrev pub trim_or_empty : Option Text → Text
trim_or_empty none = []
trim_or_empty (some s) = trim s

-- `a || b` on texts.
abbrev pub text_or : Text → Text → Text
text_or [] b = b
text_or (c ∷ a) b = c ∷ a

abbrev pub request_org_id : GuardedRequest → Text
request_org_id r =
    text_or (trim_or_empty r.params_org_id)
      (text_or (trim_or_empty r.query_org_id) (trim_or_empty r.body_org_id))

-- `user.resource_access[orgId]`
unfoldable pub lookup_roles : List (Text × List Text) → Text → Option (List Text)
lookup_roles [] org_id = none
lookup_roles (e ∷ es) org_id =
    let rest = lookup_roles es org_id in if same e.0 org_id then some e.1 else rest

abbrev pub resource_roles : Requester → Text → Option (List Text)
resource_roles u org_id = elim u.resource_access [ none ↦ none | some es ↦ lookup_roles es org_id ]

-- The test of an entry against the organisation of the request.
abbrev pub is_of : Text → UserRole → Bool
is_of org_id e = elim e.org_id [
  | none ↦ false
  | some i ↦ if is_set (some i) then same (trim i) (trim org_id) else false
]

unfoldable pub find_org : Text → List UserRole → Option UserRole
find_org org_id [] = none
find_org org_id (e ∷ es) = let rest = find_org org_id es in if is_of org_id e then some e else rest

abbrev pub role_of : Text → UserRole → Option Text
role_of org_id e = if is_of org_id e then some e.role else none

abbrev pub names : Text → Option Text → Bool
names role none = false
names role (some r) = same role r

abbrev pub platform_admin : Text
platform_admin = codes "platform_admin"

-- A list of roles shares one with the roles required.
abbrev pub shares : List Text → List Text → Bool
shares required roles = any (λ r. member r roles) required

-- The branches of a request that names no organisation.
unfoldable pub check_platform : List Text → Requester → Outcome Access
check_platform required u =
    if member platform_admin required
    then ok (record {
      allowed = any (λ e. same e.role platform_admin) u.user_org_roles;
      org_id = [];
      selected_org = none;
    })
    else err (bad_request valid_org_id_required)

module _ (is_valid_uuid : Text → Bool) where
  -- The branch of one that names an organisation.
  unfoldable pub check_org : List Text → Requester → Text → Outcome Access
  unfolding lookup_roles find_org
  check_org required u org_id =
      if not (is_valid_uuid org_id)
      then err (bad_request invalid_org_id)
      else elim (resource_roles u org_id) [
        | some roles ↦
            if shares required roles
            then ok (record { allowed = true; org_id = org_id; selected_org = none })
            else err (forbidden role_not_match)
        | none ↦ elim (find_org org_id u.user_org_roles) [
          | none ↦ err (forbidden org_not_match)
          | some e ↦
              let roles = map (role_of org_id) u.user_org_roles in
              if any (λ r. any (names r) roles) required
              then ok (record {
                allowed = true;
                org_id = org_id;
                selected_org = some (record { org = e; org_roles = roles });
              })
              else err (forbidden role_not_match)
        ]
      ]

  -- `OrgRolesGuard`; `Object.values(undefined)` throws.
  unfoldable pub can_activate : Option (List Text) → GuardedRequest → Outcome Access
  can_activate none r = err type_error
  can_activate (some required) r =
      if is_holder r.user
      then err (forbidden holder_role)
      else if is_set (some (request_org_id r))
      then check_org required r.user (request_org_id r)
      else check_platform required r.user

-- `UserAccessGuard`
unfoldable pub user_access : Requester → Outcome Bool
user_access u =
    if is_some u.client_id
    then err (unauthorized no_access)
    else if is_holder u
    then err (forbidden holder_role)
    else ok true

-- `UserRoleGuard`
unfoldable pub user_role_access : Requester → Outcome Bool
user_role_access u = if is_holder u then ok true else err (forbidden not_a_holder_role)
