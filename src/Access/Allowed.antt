-- ===== src/Access/Allowed.antt =====
-- Whom the guards let through.
use mathlib.Core.List.{Memᴰ}
use confirmd_platform.Common.{
  ◌≡◌, refl, sym, ap, subst, ◌↔◌, ◌⊎◌, inl, inr, Bool, true, false, none, some, List, [], ◌∷◌, map,
  arith, Text, same, same_iff, any, Bool-cases, Option-cases, member, member_iff, any_from, any_of,
}
use confirmd_platform.Outcome.{ok}
use confirmd_platform.Organization.Model.Rows.{is_set}
use confirmd_platform.Access.{
  UserRole, Requester, GuardedRequest, Access, is_holder, request_org_id, resource_roles, is_of,
  find_org, role_of, names, platform_admin, shares, check_org, check_platform, can_activate,
}

-- One of the required roles is among the given ones.
abbrev pub IsShared : List Text → List Text → Type 0
IsShared required roles = (r : Text) × (Memᴰ r required × Memᴰ r roles)

shares_iff : (required roles : List Text) → (shares required roles ≡ true) ↔ IsShared required roles
shares_iff required roles = (
  λ e.
      let (r, (m, a)) = any_from (λ r. member r roles) required e in
      (r, (m, (member_iff r roles).0 a)),
  λ (r, (m, k)). any_of (λ r. member r roles) r required m ((member_iff r roles).1 k),
)

-- The user has a required role in the organisation, by a row of its own.
abbrev pub HasRow : List Text → List UserRole → Text → Type 0
HasRow required es org_id =
    (e : UserRole) × (Memᴰ e es × ((is_of org_id e ≡ true) × Memᴰ e.role required))

names-is_of :
    (org_id r : Text) (e : UserRole) → names r (role_of org_id e) ≡ true → is_of org_id e ≡ true
names-is_of org_id r e b = ground arith

names_role : (org_id r : Text) (e : UserRole) → names r (role_of org_id e) ≡ true → e.role ≡ r
names_role org_id r e b = sym ((same_iff r e.role).0 (ground (arith, names-is_of org_id r e b)))

names_from :
    (org_id r : Text) (es : List UserRole)
    → any (names r) (map (role_of org_id) es) ≡ true
    → (e : UserRole) × (Memᴰ e es × ((is_of org_id e ≡ true) × (e.role ≡ r)))
names_from org_id r [] a = absurd (ground (arith, a))
names_from org_id r (e ∷ es) a = elim (Bool-cases (names r (role_of org_id e))) [
  | inl b ↦ (e, (Memᴰ.head refl, (names-is_of org_id r e b, names_role org_id r e b)))
  | inr b ↦ let (x, (m, k)) = names_from org_id r es (ground arith) in (x, (Memᴰ.tail m, k))
]

names_of :
    (org_id : Text) (e : UserRole) (es : List UserRole)
    → Memᴰ e es
    → is_of org_id e ≡ true
    → any (names e.role) (map (role_of org_id) es) ≡ true
names_of org_id e [] m a = elim m [ ]
names_of org_id e (x ∷ es) (Memᴰ.head k) a =
    ground (arith, ap (is_of org_id) k, (same_iff e.role x.role).1 (ap (λ z. z.role) k))
names_of org_id e (x ∷ es) (Memᴰ.tail m) a = ground (arith, names_of org_id e es m a)

find_org_of :
    (org_id : Text) (e : UserRole) (es : List UserRole)
    → Memᴰ e es
    → is_of org_id e ≡ true
    → (x : UserRole) × (find_org org_id es ≡ some x)
unfolding find_org
find_org_of org_id e [] m a = elim m [ ]
find_org_of org_id e (x ∷ es) (Memᴰ.head k) a = (x, ground (arith, ap (is_of org_id) k))
find_org_of org_id e (x ∷ es) (Memᴰ.tail m) a = elim (Bool-cases (is_of org_id x)) [
  | inl b ↦ (x, ground arith)
  | inr b ↦ let (y, k) = find_org_of org_id e es m a in (y, ground arith)
]

module _ (is_valid_uuid : Text → Bool) (required : List Text) (u : Requester) (org_id : Text) where
  -- What lets a request in that names an organisation: the token gives a required role in it, or
  -- the token says nothing of it and a row of the user does.
  abbrev pub HasRole : Type 0
  HasRole =
      ((roles : List Text) × ((resource_roles u org_id ≡ some roles) × IsShared required roles))
      ⊎ ((resource_roles u org_id ≡ none) × HasRow required u.user_org_roles org_id)

  check_org-HasRole :
      (a : Access)
      → check_org is_valid_uuid required u org_id ≡ ok a
      → (is_valid_uuid org_id ≡ true) × HasRole
  unfolding check_org
  check_org-HasRole a e = (
    ground arith,
    elim (Option-cases (resource_roles u org_id)) [
      | inl k ↦
          let (r, (m, b)) =
            any_from (λ r. any (names r) (map (role_of org_id) u.user_org_roles)) required
              (ground arith) in
          let (x, (n, (c, d))) = names_from org_id r u.user_org_roles b in
          inr (k, (x, (n, (c, subst (λ z. Memᴰ z required) (sym d) m))))
      | inr (roles, k) ↦ inl (roles, (k, (shares_iff required roles).0 (ground arith)))
    ],
  )

  HasRole-check_org :
      is_valid_uuid org_id ≡ true
      → HasRole
      → (a : Access) × ((check_org is_valid_uuid required u org_id ≡ ok a) × (a.allowed ≡ true))
  unfolding check_org
  HasRole-check_org v (inl (roles, (k, s))) = (
    record { allowed = true; org_id = org_id; selected_org = none },
    (ground (arith, (shares_iff required roles).1 s), refl),
  )
  HasRole-check_org v (inr (k, (e, (m, (b, n))))) =
      let (x, f) = find_org_of org_id e u.user_org_roles m b in
      let all_names = map (role_of org_id) u.user_org_roles in
      (
        record {
          allowed = true;
          org_id = org_id;
          selected_org = some (record { org = x; org_roles = all_names });
        },
        (
          ground (
            arith,
            any_of (λ r. any (names r) all_names) e.role required n
                (names_of org_id e u.user_org_roles m b),
          ),
          refl,
        ),
      )

-- A holder is never let through. A request that names an organisation is let through by a role in
-- it, one that names none by the role of a platform administrator.
abbrev pub IsAllowed : (Text → Bool) → List Text → GuardedRequest → Type 0
IsAllowed is_valid_uuid required r =
    (is_holder r.user ≡ false)
    × (((is_set (some (request_org_id r)) ≡ true)
          × ((is_valid_uuid (request_org_id r) ≡ true)
              × HasRole is_valid_uuid required r.user (request_org_id r)))
        ⊎ ((is_set (some (request_org_id r)) ≡ false)
            × (Memᴰ platform_admin required
                × ((e : UserRole) × (Memᴰ e r.user.user_org_roles × (e.role ≡ platform_admin))))))

check_platform_iff :
    (required : List Text) (u : Requester)
    → ((a : Access) × ((check_platform required u ≡ ok a) × (a.allowed ≡ true))) ↔ (
        Memᴰ platform_admin required
        × ((e : UserRole) × (Memᴰ e u.user_org_roles × (e.role ≡ platform_admin))))
unfolding check_platform
check_platform_iff required u = (
  λ (a, (e, b)).
      let (x, (m, c)) =
        any_from (λ e. same e.role platform_admin) u.user_org_roles (ground arith) in
      (
        (member_iff platform_admin required).0 (ground arith),
        (x, (m, (same_iff x.role platform_admin).0 c)),
      ),
  λ (m, (x, (n, c))). (
    record { allowed = true; org_id = []; selected_org = none },
    (
      ground (
        arith,
        (member_iff platform_admin required).1 m,
        any_of (λ e. same e.role platform_admin) x u.user_org_roles n
            ((same_iff x.role platform_admin).1 c),
      ),
      refl,
    ),
  ),
)

-- On a route with required roles, `OrgRolesGuard` lets a request in exactly when the user is no
-- holder and one of two things holds: the request names an organisation by a valid identifier, and
-- the token or, if the token says nothing of it, a row of the user gives a required role in it; or
-- the request names none, platform administrators are among the required roles, and the user is
-- one.
pub can_activate_iff :
    (is_valid_uuid : Text → Bool) (required : List Text) (r : GuardedRequest)
    → ((a : Access) × ((can_activate is_valid_uuid (some required) r ≡ ok a) × (a.allowed ≡ true)))
      ↔ IsAllowed is_valid_uuid required r
unfolding can_activate
can_activate_iff is_valid_uuid required r = (
  λ (a, (e, b)). (
    ground arith,
    elim (Bool-cases (is_set (some (request_org_id r)))) [
      | inl k ↦
          inl
            (k, check_org-HasRole is_valid_uuid required r.user (request_org_id r) a (ground arith))
      | inr k ↦ inr (k, (check_platform_iff required r.user).0 (a, (ground arith, b)))
    ],
  ),
  λ (n, c). elim c [
    | inl (k, (v, s)) ↦
        let (a, (e, b)) = HasRole-check_org is_valid_uuid required r.user (request_org_id r) v s in
        (a, (ground arith, b))
    | inr (k, p) ↦
        let (a, (e, b)) = (check_platform_iff required r.user).1 p in (a, (ground arith, b))
  ],
)
