-- ===== src/Organization/Register/Calls.antt =====
-- The calls of a registration at Keycloak that succeeds.
use confirmd_platform.Common.{◌≡◌, refl, false, some, List, [], ◌∷◌, map, arith, Text, codes}
use confirmd_platform.Outcome.{ok}
use confirmd_platform.Effect.{for_each}
use confirmd_platform.Organization.Model.Rows.{User, OrgRole, ClientRole, OrgCredentials}
use confirmd_platform.Organization.Model.World.{World, Call, History, issue}
use confirmd_platform.Organization.Roles.{new_role, create_user_org_role}
use confirmd_platform.Organization.Token.{get_user}
use confirmd_platform.Organization.Register.{
  owner, org_roles_list, registration_token, assign_owner, register_to_keycloak,
}

-- The history after the calls of a list, made in order.
abbrev pub pushed : List Call → History → History
pushed [] h = h
pushed (c ∷ cs) h = pushed cs (c ∷ h)

for_each-pushed :
    (w : World) (call : Text → Call) (xs : List Text) (h : History)
    → (for_each xs (λ x. issue w (call x)) h).0 ≡ ok tt
    → (for_each xs (λ x. issue w (call x)) h).1 ≡ pushed (map call xs) h
unfolding for_each
for_each-pushed w call [] h e = refl
for_each-pushed w call (x ∷ xs) h e = ground (arith, for_each-pushed w call xs (call x ∷ h))

-- The calls of a registration, in order: the client, its five roles, and the owner's role for the
-- user, at Keycloak and in the table.
abbrev pub registration :
    (org_name org_id keycloak_user_id user_id token idp_id role_id : Text) → ClientRole → List Call
registration org_name org_id keycloak_user_id user_id token idp_id role_id c =
    Call.create_client org_name org_id token
    ∷ Call.create_client_role idp_id token (codes "owner")
    ∷ Call.create_client_role idp_id token (codes "admin")
    ∷ Call.create_client_role idp_id token (codes "issuer")
    ∷ Call.create_client_role idp_id token (codes "verifier")
    ∷ Call.create_client_role idp_id token (codes "member")
    ∷ Call.create_user_client_role idp_id token keycloak_user_id (c ∷ [])
    ∷ Call.create_user_org_role (new_role user_id role_id (some org_id) (some c.id))
    ∷ []

-- The history when the client and its five roles have been created.
abbrev pub with_roles : (org_name org_id token idp_id : Text) → History → History
with_roles org_name org_id token idp_id h =
    Call.create_client_role idp_id token (codes "member")
    ∷ Call.create_client_role idp_id token (codes "verifier")
    ∷ Call.create_client_role idp_id token (codes "issuer")
    ∷ Call.create_client_role idp_id token (codes "admin")
    ∷ Call.create_client_role idp_id token (codes "owner")
    ∷ Call.create_client org_name org_id token
    ∷ h

assign_owner-pushed :
    (w : World) (idp_id token keycloak_user_id user_id org_id role_id : Text) (c : ClientRole)
    (h : History)
    → (assign_owner w false idp_id token keycloak_user_id user_id org_id role_id c h).1
      ≡ Call.create_user_org_role (new_role user_id role_id (some org_id) (some c.id))
        ∷ Call.create_user_client_role idp_id token keycloak_user_id (c ∷ [])
        ∷ h
unfolding assign_owner create_user_org_role
assign_owner-pushed w idp_id token keycloak_user_id user_id org_id role_id c h = ground arith

-- If `registerToKeycloak` for a new assignment (`shouldUpdateRole` is false) of a known user
-- succeeds, and, once the client and its roles have been created, Keycloak and the table know the
-- owner's role, then it has made exactly these calls, in this order: one that creates the client, one
-- for each of its roles owner, admin, issuer, verifier and member, and then one that gives the
-- owner's role to the user at Keycloak and one that adds it in the table.
pub register_to_keycloak-pushed :
    (w : World) (org_name org_id keycloak_user_id user_id token : Text) (u : User)
    (d : OrgCredentials) (c : ClientRole) (role : OrgRole) (h : History)
    → (get_user w user_id h) ≡ (ok u, h)
    → (registration_token w u h) ≡ (ok token, h)
    → w.created_client h org_name org_id token ≡ ok d
    → w.client_role_by_name (with_roles org_name org_id token d.idp_id h) d.idp_id token owner
      ≡ ok c
    → w.role_by_name (with_roles org_name org_id token d.idp_id h) owner ≡ ok (some role)
    → (register_to_keycloak w org_name org_id keycloak_user_id user_id false h).0 ≡ ok d
    → (register_to_keycloak w org_name org_id keycloak_user_id user_id false h).1
      ≡ pushed (registration org_name org_id keycloak_user_id user_id token d.idp_id role.id c) h
unfolding register_to_keycloak
register_to_keycloak-pushed w org_name org_id keycloak_user_id user_id token u d c role h a b e p q
      r =
    let start_at = Call.create_client org_name org_id token ∷ h in
    let roles = Call.create_client_role d.idp_id token in
    let done = pushed (map roles org_roles_list) start_at in
    ground (
      arith,
      for_each-pushed w roles org_roles_list start_at,
      p,
      q,
      assign_owner-pushed w d.idp_id token keycloak_user_id user_id org_id role.id c done,
    )
