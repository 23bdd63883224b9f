-- ===== src/Organization/Respond/Granted.antt =====
-- What an answered invitation writes.
use confirmd_platform.Common.{
  ◌≡◌, refl, sym, ◌∙◌, subst, ◌≢◌, ap, inl, inr, false, Option, none, some, List, [], ◌∷◌, map,
  arith, Text, same_iff, All, Option-cases,
}
use mathlib.Core.List.{Memᴰ}
use confirmd_platform.Outcome.{ok, err, type_error, Outcome-cases}
use confirmd_platform.Effect.{for_each}
use confirmd_platform.Organization.Model.Rows.{
  Invitation, rejected, OrgInvitation, OrgRole, ClientRole, Organisation, is_set,
}
use confirmd_platform.Organization.Model.World.{World, Call, History}
use confirmd_platform.Organization.Roles.{new_role, create_user_org_role}
use confirmd_platform.Organization.Token.{token_of, token_of-history}
use confirmd_platform.Organization.Invite.{get_organization_details}
use confirmd_platform.Organization.Respond.Guarded.{check_limit-history}
use confirmd_platform.Organization.Respond.{
  UpdateInvitation, Reply, invitation_accept, invitation_reject, role_payload, payload_all,
  assign_client_roles, update_client_invitation, grant_roles, accept_with, settle, respond,
  update_org_invitation,
}

-- The history after a row for each role was created, in order.
abbrev pub granted : (user_id org_id : Text) → List Text → History → History
granted user_id org_id [] h = h
granted user_id org_id (r ∷ rs) h =
    granted user_id org_id rs
      (Call.create_user_org_role (new_role user_id r (some org_id) none) ∷ h)

-- Each of these calls succeeded.
abbrev pub WereGranted : World → (user_id org_id : Text) → List Text → History → Type 0
WereGranted w user_id org_id [] h = Unit {0}
WereGranted w user_id org_id (r ∷ rs) h =
    let call = Call.create_user_org_role (new_role user_id r (some org_id) none) in
    (w.answer h call ≡ ok tt) × WereGranted w user_id org_id rs (call ∷ h)

-- The status was set and the roles were given, by calls that all succeeded.
abbrev pub IsGranted : World → OrgInvitation → UpdateInvitation → History → History → Type 0
IsGranted w i p h h' =
    let set = Call.update_invitation p.invitation_id p.status in
    (h' ≡ granted p.user_id p.org_id i.org_roles (set ∷ h))
    × ((w.answer h set ≡ ok tt) × WereGranted w p.user_id p.org_id i.org_roles (set ∷ h))

for_each-WereGranted :
    (w : World) (user_id org_id : Text) (roles : List Text) (h : History)
    → let grant = for_each roles (λ r. create_user_org_role w user_id r (some org_id) none) in
      (grant h).0 ≡ ok tt → WereGranted w user_id org_id roles h
unfolding for_each create_user_org_role
for_each-WereGranted w user_id org_id [] h e = tt
for_each-WereGranted w user_id org_id (r ∷ rs) h e =
    let call = Call.create_user_org_role (new_role user_id r (some org_id) none) in
    elim (Outcome-cases (w.answer h call)) [
      | inl (tt, a) ↦
          (a, for_each-WereGranted w user_id org_id rs (call ∷ h) (ground (arith, a, e)))
      | inr (f, a) ↦ absurd (ground (arith, a, e))
    ]

for_each-granted :
    (w : World) (user_id org_id : Text) (roles : List Text) (h : History)
    → let grant = for_each roles (λ r. create_user_org_role w user_id r (some org_id) none) in
      (grant h).0 ≡ ok tt → (grant h).1 ≡ granted user_id org_id roles h
unfolding for_each create_user_org_role
for_each-granted w user_id org_id [] h e = refl
for_each-granted w user_id org_id (r ∷ rs) h e =
    let call = Call.create_user_org_role (new_role user_id r (some org_id) none) in
    ground (arith, for_each-granted w user_id org_id rs (call ∷ h))

grant_roles-IsGranted :
    (w : World) (i : OrgInvitation) (p : UpdateInvitation) (h : History)
    → (grant_roles w i p h).0 ≡ ok tt
    → IsGranted w i p h (grant_roles w i p h).1
unfolding grant_roles
grant_roles-IsGranted w i p h e =
    let set = Call.update_invitation p.invitation_id p.status in
    elim (Outcome-cases (w.answer h set)) [
      | inl (tt, a) ↦ (
        ground (arith, a, e, for_each-granted w p.user_id p.org_id i.org_roles (set ∷ h)),
        (a, for_each-WereGranted w p.user_id p.org_id i.org_roles (set ∷ h) (ground (arith, a, e))),
      )
      | inr (f, a) ↦ absurd (ground (arith, a, e))
    ]

-- What a reply says was done where there is no Keycloak client. A rejection updates the
-- invitation; an acceptance updates it, then adds the roles. The calls succeeded.
abbrev pub HasReplied :
    World → OrgInvitation → UpdateInvitation → History → History → Reply → Type 0
HasReplied w i p h h' invitation_reject =
    (p.status ≡ rejected)
    × ((h' ≡ Call.update_invitation p.invitation_id rejected ∷ h)
        × (w.answer h (Call.update_invitation p.invitation_id rejected) ≡ ok tt))
HasReplied w i p h h' invitation_accept = IsGranted w i p h h'

accept_with-IsGranted :
    (w : World) (idp_id : Option Text) (i : OrgInvitation) (p : UpdateInvitation) (h : History)
    → (accept_with w idp_id i p h).0 ≡ ok tt
    → is_set idp_id ≡ false
    → IsGranted w i p h (accept_with w idp_id i p h).1
unfolding accept_with
accept_with-IsGranted w none i p h e s = grant_roles-IsGranted w i p h e
accept_with-IsGranted w (some []) i p h e s = grant_roles-IsGranted w i p h e
accept_with-IsGranted w (some (c ∷ idp_id)) i p h e s = cc

settle-HasReplied :
    (w : World) (i : OrgInvitation) (p : UpdateInvitation) (o : Organisation) (h : History)
    (r : Reply)
    → is_set o.idp_id ≡ false
    → (settle w i p (some o) h).0 ≡ ok r
    → HasReplied w i p h (settle w i p (some o) h).1 r
unfolding settle
settle-HasReplied w i p o h invitation_reject s e = ground arith
settle-HasReplied w i p o h invitation_accept s e =
    let a : (accept_with w o.idp_id i p h).0 ≡ ok tt = ground arith in
    let same_history : (settle w i p (some o) h).1 ≡ (accept_with w o.idp_id i p h).1 =
      ground arith in
    subst (IsGranted w i p h) (sym same_history) (accept_with-IsGranted w o.idp_id i p h a s)

respond-eq-settle :
    (w : World) (i : OrgInvitation) (p : UpdateInvitation) (o : Organisation) (h : History)
    (r : Reply)
    → w.organisation_by_id h p.org_id ≡ ok (some o)
    → (respond w p (some i) h).0 ≡ ok r
    → respond w p (some i) h ≡ settle w i p (some o) h
unfolding respond get_organization_details
respond-eq-settle w i p o h r there e = ground arith

update-eq-respond :
    (w : World) (i : OrgInvitation) (p : UpdateInvitation) (h : History) (r : Reply)
    → w.invitation_by_id h p.invitation_id ≡ ok (some i)
    → (update_org_invitation w p h).0 ≡ ok r
    → update_org_invitation w p h ≡ respond w p (some i) h
unfolding update_org_invitation
update-eq-respond w i p h r found e = ground (arith, check_limit-history w p.status p.user_id h)

-- What a reply of `updateOrgInvitation` says was done, in an organisation without a Keycloak
-- client. A rejection set the status by a call that succeeded, and called nothing else. An
-- acceptance set the status, then added a row for each invited role, in order, each by a call that
-- succeeded, and called nothing else.
pub update_org_invitation-HasReplied :
    (w : World) (i : OrgInvitation) (p : UpdateInvitation) (o : Organisation) (h : History)
    (r : Reply)
    → w.invitation_by_id h p.invitation_id ≡ ok (some i)
    → w.organisation_by_id h p.org_id ≡ ok (some o)
    → is_set o.idp_id ≡ false
    → (update_org_invitation w p h).0 ≡ ok r
    → HasReplied w i p h (update_org_invitation w p h).1 r
update_org_invitation-HasReplied w i p o h r found there s e =
    let via = update-eq-respond w i p h r found e in
    let answered : (respond w p (some i) h).0 ≡ ok r = ap (λ q. q.0) (sym via) ∙ e in
    let step = via ∙ respond-eq-settle w i p o h r there answered in
    subst (λ q. HasReplied w i p h q.1 r) (sym step)
      (settle-HasReplied w i p o h r s (ap (λ q. q.0) (sym step) ∙ e))

-- The client's roles do not include one of that name.
abbrev pub IsMissing : OrgRole → List ClientRole → Type 0
IsMissing role = All (λ c. c.name ≢ role.name)

role_payload_of_IsMissing :
    (role : OrgRole) (cs : List ClientRole) → IsMissing role cs → role_payload cs role ≡ none
unfolding role_payload
role_payload_of_IsMissing role [] m = refl
role_payload_of_IsMissing role (c ∷ cs) m =
    ground (arith, same_iff c.name role.name, role_payload_of_IsMissing role cs m.1)

payload_all_error :
    (role : OrgRole) (cs : List ClientRole) (roles : List OrgRole)
    → IsMissing role cs
    → Memᴰ role roles
    → payload_all (map (role_payload cs) roles) ≡ err type_error
unfolding payload_all
payload_all_error role cs [] m k = elim k [ ]
payload_all_error role cs (r ∷ rs) m (Memᴰ.head e) = rw (← e, role_payload_of_IsMissing role cs m)
payload_all_error role cs (r ∷ rs) m (Memᴰ.tail k) = elim (Option-cases (role_payload cs r)) [
  | inl nothing ↦ rw nothing refl
  | inr (q, e) ↦ rw (e, payload_all_error role cs rs m k)
]

-- If an invited role has no role of its name at the Keycloak client, `updateClientInvitation`
-- throws a `TypeError` after the call that sets the status of the invitation has been made, whatever
-- that call is answered, and makes no other call: none that gives a role, at Keycloak or in the
-- table, and none that takes the status back.
pub update_client_invitation-loses :
    (w : World) (i : OrgInvitation) (idp_id user_id keycloak_user_id org_id token : Text)
    (status : Invitation) (h : History) (cs : List ClientRole) (roles : List OrgRole)
    (role : OrgRole)
    → (token_of w user_id h).0 ≡ ok token
    → w.all_client_roles h idp_id token ≡ ok cs
    → w.roles_by_ids h i.org_roles ≡ ok roles
    → Memᴰ role roles
    → IsMissing role cs
    → update_client_invitation w i idp_id user_id keycloak_user_id org_id status h
      ≡ (err type_error, Call.update_invitation i.id status ∷ h)
unfolding update_client_invitation assign_client_roles
update_client_invitation-loses w i idp_id user_id keycloak_user_id org_id token status h cs roles
      role t c r m k =
    ground (arith, token_of-history w user_id h, payload_all_error role cs roles k m)
