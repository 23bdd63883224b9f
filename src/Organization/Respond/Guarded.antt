-- ===== src/Organization/Respond/Guarded.antt =====
-- When an answer to an invitation has an effect.
use confirmd_platform.Common.{
  ℕ, Text, ◌≡◌, refl, ap, ◌∙◌, ◌≢◌, ◌⊎◌, inl, inr, ◌↔◌, true, false, Option, none, some, arith,
  same, same_iff, Bool-cases,
}
use confirmd_platform.Outcome.{ok, Outcome-cases}
use confirmd_platform.Organization.Model.Rows.{
  Invitation, accepted, rejected, pending, OrgInvitation, Organisation,
}
use confirmd_platform.Organization.Model.World.{World, History}
use confirmd_platform.Organization.Invite.{
  get_organization_details, get_organization_details-history, get_organization_details_ok,
}
use confirmd_platform.Organization.Respond.{
  transition, UpdateInvitation, is_over_limit, settle, respond, check_limit, update_org_invitation,
}

-- A status may follow another exactly when the first is pending and the second is not.
transition_iff :
    (current next : Invitation)
    → (transition current next ≡ true) ↔ ((current ≡ pending) × (next ≢ pending))
unfolding transition
transition_iff pending accepted = ground arith
transition_iff pending rejected = ground arith
transition_iff pending pending = ground arith
transition_iff accepted next = ground arith
transition_iff rejected next = ground arith

-- What `updateOrgInvitation` checks before it writes.
pub record IsEntitled (w : World) (p : UpdateInvitation) (h : History) : Type 0 where
  pub invitation : OrgInvitation
  pub found : w.invitation_by_id h p.invitation_id ≡ ok (some invitation)
  pub email : invitation.email ≡ p.email
  pub org_id : invitation.org_id ≡ p.org_id
  pub was_pending : invitation.status ≡ pending
  pub settled : p.status ≢ pending
  pub organisation : Organisation
  pub org_found : w.organisation_by_id h p.org_id ≡ ok (some organisation)

pub check_limit-history :
    (w : World) (s : Invitation) (user_id : Text) (h : History) → (check_limit w s user_id h).1 ≡ h
unfolding check_limit
check_limit-history w accepted user_id h = ground arith
check_limit-history w _ user_id h = refl

check_limit_ok :
    (w : World) (s : Invitation) (user_id : Text) (h : History)
    → (check_limit w s user_id h).0 ≡ ok tt
    → s ≡ accepted
    → (count : ℕ) × (w.organisation_count h user_id ≡ ok count)
      × (is_over_limit w.max_org_limit count ≡ false)
unfolding check_limit
check_limit_ok w accepted user_id h e a = elim (Outcome-cases (w.organisation_count h user_id)) [
  | inl (count, e') ↦ (count, e', ground arith)
  | inr (f, e') ↦ absurd (ground arith)
]
check_limit_ok w rejected user_id h e a = cc
check_limit_ok w pending user_id h e a = cc

settle-cases :
    (w : World) (p : UpdateInvitation) (h : History) (i : OrgInvitation) (org : Option Organisation)
    → ((settle w i p org h).1 ≡ h)
      ⊎ ((i.status ≡ pending) × (p.status ≢ pending) × ((o : Organisation) × (org ≡ some o)))
unfolding settle
settle-cases w p h i none = inl refl
settle-cases w p h i (some o) = elim (Bool-cases (transition i.status p.status)) [
  | inl moves ↦
      let (was, now) = (transition_iff i.status p.status).0 moves in inr (was, now, (o, refl))
  | inr stays ↦ inl (ground arith)
]

respond-cases :
    (w : World) (p : UpdateInvitation) (h : History) (found : Option OrgInvitation)
    → ((respond w p found h).1 ≡ h)
      ⊎ ((i : OrgInvitation) × (found ≡ some i)
          × (i.email ≡ p.email)
          × (i.org_id ≡ p.org_id)
          × (i.status ≡ pending)
          × (p.status ≢ pending)
          × ((o : Organisation) × (w.organisation_by_id h p.org_id ≡ ok (some o))))
unfolding respond
respond-cases w p h none = inl refl
respond-cases w p h (some i) = elim (Bool-cases (same i.email p.email)) [
  | inr other ↦ inl (ground arith)
  | inl email ↦ elim (Bool-cases (same i.org_id p.org_id)) [
    | inr other ↦ inl (ground arith)
    | inl org_id ↦ elim (Outcome-cases (get_organization_details w p.org_id h).0) [
      | inr (f, e) ↦ inl (ground (arith, get_organization_details-history w p.org_id h))
      | inl (org, e) ↦ elim (settle-cases w p h i org) [
        | inl same_history ↦ inl (ground (arith, get_organization_details-history w p.org_id h))
        | inr (was, now, (o, e')) ↦ inr (
          i,
          refl,
          (same_iff _ _).0 email,
          (same_iff _ _).0 org_id,
          was,
          now,
          (o, get_organization_details_ok w p.org_id h org e ∙ ap ok e'),
        )
      ]
    ]
  ]
]

rejected_or : {X : Type 0} (s : Invitation) → s ≢ pending → (s ≡ accepted → X) → (s ≡ rejected) ⊎ X
rejected_or accepted n f = inr (f refl)
rejected_or rejected n f = inl refl
rejected_or pending n f = absurd (n refl)

-- If `updateOrgInvitation` makes any call for its effect, then the invitation exists, is addressed
-- to the user who answers, is of the organisation named and is still pending, the answer settles
-- it, the organisation exists, and either the answer is a rejection or the user is below the limit.
pub update_org_invitation-IsEntitled :
    (w : World) (p : UpdateInvitation) (h : History)
    → ((update_org_invitation w p h).1 ≡ h)
      ⊎ (IsEntitled w p h
          × ((p.status ≡ rejected)
              ⊎ ((count : ℕ) × (w.organisation_count h p.user_id ≡ ok count)
                  × (is_over_limit w.max_org_limit count ≡ false))))
unfolding update_org_invitation
update_org_invitation-IsEntitled w p h =
    elim (Outcome-cases (w.invitation_by_id h p.invitation_id)) [
      | inr (f, e) ↦ inl (ground arith)
      | inl (found, e) ↦ elim (Outcome-cases (check_limit w p.status p.user_id h).0) [
        | inr (f, e') ↦ inl (ground (arith, check_limit-history w p.status p.user_id h))
        | inl (u, e') ↦ elim (respond-cases w p h found) [
          | inl same_history ↦ inl (ground (arith, check_limit-history w p.status p.user_id h))
          | inr (i, e'', email, org_id, was, now, (o, there)) ↦ inr (
            record {
              invitation = i;
              found = e ∙ ap ok e'';
              email = email;
              org_id = org_id;
              was_pending = was;
              settled = now;
              organisation = o;
              org_found = there;
            },
            rejected_or p.status now (check_limit_ok w p.status p.user_id h e'),
          )
        ]
      ]
    ]
