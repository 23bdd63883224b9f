-- ===== src/Organization/Invite/Sent.antt =====
-- Which invitations `createInvitation` creates, and which messages it sends.
use confirmd_platform.Common.{
  ◌≡◌, refl, ◌≢◌, inl, inr, ◌⊎◌, Bool, true, false, ◌||◌, Option, none, some, List, [], ◌∷◌, arith,
  Text, same_iff, any,
}
use mathlib.Core.List.{Memᴰ}
use confirmd_platform.Outcome.{Outcome, ok, err, Outcome-cases, rpc}
use confirmd_platform.Effect.{for_each, ◌>>=◌}
use confirmd_platform.Trace.{Made, unchanged, after, bind-Made, for_each-Made, catch_with-history}
use confirmd_platform.Organization.Model.Rows.{
  Organisation, OrgInvitation, ClientRole, OrgRole, pending,
}
use confirmd_platform.Organization.Model.World.{World, Call, History, issue}
use confirmd_platform.Organization.Roles.{get_org_roles, get_org_roles-history}
use confirmd_platform.Organization.Token.{token_of, token_of-history}
use confirmd_platform.Organization.Invite.Clients.{
  matched_roles, filtered_roles, invite_by_client_roles, create_invitation_by_client_roles,
  invite_all, invite_in, create_invitation,
}
use confirmd_platform.Organization.Invite.{
  SendInvitation, BulkSendInvitation, is_pending, is_accepted, new_invitation, scan_invitations,
  invite_if_new, invite_by_org_roles, create_invitation_by_org_roles, get_organization_details,
  get_organization_details-history,
}

-- The answer came, and lists no pending and no accepted invitation.
abbrev pub NoneOpen : Outcome (List OrgInvitation) → Type 0
NoneOpen (ok found) = any (λ i. is_pending i.status || is_accepted i.status) found ≡ false
NoneOpen (err _) = ⊥

scan_invitations-eq-any :
    (found : List OrgInvitation) (p a : Bool)
    → scan_invitations found p a
      ≡ (p || a || any (λ i. is_pending i.status || is_accepted i.status) found)
unfolding scan_invitations
scan_invitations-eq-any [] p a = ground arith
scan_invitations-eq-any (i ∷ found) p a = ground (
  arith,
  scan_invitations-eq-any found true a,
  scan_invitations-eq-any found true true,
  scan_invitations-eq-any found p true,
  scan_invitations-eq-any found p a,
)

-- The request asks for this address.
abbrev pub IsAsked : List SendInvitation → Text → Type 0
IsAsked asked email = (i : SendInvitation) × Memᴰ i asked × (i.email ≡ email)

-- An invitation may be created: it is asked for, new and pending, for this organisation and by
-- this user, its address is not the sender's and has no open invitation. A message goes to the
-- address of the invitation created just before it, and the user's activity is recorded. No other
-- call is made.
abbrev pub MaySend :
    World → (user_email user_id org_id : Text) → List SendInvitation → Call → History → Type 0
MaySend w user_email user_id org_id asked (Call.create_invitation n) h =
    (n.status ≡ pending)
    × (n.org_id ≡ org_id)
    × (n.user_id ≡ user_id)
    × (n.email ≢ user_email)
    × NoneOpen (w.invitations_by h n.email org_id)
    × IsAsked asked n.email
MaySend w user_email user_id org_id asked (Call.send_email to) (Call.create_invitation n ∷ _) =
    to ≡ n.email
MaySend w user_email user_id org_id asked (Call.create_activity u _) h = u ≡ user_id
MaySend w user_email user_id org_id asked _ _ = ⊥

module _ (w : World) (user_email user_id org_id : Text) where
  invite_if_new-cases :
      (email : Text) (roles : List Text) (h : History)
      → let h' = (invite_if_new w email user_email user_id org_id roles h).1 in
        let made = Call.create_invitation (new_invitation email org_id user_id roles) in
        (h' ≡ h)
        ⊎ (((h' ≡ made ∷ h) ⊎ (h' ≡ Call.send_email email ∷ made ∷ h))
            × (email ≢ user_email)
            × NoneOpen (w.invitations_by h email org_id))
  unfolding invite_if_new
  invite_if_new-cases email roles h = elim (Outcome-cases (w.invitations_by h email org_id)) [
    | inl (found, e) ↦
        ground (arith, scan_invitations-eq-any found false false, same_iff user_email email)
    | inr (f, e) ↦ ground arith
  ]

  invite_by_org_roles-cases :
      (i : SendInvitation) (h : History)
      → let h' = (invite_by_org_roles w user_email user_id org_id i h).1 in
        (h' ≡ h) ⊎ (h' ≡ (invite_if_new w i.email user_email user_id org_id i.org_role_id h).1)
  unfolding invite_by_org_roles
  invite_by_org_roles-cases i h = ground arith

  invite_by_client_roles-cases :
      (cs : List ClientRole) (os : List OrgRole) (i : SendInvitation) (h : History)
      → let h' = (invite_by_client_roles w user_email user_id org_id cs os i h).1 in
        let roles = filtered_roles (matched_roles i.org_role_id cs) os in
        (h' ≡ h) ⊎ (h' ≡ (invite_if_new w i.email user_email user_id org_id roles h).1)
  unfolding invite_by_client_roles
  invite_by_client_roles-cases cs os i h = ground arith

  module _ (asked : List SendInvitation) where
    abbrev Sends : History → History → Type 0
    Sends = Made (MaySend w user_email user_id org_id asked)

    invite_if_new-Sends :
        (email : Text) (roles : List Text) (h : History)
        → IsAsked asked email
        → Sends h (invite_if_new w email user_email user_id org_id roles h).1
    invite_if_new-Sends email roles h a = elim (invite_if_new-cases email roles h) [
      | inl same_history ↦ rw same_history unchanged
      | inr (inl e, ne, free) ↦ rw e (after _ unchanged (refl, refl, refl, ne, free, a))
      | inr (inr e, ne, free) ↦
          rw e (after _ (after _ unchanged (refl, refl, refl, ne, free, a)) refl)
    ]

    invite_by_org_roles-Sends :
        (i : SendInvitation) (h : History)
        → Memᴰ i asked
        → Sends h (invite_by_org_roles w user_email user_id org_id i h).1
    invite_by_org_roles-Sends i h m = elim (invite_by_org_roles-cases i h) [
      | inl same_history ↦ rw same_history unchanged
      | inr e ↦ rw e (invite_if_new-Sends i.email i.org_role_id h (i, m, refl))
    ]

    invite_by_client_roles-Sends :
        (cs : List ClientRole) (os : List OrgRole) (i : SendInvitation) (h : History)
        → Memᴰ i asked
        → Sends h (invite_by_client_roles w user_email user_id org_id cs os i h).1
    invite_by_client_roles-Sends cs os i h m = elim (invite_by_client_roles-cases cs os i h) [
      | inl same_history ↦ rw same_history unchanged
      | inr e ↦
          let roles = filtered_roles (matched_roles i.org_role_id cs) os in
          rw e (invite_if_new-Sends i.email roles h (i, m, refl))
    ]

module _ (w : World) (user_email user_id : Text) (dto : BulkSendInvitation) where
  abbrev SendsFor : History → History → Type 0
  SendsFor = Made (MaySend w user_email user_id dto.org_id dto.invitations)

  by_org_roles-Sends :
      (h : History) → SendsFor h (create_invitation_by_org_roles w dto user_email user_id h).1
  unfolding create_invitation_by_org_roles
  by_org_roles-Sends =
      for_each-Made dto.invitations (invite_by_org_roles w user_email user_id dto.org_id)
        (λ i m h. invite_by_org_roles-Sends w user_email user_id dto.org_id dto.invitations i h m)

  by_client_roles-cases :
      (idp_id : Text) (h : History)
      → let h' = (create_invitation_by_client_roles w dto user_email user_id idp_id h).1 in
        (h' ≡ h)
        ⊎ ((cs : List ClientRole) × (os : List OrgRole) × (h'
              ≡ (for_each dto.invitations
                  (invite_by_client_roles w user_email user_id dto.org_id cs os)
                  h).1))
  unfolding create_invitation_by_client_roles
  by_client_roles-cases idp_id h = elim (Outcome-cases (token_of w user_id h).0) [
    | inr (f, e) ↦ inl (ground (arith, token_of-history w user_id h))
    | inl (token, e) ↦ elim (Outcome-cases (w.all_client_roles h idp_id token)) [
      | inr (f, e') ↦ inl (ground (arith, token_of-history w user_id h))
      | inl (cs, e') ↦ elim (Outcome-cases (get_org_roles w h).0) [
        | inr (f, e'') ↦
            inl (ground (arith, token_of-history w user_id h, get_org_roles-history w h))
        | inl (os, e'') ↦
            inr (cs, os, ground (arith, token_of-history w user_id h, get_org_roles-history w h))
      ]
    ]
  ]

  by_client_roles-Sends :
      (idp_id : Text) (h : History)
      → SendsFor h (create_invitation_by_client_roles w dto user_email user_id idp_id h).1
  by_client_roles-Sends idp_id h = elim (by_client_roles-cases idp_id h) [
    | inl same_history ↦ rw same_history unchanged
    | inr (cs, os, e) ↦ rw e (
        for_each-Made dto.invitations (invite_by_client_roles w user_email user_id dto.org_id cs os)
          (λ i m t.
            invite_by_client_roles-Sends w user_email user_id dto.org_id dto.invitations cs os i t
              m)
          h)
  ]

  invite_all-Sends :
      (idp_id : Option Text) (h : History)
      → SendsFor h (invite_all w dto user_email user_id idp_id h).1
  unfolding invite_all
  invite_all-Sends none h = by_org_roles-Sends h
  invite_all-Sends (some []) h = by_org_roles-Sends h
  invite_all-Sends (some (c ∷ idp_id)) h = by_client_roles-Sends (c ∷ idp_id) h

  invite_in-Sends :
      (org : Option Organisation) (h : History)
      → SendsFor h (invite_in w dto user_id user_email org h).1
  unfolding invite_in
  invite_in-Sends none h = unchanged
  invite_in-Sends (some org) h =
      bind-Made (invite_all w dto user_email user_id org.idp_id)
        (λ _. issue w (Call.create_activity user_id org.id)) h (invite_all-Sends org.idp_id h)
        (λ _ _. after _ unchanged refl)

-- Whatever the tables, Keycloak and the mail service answer, and however the request ends,
-- `createInvitation` makes only the calls that `MaySend` allows: pending invitations for addresses
-- asked for, other than the sender's and with no open invitation when it was created; one message
-- to the address of the invitation just created; the record of the sender's activity.
pub create_invitation-Made :
    (w : World) (dto : BulkSendInvitation) (user_id user_email : Text) (h : History)
    → Made
        (MaySend w user_email user_id dto.org_id dto.invitations)
        h
        (create_invitation w dto user_id user_email h).1
unfolding create_invitation
create_invitation-Made w dto user_id user_email h =
    let details = get_organization_details w dto.org_id in
    let rest = invite_in w dto user_id user_email in
    rw (catch_with-history rpc (details >>= rest) h) (
      bind-Made details rest h (rw (get_organization_details-history w dto.org_id h) unchanged)
        (λ org _. invite_in-Sends w user_email user_id dto org (details h).1))
