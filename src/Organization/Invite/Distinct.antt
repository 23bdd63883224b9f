-- ===== src/Organization/Invite/Distinct.antt =====
-- No address is invited twice, where the table of invitations remembers what was written to it.
use confirmd_platform.Common.{
  ◌≡◌, refl, ◌≢◌, ◌⊎◌, inl, inr, true, ◌||◌, List, [], ◌∷◌, Text, any, subst, sym,
}
use confirmd_platform.Outcome.{Outcome, ok, err, Outcome-cases}
use confirmd_platform.Trace.{Made, unchanged, after}
use confirmd_platform.Organization.Model.Rows.{OrgInvitation, pending}
use confirmd_platform.Organization.Model.World.{World, Call, History, NewInvitation}
use confirmd_platform.Organization.Invite.Sent.{MaySend, NoneOpen, create_invitation-Made}
use confirmd_platform.Organization.Invite.{
  SendInvitation, BulkSendInvitation, is_pending, is_accepted,
}
use confirmd_platform.Organization.Invite.Clients.{create_invitation}

abbrev pub with_if : Outcome (Unit {0}) → Text → List Text → List Text
with_if (ok _) email emails = email ∷ emails
with_if (err _) email emails = emails

-- The addresses of the invitations whose creation succeeded, the newest first.
abbrev pub invited_to : World → History → List Text
invited_to w [] = []
invited_to w (Call.create_invitation n ∷ h) =
    with_if (w.answer h (Call.create_invitation n)) n.email (invited_to w h)
invited_to w (_ ∷ h) = invited_to w h

abbrev pub IsFresh : Text → List Text → Type 0
IsFresh email [] = Unit
IsFresh email (e ∷ es) = (email ≢ e) × IsFresh email es

abbrev pub AreDistinct : List Text → Type 0
AreDistinct [] = Unit
AreDistinct (e ∷ es) = IsFresh e es × AreDistinct es

-- The row was written by a call that succeeded.
abbrev pub IsStored : World → NewInvitation → History → Type 0
IsStored w n [] = ⊥
IsStored w n (c ∷ h) = ((c ≡ Call.create_invitation n) × (w.answer h c ≡ ok tt)) ⊎ IsStored w n h

abbrev pub NoUpdate : History → Type 0
NoUpdate [] = Unit
NoUpdate (Call.update_invitation _ _ ∷ h) = ⊥
NoUpdate (_ ∷ h) = NoUpdate h

-- While no status is updated, a query for the address and the organisation of a pending row whose
-- creation succeeded lists an open invitation.
pub record Remembers (w : World) : Type 0 where
  pub lists :
      (h : History) (n : NewInvitation) (found : List OrgInvitation)
      → NoUpdate h
      → IsStored w n h
      → n.status ≡ pending
      → w.invitations_by h n.email n.org_id ≡ ok found
      → any (λ i. is_pending i.status || is_accepted i.status) found ≡ true

module _ (w : World) (law : Remembers w) (user_email user_id org_id : Text) where
  module _ (asked : List SendInvitation) where
    abbrev MaySendHere : Call → History → Type 0
    MaySendHere = MaySend w user_email user_id org_id asked

    stored_not_open :
        (h : History) (n : NewInvitation)
        → NoUpdate h
        → IsStored w n h
        → n.status ≡ pending
        → n.org_id ≡ org_id
        → NoneOpen (w.invitations_by h n.email org_id)
        → ⊥
    stored_not_open h n quiet s p o free =
        elim (Outcome-cases (w.invitations_by h n.email org_id)) [
          | inl (found, e) ↦
              let seen = law.lists h n found quiet s p (rw o e) in
              let closed : NoneOpen (ok found) = rw e at free in cc
          | inr (f, e) ↦ let closed : NoneOpen (err f) = rw e at free in closed
        ]

    -- What was invited by calls that `h` still holds is not invited again at `h`.
    Made-IsFresh :
        (h : History) (email : Text) {t : History}
        → Made MaySendHere [] t
        → ((n : NewInvitation) → IsStored w n t → IsStored w n h)
        → NoUpdate h
        → NoneOpen (w.invitations_by h email org_id)
        → IsFresh email (invited_to w t)
    Made-IsFresh h email unchanged keep quiet free = tt
    Made-IsFresh h email (after {t} (Call.create_invitation n) m p) keep quiet free =
        elim (Outcome-cases (w.answer t (Call.create_invitation n))) [
          | inl (tt, a) ↦
              subst (λ r. IsFresh email (with_if r n.email (invited_to w t))) (sym a)
                (
                  (λ e.
                      stored_not_open h n quiet (keep n (inl (refl, a))) p.0 p.1
                        (subst (λ x. NoneOpen (w.invitations_by h x org_id)) e free)),
                  Made-IsFresh h email m (λ k s. keep k (inr s)) quiet free,
                )
          | inr (f, a) ↦
              subst (λ r. IsFresh email (with_if r n.email (invited_to w t))) (sym a)
                (Made-IsFresh h email m (λ k s. keep k (inr s)) quiet free)
        ]
    Made-IsFresh h email (after (Call.send_email to) m p) keep quiet free =
        Made-IsFresh h email m (λ k s. keep k (inr s)) quiet free
    Made-IsFresh h email (after (Call.create_activity u o) m p) keep quiet free =
        Made-IsFresh h email m (λ k s. keep k (inr s)) quiet free
    Made-IsFresh h email (after _ m p) keep quiet free = absurd p

    Made-AreDistinct :
        {h : History} → Made MaySendHere [] h → NoUpdate h × AreDistinct (invited_to w h)
    Made-AreDistinct unchanged = (tt, tt)
    Made-AreDistinct (after {t} (Call.create_invitation n) m p) =
        let (quiet, distinct) = Made-AreDistinct m in
        elim (Outcome-cases (w.answer t (Call.create_invitation n))) [
          | inl (tt, a) ↦ (
            quiet,
            subst (λ r. AreDistinct (with_if r n.email (invited_to w t))) (sym a)
                (Made-IsFresh t n.email m (λ k s. s) quiet p.4, distinct),
          )
          | inr (f, a) ↦ (
            quiet,
            subst (λ r. AreDistinct (with_if r n.email (invited_to w t))) (sym a) distinct,
          )
        ]
    Made-AreDistinct (after (Call.send_email to) m p) = Made-AreDistinct m
    Made-AreDistinct (after (Call.create_activity u o) m p) = Made-AreDistinct m
    Made-AreDistinct (after _ m p) = absurd p

-- If a query for the address of a pending invitation whose creation succeeded lists an open one, as
-- long as no status is updated, then in one request at most one creation for an address succeeds,
-- even if the request repeats the address, and also if it ends with an error.
pub create_invitation-AreDistinct :
    (w : World) (dto : BulkSendInvitation) (user_id user_email : Text)
    → Remembers w
    → AreDistinct (invited_to w (create_invitation w dto user_id user_email []).1)
create_invitation-AreDistinct w dto user_id user_email law =
    (Made-AreDistinct w law user_email user_id dto.org_id dto.invitations
      (create_invitation-Made w dto user_id user_email [])).1
