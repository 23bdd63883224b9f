-- ===== src/Organization/Update/Agent.antt =====
-- What `updateOrganization` does for an organisation with an agent, and what a returned row is.
use confirmd_platform.Common.{
  ℕ, suc, ◌≡◌, refl, sym, ap, subst, ◌∙◌, ◌⊎◌, inl, inr, Bool-cases, true, false, Option, none,
  some, List, [], ◌∷◌, Text, arith,
}
use confirmd_platform.Outcome.{Outcome, ok, err, is_ok, Outcome-cases}
use confirmd_platform.Naming.{create_org_slug}
use confirmd_platform.Organization.Create.{is_valid_base64}
use confirmd_platform.Organization.Update.{
  UpdateOrganization, StoredOrg, AgentInvitation, Change, UpdateServices, upload_file, update_row,
  create_connection, update_invitation, record_activity, has_agent, is_other, check_name,
  stored_logo, create_connection_for, write_details, finish_update, update_organization,
  with_update,
}

-- How often the row of an organisation was written.
unfoldable pub row_updates : List Change → ℕ
row_updates [] = 0
row_updates (upload_file l ∷ h) = row_updates h
row_updates (update_row d ∷ h) = suc (row_updates h)
row_updates (create_connection n l i ∷ h) = row_updates h
row_updates (update_invitation o i ∷ h) = row_updates h
row_updates (record_activity u i ∷ h) = row_updates h

-- The logo that is written, and the calls up to then: an image is uploaded, and the address that the
-- store answers is written; any other logo is dropped.
abbrev pub IsLogo : UpdateServices → List Change → (given logo : Option Text) → List Change → Type 0
IsLogo o h none logo t = (logo ≡ none) × (t ≡ h)
IsLogo o h (some image) logo t =
    ((is_valid_base64 image ≡ true)
      × ((url : Text) × ((o.uploaded h image ≡ ok url)
            × ((logo ≡ some url) × (t ≡ upload_file image ∷ h)))))
    ⊎ ((is_valid_base64 image ≡ false) × ((logo ≡ none) × (t ≡ h)))

-- No other organisation was found under the name; after the logo was stored, the row was written
-- with the fields of the request, the slug of the name, the logo and the user; `org` is what the
-- database answered; and the activity was recorded. Nothing else was called.
pub record IsUpdated (o : UpdateServices) (dto : UpdateOrganization) (user_id org_id : Text)
    (h : List Change) (org : StoredOrg) (t : List Change) : Type 0 where
  pub existing : Option StoredOrg
  pub named : o.org_by_name h dto.name ≡ ok existing
  pub own_name : is_other existing org_id ≡ false
  pub logo : Option Text
  pub before : List Change
  pub logo_stored : IsLogo o h dto.logo logo before
  pub fields : UpdateOrganization
  pub fields_are : fields ≡ record dto {
    logo = logo;
    org_slug = some (create_org_slug dto.name);
    user_id = some user_id;
  }
  pub written : o.updated_row before fields ≡ ok org
  pub recorded : o.done (update_row fields ∷ before) (record_activity user_id org.id) ≡ ok tt
  pub calls_are : t ≡ record_activity user_id org.id ∷ update_row fields ∷ before

module _ (o : UpdateServices) where
  check_name-history : (name org_id : Text) (h : List Change) → (check_name o name org_id h).1 ≡ h
  unfolding check_name
  check_name-history name org_id h = ground arith

  stored_logo-row_updates :
      (logo : Option Text) (h : List Change) → row_updates (stored_logo o logo h).1 ≡ row_updates h
  unfolding stored_logo row_updates
  stored_logo-row_updates none h = refl
  stored_logo-row_updates (some logo) h = ground arith

  write_details-row_updates :
      (existing : Option StoredOrg) (dto : UpdateOrganization) (org_id : Text) (h : List Change)
      → row_updates (write_details o true existing dto org_id h).1 ≡ row_updates h
  unfolding write_details row_updates create_connection_for
  write_details-row_updates none dto org_id h = ground arith
  write_details-row_updates (some org) dto org_id h = ground arith

  write_details-none :
      (existing : Option StoredOrg) (dto : UpdateOrganization) (org_id : Text) (h : List Change)
      (d : Option StoredOrg)
      → (write_details o true existing dto org_id h).0 ≡ ok d
      → d ≡ none
  unfolding write_details
  write_details-none none dto org_id h d e = ground arith
  write_details-none (some org) dto org_id h d e = ground arith

  finish_update-throws :
      (existing : Option StoredOrg) (dto : UpdateOrganization) (user_id org_id : Text)
      (h : List Change) (i : AgentInvitation)
      → o.agent_invitation h org_id ≡ ok (some i)
      → has_agent (some i) ≡ true
      → (is_ok (finish_update o existing dto user_id org_id h).0 ≡ false)
        × (row_updates (finish_update o existing dto user_id org_id h).1 ≡ row_updates h)
  unfolding finish_update
  finish_update-throws existing dto user_id org_id h i e a =
      elim (Outcome-cases (write_details o true existing dto org_id h).0) [
        | inl (d, w) ↦
            let n = write_details-none existing dto org_id h d w in
            let r = write_details-row_updates existing dto org_id h in ground arith
        | inr (f, w) ↦ let r = write_details-row_updates existing dto org_id h in ground arith
      ]

  -- If `getAgentInvitationDetails` finds an invitation with a connection invitation or an agent,
  -- whatever was called before, then `updateOrganization` throws, and the row of the organisation
  -- is not written.
  pub update_organization-throws :
      (dto : UpdateOrganization) (user_id org_id : Text) (h : List Change) (i : AgentInvitation)
      → ((t : List Change) → o.agent_invitation t org_id ≡ ok (some i))
      → has_agent (some i) ≡ true
      → (is_ok (update_organization o dto user_id org_id h).0 ≡ false)
        × (row_updates (update_organization o dto user_id org_id h).1 ≡ row_updates h)
  unfolding update_organization
  update_organization-throws dto user_id org_id h i e a =
      elim (Outcome-cases (check_name o dto.name org_id h).0) [
        | inl (x, c) ↦ elim (Outcome-cases (stored_logo o dto.logo h).0) [
          | inl (l, s) ↦
              let t = (stored_logo o dto.logo h).1 in
              let p = check_name-history dto.name org_id h in
              let q = stored_logo-row_updates dto.logo h in
              let r =
                finish_update-throws x (with_update dto user_id l) user_id org_id t i (e t) a in
              ground arith
          | inr (f, s) ↦
              let p = check_name-history dto.name org_id h in
              let q = stored_logo-row_updates dto.logo h in ground arith
        ]
        | inr (f, c) ↦ let p = check_name-history dto.name org_id h in ground arith
      ]

  check_name-own :
      (name org_id : Text) (h : List Change) (x : Option StoredOrg)
      → (check_name o name org_id h).0 ≡ ok x
      → (o.org_by_name h name ≡ ok x) × (is_other x org_id ≡ false)
  unfolding check_name
  check_name-own name org_id h x e = elim (Outcome-cases (o.org_by_name h name)) [
    | inl (y, c) ↦ ground arith
    | inr (f, c) ↦ absurd (ground arith)
  ]

  stored_logo-IsLogo :
      (given : Option Text) (h : List Change) (logo : Option Text)
      → (stored_logo o given h).0 ≡ ok logo
      → IsLogo o h given logo (stored_logo o given h).1
  unfolding stored_logo
  stored_logo-IsLogo none h logo e = (ground arith, refl)
  stored_logo-IsLogo (some image) h logo e = elim (Bool-cases (is_valid_base64 image)) [
    | inl b ↦ elim (Outcome-cases (o.uploaded h image)) [
      | inl (url, u) ↦ inl (b, (url, (u, (ground arith, ground arith))))
      | inr (f, u) ↦ absurd (ground arith)
    ]
    | inr b ↦ inr (b, (ground arith, ground arith))
  ]

  -- What is left to do when the row has been written.
  after_details :
      UpdateOrganization → Text → List Change → Outcome StoredOrg → Outcome StoredOrg × List Change
  after_details dto user_id h (err f) = (err f, update_row dto ∷ h)
  after_details dto user_id h (ok org) =
      let act = record_activity user_id org.id in
      let t = update_row dto ∷ h in
      elim (o.done t act) [ ok _ ↦ (ok org, act ∷ t) | err f ↦ (err f, act ∷ t) ]

  finish-after :
      (existing : Option StoredOrg) (dto : UpdateOrganization) (user_id org_id : Text)
      (h : List Change) (i : Option AgentInvitation)
      → o.agent_invitation h org_id ≡ ok i
      → has_agent i ≡ false
      → finish_update o existing dto user_id org_id h
        ≡ after_details dto user_id h (o.updated_row h dto)
  unfolding finish_update write_details after_details
  finish-after existing dto user_id org_id h i a b = ground arith

  row_and_activity :
      (dto : UpdateOrganization) (user_id : Text) (h : List Change) (org : StoredOrg)
      (r : Outcome StoredOrg)
      → o.updated_row h dto ≡ r
      → (after_details dto user_id h r).0 ≡ ok org
      → (r ≡ ok org)
        × ((o.done (update_row dto ∷ h) (record_activity user_id org.id) ≡ ok tt)
            × ((after_details dto user_id h r).1
                ≡ record_activity user_id org.id ∷ update_row dto ∷ h))
  unfolding after_details
  row_and_activity dto user_id h org (err f) u e = absurd (ground arith)
  row_and_activity dto user_id h org (ok x) u e =
      elim (Outcome-cases (o.done (update_row dto ∷ h) (record_activity user_id x.id))) [
        | inl (tt, d) ↦
            let same_org : x ≡ org = ground arith in
            (
              ap (λ y. ok y) same_org,
              (
                subst
                    (λ (y : StoredOrg).
                      o.done (update_row dto ∷ h) (record_activity user_id y.id) ≡ ok tt)
                    same_org d,
                ground arith,
              ),
            )
        | inr (f, d) ↦ absurd (ground arith)
      ]

  -- With no agent the row is written.
  finish_update-written :
      (existing : Option StoredOrg) (dto : UpdateOrganization) (user_id org_id : Text)
      (h : List Change) (org : StoredOrg)
      → (finish_update o existing dto user_id org_id h).0 ≡ ok org
      → (o.updated_row h dto ≡ ok org)
        × ((o.done (update_row dto ∷ h) (record_activity user_id org.id) ≡ ok tt)
            × ((finish_update o existing dto user_id org_id h).1
                ≡ record_activity user_id org.id ∷ update_row dto ∷ h))
  unfolding finish_update
  finish_update-written existing dto user_id org_id h org e =
      elim (Outcome-cases (o.agent_invitation h org_id)) [
        | inl (i, a) ↦ elim (Bool-cases (has_agent i)) [
          | inl b ↦ elim (Outcome-cases (write_details o true existing dto org_id h).0) [
            | inl (d, w) ↦
                let n = write_details-none existing dto org_id h d w in absurd (ground arith)
            | inr (f, w) ↦ absurd (ground arith)
          ]
          | inr b ↦
              let x : finish_update o existing dto user_id org_id h
                  ≡ after_details dto user_id h (o.updated_row h dto) =
                finish-after existing dto user_id org_id h i a b in
              let q =
                row_and_activity dto user_id h org (o.updated_row h dto) refl
                  (sym (ap (λ p. p.0) x) ∙ e) in
              (q.0, (q.1.0, ap (λ p. p.1) x ∙ q.1.1))
        ]
        | inr (f, a) ↦ absurd (ground arith)
      ]

  -- If `updateOrganization` returns a row, then the organisation found under the name, if any, is
  -- the one to change; an image given as the logo was uploaded, and any other logo dropped; then the
  -- row was written with the fields of the request, the address of the uploaded image, the slug of
  -- the name and the user; the row returned is what the database answered; the activity was
  -- recorded; and nothing else was called.
  pub update_organization-IsUpdated :
      (dto : UpdateOrganization) (user_id org_id : Text) (h : List Change) (org : StoredOrg)
      → (update_organization o dto user_id org_id h).0 ≡ ok org
      → IsUpdated o dto user_id org_id h org (update_organization o dto user_id org_id h).1
  unfolding update_organization
  update_organization-IsUpdated dto user_id org_id h org e =
      elim (Outcome-cases (check_name o dto.name org_id h).0) [
        | inl (x, c) ↦ elim (Outcome-cases (stored_logo o dto.logo h).0) [
          | inl (l, s) ↦
              let t = (stored_logo o dto.logo h).1 in
              let p = check_name-history dto.name org_id h in
              let w = with_update dto user_id l in
              let f : (finish_update o x w user_id org_id t).0 ≡ ok org = ground arith in
              let n = check_name-own dto.name org_id h x c in
              let q = finish_update-written x w user_id org_id t org f in
              record {
                existing = x;
                named = n.0;
                own_name = n.1;
                logo = l;
                before = t;
                logo_stored = stored_logo-IsLogo dto.logo h l s;
                fields = w;
                fields_are = refl;
                written = q.0;
                recorded = q.1.0;
                calls_are = (let r = q.1.1 in ground arith);
              }
          | inr (f, s) ↦ let p = check_name-history dto.name org_id h in absurd (ground arith)
        ]
        | inr (f, c) ↦ absurd (ground arith)
      ]
