-- ===== src/Organization/Delete/Removed.antt =====
-- What `deleteOrganization` leaves when it returns and when it throws.
use confirmd_platform.Common.{
  ◌≡◌, refl, subst, ◌⊎◌, inl, inr, Option, none, some, List, [], map, All, Text, arith,
}
use confirmd_platform.Outcome.{Fault, Outcome, ok, err, not_found, rpc, org_not_found}
use confirmd_platform.Effect.{read, lift, pure}
use confirmd_platform.Triple.{
  Ends, Triple, bind-Triple, given-Triple, catch_with-Triple, Triple-weaken, Triple-fail,
}
use confirmd_platform.Organization.Delete.{Tables, Database, Deleted, roll_back, delete_org}
use confirmd_platform.Organization.Delete.Committed.{
  without, IsUnreferenced, IsLeft, delete_org-committed,
}
use confirmd_platform.Organization.Delete.Handler.{
  Removal, RemovalAct, RemovalServices, UserKeycloakId, OrgDetails, in_database, removal_token,
  get_user_keycloak_id_by_email, details_of, inform_member, record_deletion, deletions,
  delete_and_record, inform_and_delete, delete_organization,
}
use confirmd_platform.Organization.Delete.Calls.{
  record_deletion-Triple, remove_roles-Triple, keycloak-quiet, details_of-quiet, token-quiet,
}
use confirmd_platform.Organization.Delete.Informed.{
  IsStable, both-IsStable, HasMail, HasMail-IsStable, All-IsStable, run_all-Triple, quiet-Triple,
  inform_member-Triple,
}

abbrev pub TablesAre : Tables → Removal → Type 0
TablesAre t s = s.database.tables ≡ t

-- What a throw leaves of the tables `t`: what `deleteOrg` leaves when it throws, or the tables
-- without the organisation.
abbrev pub IsInterrupted : Text → Tables → Removal → Type 0
IsInterrupted org t s =
    ((u : Tables) × (IsLeft org t u × TablesAre (roll_back t u) s)) ⊎ TablesAre (without org t) s

-- The tables are without the organisation, nothing referred to it, and every user found for the
-- invited addresses was sent a mail with its name.
pub record IsRemoved (w : RemovalServices) (org : Text) (t : Tables) (s : Removal) : Type 0 where
  pub is_unreferenced : IsUnreferenced org t
  pub tables_are : TablesAre (without org t) s
  pub details : OrgDetails
  pub found : (u : Removal) × ((details_of w org u).0 ≡ ok (some details))
  pub emails : List Text
  pub invited : (u : Removal) × (w.invited_addresses u org ≡ ok emails)
  pub entries : List UserKeycloakId
  pub known : (u : Removal) × ((get_user_keycloak_id_by_email w emails u).0 ≡ ok entries)
  pub mailed : All (λ id. HasMail w details.name id s) (map (λ (e : UserKeycloakId). e.id) entries)

TablesAre-IsStable : (t : Tables) → IsStable (TablesAre t)
TablesAre-IsStable t = record { under_call = λ s c p. p; under_entry = λ s i p. p }

module _ (w : RemovalServices) (org : Text) (t₀ : Tables) where
  untouched : (s : Removal) → TablesAre t₀ s → IsInterrupted org t₀ s
  untouched s p = inl (t₀, (inl (refl, refl), p))

  deleted-Triple :
      (name : Text) (ids : List (Option Text))
      → Triple
          (λ s. TablesAre t₀ s × All (λ id. HasMail w name id s) ids)
          (in_database (delete_org w.failures org))
          (λ _ s.
            (TablesAre (without org t₀) s × All (λ id. HasMail w name id s) ids)
            × IsUnreferenced org t₀)
          (IsInterrupted org t₀)
  deleted-Triple name ids = record {
    runs = λ s p.
        subst
          (λ t.
            Ends
              (λ (_ : Deleted) s.
                (TablesAre (without org t) s × All (λ id. HasMail w name id s) ids)
                × IsUnreferenced org t)
              (IsInterrupted org t) (in_database (delete_org w.failures org) s))
          p.0
          (ended s p.1 (delete_org w.failures org s.database)
            (delete_org-committed w.failures org s.database));
  }
    where
      ended :
          (s : Removal)
          → All (λ id. HasMail w name id s) ids
          → (q : Outcome Deleted × Database)
          → ((d : Deleted) × ((q.0 ≡ ok d)
                × (IsUnreferenced org s.database.tables
                    × (q.1.tables ≡ without org s.database.tables))))
            ⊎ ((e : Fault) × ((q.0 ≡ err e)
                  × ((u : Tables) × (IsLeft org s.database.tables u
                        × (q.1.tables ≡ roll_back s.database.tables u)))))
          → Ends
              (λ _ t.
                (TablesAre (without org s.database.tables) t × All (λ id. HasMail w name id t) ids)
                × IsUnreferenced org s.database.tables)
              (IsInterrupted org s.database.tables)
              (q.0, record s { database = q.1 })
      ended s m (ok d, x) (inl (_, (_, (free, e)))) = ((e, m), free)
      ended s m (ok d, x) (inr (_, (differs, _))) = absurd (ground (arith, differs))
      ended s m (err f, x) (inl (_, (differs, _))) = absurd (ground (arith, differs))
      ended s m (err f, x) (inr (_, (_, left))) = inl left

  kept-IsStable :
      (name : Text) (ids : List (Option Text))
      → IsStable (λ s. TablesAre (without org t₀) s × All (λ id. HasMail w name id s) ids)
  kept-IsStable name ids =
      both-IsStable (TablesAre-IsStable (without org t₀)) (All-IsStable w name ids)

  -- The deletion and the records of it, when the members have their mails.
  delete_and_record-Triple :
      (name : Text) (ids : List (Option Text))
      → Triple
          (λ s. TablesAre t₀ s × All (λ id. HasMail w name id s) ids)
          (delete_and_record w org)
          (λ _ s.
            (TablesAre (without org t₀) s × All (λ id. HasMail w name id s) ids)
            × IsUnreferenced org t₀)
          (IsInterrupted org t₀)
  delete_and_record-Triple name ids = bind-Triple (deleted-Triple name ids) (λ d.
      given-Triple (λ free.
        Triple-fail (λ s p. inr p.0)
          (bind-Triple
            (quiet-Triple w [] (kept-IsStable name ids) (read (λ s. ok s.informed)) (λ s. refl))
            (λ informed. given-Triple (λ _.
              Triple-weaken (λ s p. p) (λ _ s p. (p.0, free))
                (run_all-Triple w [] {G = λ _ _. Unit {0}} (deletions w d informed)
                  (record_deletion w org)
                  (λ _. record { under_call = λ s c p. tt; under_entry = λ s i p. tt })
                  (λ x F stable. record_deletion-Triple w org stable x)
                  (kept-IsStable name ids)))))))

  inform_and_delete-Triple :
      (details : OrgDetails) (emails : List Text)
      → ((u : Removal) × ((details_of w org u).0 ≡ ok (some details)))
      → ((u : Removal) × (w.invited_addresses u org ≡ ok emails))
      → Triple
          (TablesAre t₀)
          (inform_and_delete w org details.name emails)
          (λ _. IsRemoved w org t₀)
          (IsInterrupted org t₀)
  unfolding inform_and_delete
  inform_and_delete-Triple details emails found invited =
      bind-Triple
        (Triple-fail untouched (
          quiet-Triple w [] (TablesAre-IsStable t₀) (get_user_keycloak_id_by_email w emails)
            (keycloak-quiet w org emails)))
        (λ entries. given-Triple (λ known.
          bind-Triple
            (Triple-fail untouched (
              run_all-Triple w details.name (map (λ (e : UserKeycloakId). e.id) entries)
                (inform_member w org details.name) (λ id. HasMail-IsStable w details.name id)
                (λ id F stable. inform_member-Triple w details.name stable org id)
                (TablesAre-IsStable t₀)))
            (λ _.
              Triple-weaken (λ s p. p)
                (λ _ s p. record {
                  is_unreferenced = p.1;
                  tables_are = p.0.0;
                  details = details;
                  found = found;
                  emails = emails;
                  invited = invited;
                  entries = entries;
                  known = known;
                  mailed = p.0.1;
                })
                (delete_and_record-Triple details.name _))))

  found-Triple :
      (found : Option OrgDetails)
      → ((u : Removal) × ((details_of w org u).0 ≡ ok found))
      → Triple
          (TablesAre t₀)
          (elim found [ none ↦ lift (err (not_found org_not_found)) | some o ↦ pure o ])
          (λ o s. TablesAre t₀ s × ((u : Removal) × ((details_of w org u).0 ≡ ok (some o))))
          (IsInterrupted org t₀)
  found-Triple none known = record { runs = λ s p. untouched s p }
  found-Triple (some o) known = record { runs = λ s p. (p, known) }

  organization-Triple :
      (user_id : Text)
      → Triple
          (TablesAre t₀)
          (delete_organization w org user_id)
          (λ _. IsRemoved w org t₀)
          (IsInterrupted org t₀)
  unfolding delete_organization
  organization-Triple user_id = catch_with-Triple rpc (
      bind-Triple (reads (read (λ s. w.user_by_id s (some user_id))) (λ s. refl)) (λ user.
        given-Triple (λ _.
          bind-Triple (reads (removal_token w user) (token-quiet w org user)) (λ token.
            given-Triple (λ _.
              bind-Triple (reads (details_of w org) (details_of-quiet w org org)) (λ found.
                given-Triple (λ looked. bind-Triple (found-Triple found looked) (λ details.
                  given-Triple (λ known.
                    bind-Triple (reads (read (λ s. w.invited_addresses s org)) (λ s. refl))
                      (λ emails. given-Triple (λ invited.
                        bind-Triple
                          (Triple-fail untouched (
                            remove_roles-Triple w org (TablesAre-IsStable t₀) user token details
                              emails))
                          (λ _. inform_and_delete-Triple details emails known invited))))))))))))
    where
      reads :
          {A : Type 0} (m : RemovalAct A)
          → ((s : Removal) → (m s).1 ≡ s)
          → Triple
              (TablesAre t₀)
              m
              (λ a s. TablesAre t₀ s × ((u : Removal) × ((m u).0 ≡ ok a)))
              (IsInterrupted org t₀)
      reads m quiet = Triple-fail untouched (quiet-Triple w [] (TablesAre-IsStable t₀) m quiet)

-- `deleteOrganization` either returns, and then no table to check had a row of the organisation,
-- the tables are without it as `deleteOrg` leaves them, and every entry that was found for the
-- invited addresses belongs to a user to whose address a mail with the name of the organisation
-- was sent; or it throws, and then the tables are as `deleteOrg` leaves them when it throws, or
-- without the organisation.
pub delete_organization-IsRemoved :
    (w : RemovalServices) (org user_id : Text) (s : Removal)
    → (((delete_organization w org user_id s).0 ≡ ok tt)
        × IsRemoved w org s.database.tables (delete_organization w org user_id s).1)
      ⊎ ((e : Fault) × (((delete_organization w org user_id s).0 ≡ err e)
            × IsInterrupted org s.database.tables (delete_organization w org user_id s).1))
delete_organization-IsRemoved w org user_id s =
    ended (delete_organization w org user_id s)
      ((organization-Triple w org s.database.tables user_id).runs s refl)
  where
    ended :
        (q : Outcome (Unit {0}) × Removal)
        → Ends (λ _. IsRemoved w org s.database.tables) (IsInterrupted org s.database.tables) q
        → ((q.0 ≡ ok tt) × IsRemoved w org s.database.tables q.1)
          ⊎ ((e : Fault) × ((q.0 ≡ err e) × IsInterrupted org s.database.tables q.1))
    ended (ok a, t) h = inl (refl, h)
    ended (err e, t) h = inr (e, (refl, h))
