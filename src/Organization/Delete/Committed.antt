-- ===== src/Organization/Delete/Committed.antt =====
-- What `deleteOrg` leaves when it succeeds and when it throws.
use confirmd_platform.Common.{
  ℕ, suc, ◌≡◌, refl, sym, ap, ◌∙◌, subst, ◌⊎◌, inl, inr, Bool, true, false, not, ltb, Option, none,
  some, List, [], ◌∷◌, filter, any, length, All, arith, Text, same, if◌then◌else◌, Bool-cases,
}
use confirmd_platform.Outcome.{Fault, Outcome, ok, err, external}
use confirmd_platform.Effect.{pure, lift}
use confirmd_platform.Triple.{Ends, Triple, given-Triple, bind-Triple, pure-Triple, Triple-weaken}
use confirmd_platform.Organization.Delete.{
  Row, RefTable, tables_to_check, Tables, Database, Failures, Deleted, of_org, is_org, without_org,
  clear_org, operation, count_all, check_counts, check_references, delete_records, delete_row,
  transaction_body, roll_back, delete_org,
}

-- The rows of the organisation are deleted, and schemas and credential definitions belong to none.
abbrev pub without : Text → Tables → Tables
without org t = record t {
  notifications = without_org org t.notifications;
  user_activities = without_org org t.user_activities;
  user_org_roles = without_org org t.user_org_roles;
  org_invitations = without_org org t.org_invitations;
  schemas = clear_org org t.schemas;
  credential_definitions = clear_org org t.credential_definitions;
  organisations = filter (λ r. not (is_org org r)) t.organisations;
}

-- No row of the tables to check belongs to the organisation.
abbrev pub IsUnreferenced : Text → Tables → Type 0
IsUnreferenced org t = All (λ k. any (of_org org) (t.references k) ≡ false) tables_to_check

record Are (t : Tables) (s : Database) : Type 0 where
  tables_are : s.tables ≡ t

-- The columns that another client wrote: none, those of the schemas, or both.
abbrev pub IsLeft : Text → Tables → Tables → Type 0
IsLeft org t u =
    ((u.schemas ≡ t.schemas) × (u.credential_definitions ≡ t.credential_definitions))
    ⊎ ((u.schemas ≡ clear_org org t.schemas)
        × ((u.credential_definitions ≡ t.credential_definitions)
            ⊎ (u.credential_definitions ≡ clear_org org t.credential_definitions)))

record Left (org : Text) (t : Tables) (s : Database) : Type 0 where
  is_left : IsLeft org t s.tables

module _ (w : Failures) (org : Text) (t₀ : Tables) where
  -- An operation of the database that reads and writes, or fails before.
  operation-Triple :
      {A : Type 0} {t : Tables} (g : Tables → A) (h : Tables → Tables)
      → IsLeft org t₀ t
      → Triple
          (Are t)
          (operation w org (λ u. (ok (g u), h u)))
          (λ a s. Are (h t) s × (a ≡ g t))
          (Left org t₀)
  unfolding operation
  operation-Triple {A} {t} g h left = record { runs = λ s p. ended s p (w.failure s.step) }
    where
      ended :
          (s : Database)
          → Are t s
          → (o : Option Fault)
          → Ends {A = A}
              (λ a s. Are (h t) s × (a ≡ g t))
              (Left org t₀)
              (elim o [
                | some x ↦ (err x, record s { step = suc s.step })
                | none ↦ (ok (g s.tables), record s { tables = h s.tables; step = suc s.step })
              ])
      ended s p (some x) = record { is_left = subst (IsLeft org t₀) (sym p.tables_are) left }
      ended s p none = (record { tables_are = ap h p.tables_are }, ap g p.tables_are)

  counts_of : List RefTable → List ℕ
  counts_of [] = []
  counts_of (k ∷ ks) = length (filter (of_org org) (t₀.references k)) ∷ counts_of ks

  counted :
      (k : RefTable) (ks : List RefTable) (n : ℕ) (ns : List ℕ)
      → n ≡ length (filter (of_org org) (t₀.references k))
      → ns ≡ counts_of ks
      → Triple (Are t₀) (pure (n ∷ ns)) (λ ms s. Are t₀ s × (ms ≡ counts_of (k ∷ ks))) (Left org t₀)
  unfolding counts_of
  counted k ks n ns e es = record { runs = λ s p. (p, ground (arith, e, es)) }

  count_all-Triple :
      (ks : List RefTable)
      → Triple (Are t₀) (count_all w org ks) (λ ns s. Are t₀ s × (ns ≡ counts_of ks)) (Left org t₀)
  unfolding count_all counts_of
  count_all-Triple [] = record { runs = λ s p. (p, refl) }
  count_all-Triple (k ∷ ks) =
      bind-Triple
        (operation-Triple (λ t. length (filter (of_org org) (t.references k))) (λ t. t)
          (inl (refl, refl)))
        (λ n. given-Triple (λ e.
          bind-Triple (count_all-Triple ks) (λ ns. given-Triple (λ es. counted k ks n ns e es))))

  empty_filter :
      (rows : List Row) → length (filter (of_org org) rows) ≡ 0 → any (of_org org) rows ≡ false
  unfolding same
  empty_filter [] e = refl
  empty_filter (r ∷ rows) e = elim (Bool-cases (of_org org r)) [
    | inl a ↦ absurd (ground (arith, e, a))
    | inr b ↦ ground (arith, b, empty_filter rows (ground (arith, e, b)))
  ]

  checked :
      (ks : List RefTable)
      → check_counts w org (counts_of ks) ≡ ok tt
      → All (λ k. any (of_org org) (t₀.references k) ≡ false) ks
  unfolding check_counts counts_of
  checked [] e = tt
  checked (k ∷ ks) e = elim (Bool-cases (ltb 0 (length (filter (of_org org) (t₀.references k))))) [
    | inl a ↦ absurd (ground (arith, e, a))
    | inr b ↦
        (empty_filter (t₀.references k) (ground (arith, b)), checked ks (ground (arith, e, b)))
  ]

  check-Triple :
      (ns : List ℕ)
      → ns ≡ counts_of tables_to_check
      → Triple
          (Are t₀)
          (lift (check_counts w org ns))
          (λ _ s. Are t₀ s × IsUnreferenced org t₀)
          (Left org t₀)
  check-Triple ns e = record { runs = λ s p. looked s p (check_counts w org ns) refl }
    where
      looked :
          (s : Database)
          → Are t₀ s
          → (r : Outcome (Unit {0})) → check_counts w org ns ≡ r
          → Ends (λ _ s. Are t₀ s × IsUnreferenced org t₀) (Left org t₀) (r, s)
      looked s p (ok a) x = (p, checked tables_to_check (ap (check_counts w org) (sym e) ∙ x))
      looked s p (err f) x = record {
        is_left = subst (IsLeft org t₀) (sym p.tables_are) (inl (refl, refl));
      }

  without_row : Tables → Tables
  without_row t = record t { organisations = filter (λ r. not (is_org org r)) t.organisations }

  delete_row-Triple :
      (t : Tables)
      → IsLeft org t₀ t
      → Triple (Are t) (operation w org (delete_row w org)) (λ _. Are (without_row t)) (Left org t₀)
  unfolding operation same without_row
  delete_row-Triple t left = record {
    runs = λ s p. ended s p (w.failure s.step) (any (is_org org) s.tables.organisations);
  }
    where
      ended :
          (s : Database)
          → Are t s
          → (o : Option Fault) → (b : Bool)
          → Ends {A = Unit {0}}
              (λ _. Are (without_row t))
              (Left org t₀)
              (elim o [
                | some x ↦ (err x, record s { step = suc s.step })
                | none ↦
                    let q : Outcome (Unit {0}) × Tables =
                      if b
                      then (ok tt, without_row s.tables)
                      else (err (external 2025), s.tables) in
                    (q.0, record s { tables = q.1; step = suc s.step })
              ])
      ended s p (some x) b = record { is_left = subst (IsLeft org t₀) (sym p.tables_are) left }
      ended s p none true = record { tables_are = ap without_row p.tables_are }
      ended s p none false = record { is_left = subst (IsLeft org t₀) (sym p.tables_are) left }

  check_references-Triple :
      (ks : List RefTable)
      → ((ns : List ℕ)
          → ns ≡ counts_of ks
          → Triple
              (Are t₀)
              (lift (check_counts w org ns))
              (λ _ s. Are t₀ s × IsUnreferenced org t₀)
              (Left org t₀))
      → Triple
          (Are t₀)
          (check_references w org ks)
          (λ _ s. Are t₀ s × IsUnreferenced org t₀)
          (Left org t₀)
  unfolding check_references
  check_references-Triple ks check =
      bind-Triple (count_all-Triple ks) (λ counts. given-Triple (check counts))

  -- An operation that deletes or clears rows.
  write-Triple :
      {A : Type 0} {t : Tables} (g : Tables → A) (h : Tables → Tables)
      → IsLeft org t₀ t
      → Triple (Are t) (operation w org (λ u. (ok (g u), h u))) (λ _. Are (h t)) (Left org t₀)
  write-Triple g h left = Triple-weaken (λ s p. p) (λ a s p. p.0) (operation-Triple g h left)

  delete_records-Triple :
      Triple (Are t₀) (delete_records w org) (λ _. Are (without org t₀)) (Left org t₀)
  unfolding delete_records without_row
  delete_records-Triple =
      bind-Triple
        (write-Triple (λ t. length (filter (of_org org) t.notifications))
          (λ t. record t { notifications = without_org org t.notifications }) (inl (refl, refl)))
        (λ a.
          bind-Triple
            (write-Triple (λ t. length (filter (of_org org) t.user_activities))
              (λ t. record t { user_activities = without_org org t.user_activities })
              (inl (refl, refl)))
            (λ b.
              bind-Triple
                (write-Triple (λ t. length (filter (of_org org) t.user_org_roles))
                  (λ t. record t { user_org_roles = without_org org t.user_org_roles })
                  (inl (refl, refl)))
                (λ c.
                  bind-Triple
                    (write-Triple (λ t. length (filter (of_org org) t.org_invitations))
                      (λ t. record t { org_invitations = without_org org t.org_invitations })
                      (inl (refl, refl)))
                    (λ d.
                      bind-Triple
                        (write-Triple (λ _. tt)
                          (λ t. record t { schemas = clear_org org t.schemas }) (inl (refl, refl)))
                        (λ _.
                          bind-Triple
                            (write-Triple (λ _. tt)
                              (λ t. record t {
                                credential_definitions = clear_org org t.credential_definitions;
                              })
                              (inr (refl, inl refl)))
                            (λ _. bind-Triple (delete_row-Triple _ (inr (refl, inr refl))) (λ _.
                              pure-Triple (record {
                                user_activity = b;
                                user_org_role = c;
                                invitations = d;
                                notification = a;
                              }))))))))

  body-Triple :
      Triple
        (Are t₀)
        (transaction_body w org)
        (λ _ s. Are (without org t₀) s × IsUnreferenced org t₀)
        (Left org t₀)
  unfolding transaction_body
  body-Triple = bind-Triple (check_references-Triple tables_to_check check-Triple) (λ _.
      given-Triple (λ free. Triple-weaken (λ s p. p) (λ _ s p. (p, free)) delete_records-Triple))

-- `deleteOrg` either succeeds, and then no table to check had a row of the organisation, its rows
-- are deleted, its schemas and credential definitions belong to none, and everything else is as it
-- was; or it throws, and then everything is as it was except that the schemas, or the schemas and
-- the credential definitions, may belong to none already.
pub delete_org-committed :
    (w : Failures) (org : Text) (s : Database)
    → ((d : Deleted) × (((delete_org w org s).0 ≡ ok d)
          × (IsUnreferenced org s.tables × ((delete_org w org s).1.tables ≡ without org s.tables))))
      ⊎ ((e : Fault) × (((delete_org w org s).0 ≡ err e)
            × ((u : Tables) × (IsLeft org s.tables u
                  × ((delete_org w org s).1.tables ≡ roll_back s.tables u)))))
unfolding delete_org
delete_org-committed w org s =
    ended (transaction_body w org s)
      ((body-Triple w org s.tables).runs s (record { tables_are = refl }))
  where
    ended :
        (p : Outcome Deleted × Database)
        → Ends
            (λ _ t. Are (without org s.tables) t × IsUnreferenced org s.tables)
            (Left org s.tables)
            p
        → let z : Outcome Deleted × Database = (elim p.0 [
          | ok d ↦ (ok d, p.1)
          | err e ↦ (err e, record p.1 { tables = roll_back s.tables p.1.tables })
        ]) in
          ((d : Deleted) × ((z.0 ≡ ok d)
              × (IsUnreferenced org s.tables × (z.1.tables ≡ without org s.tables))))
          ⊎ ((e : Fault) × ((z.0 ≡ err e)
                × ((u : Tables) × (IsLeft org s.tables u × (z.1.tables ≡ roll_back s.tables u)))))
    ended (ok d, t) h = inl (d, (refl, (h.1, h.0.tables_are)))
    ended (err e, t) h = inr (e, (refl, (t.tables, (h.is_left, refl))))
