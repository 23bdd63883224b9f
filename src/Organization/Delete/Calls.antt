-- ===== src/Organization/Delete/Calls.antt =====
-- The calls of `deleteOrganization` outside of the tables: what they keep, and those that only read.
use confirmd_platform.Common.{
  ℕ, ◌≡◌, refl, sym, subst, Bool, true, false, ltb, Option, List, [], ◌∷◌, ◌++◌, length, filter,
  not, Text, arith, if◌then◌else◌,
}
use confirmd_platform.Outcome.{Outcome, ok, err, not_found, org_data_not_found_in_keycloak}
use confirmd_platform.Effect.{pure}
use confirmd_platform.Triple.{
  Ends, Triple, bind-Triple, given-Triple, throw_if-Triple, Triple-weaken,
}
use confirmd_platform.Organization.Model.Rows.{User}
use confirmd_platform.Organization.Delete.Handler.{
  Removal, RemovalAct, RemovalServices, OrgDetails, InformedMember, PrismaTable,
  delete_client_roles, org_deleted_activity, keycloak_ids, removal_token,
  get_user_keycloak_id_by_email, delete_all_roles, delete_user_client_roles, details_of,
  record_deletion, remove_roles, keycloak_id_of,
}
use confirmd_platform.Organization.Delete.Informed.{IsStable, call-Triple, quiet-Triple}

module _ (w : RemovalServices) (org : Text) where
  module _ {F : Removal → Type 0} (stable : IsStable F) where
    recorded-Triple :
        (b : Bool) (m : RemovalAct (Unit {0}))
        → Triple F m (λ _ s. F s × Unit {0}) F
        → Triple F (if b then m else pure tt) (λ _ s. F s × Unit {0}) F
    recorded-Triple true m h = h
    recorded-Triple false m h = record { runs = λ s p. (p, tt) }

    pub record_deletion-Triple :
        (d : ℕ × (PrismaTable × Option (List InformedMember)))
        → Triple F (record_deletion w org d) (λ _ s. F s × Unit {0}) F
    unfolding record_deletion
    record_deletion-Triple (n, (table, informed)) = recorded-Triple (ltb 0 n) _ (
        Triple-weaken (λ s p. p) (λ _ s p. (p.0, tt))
          (call-Triple w [] stable (org_deleted_activity org n table informed) w.activity_recorded))

    after_both : {A : Type 0} (q : Outcome A × Removal) → F q.1 → Ends (λ _. F) F q
    after_both (ok a, s) p = p
    after_both (err e, s) p = p

    one_role :
        (idp_id : Option Text) (token : Text) (id : Option Text) (s : Removal)
        → (delete_user_client_roles w idp_id token id s).1
          ≡ record s { calls = delete_client_roles idp_id token id ∷ s.calls }
    unfolding delete_user_client_roles
    one_role idp_id token id s = ground arith

    all_roles :
        (idp_id : Option Text) (token : Text) (ids : List (Option Text)) (s : Removal)
        → F s
        → F (delete_all_roles w idp_id token ids s).1
    unfolding delete_all_roles
    all_roles idp_id token [] s p = p
    all_roles idp_id token (id ∷ ids) s p =
        all_roles idp_id token ids (delete_user_client_roles w idp_id token id s).1
          (subst F (sym (one_role idp_id token id s)) (stable.under_call s _ p))

    roles-Triple :
        (idp_id : Option Text) (token : Text) (ids : List (Option Text))
        → Triple F (delete_all_roles w idp_id token ids) (λ _. F) F
    roles-Triple idp_id token ids = record {
      runs = λ s p.
          after_both (delete_all_roles w idp_id token ids s) (all_roles idp_id token ids s p);
    }

    keycloak_ids-quiet : (emails : List Text) (s : Removal) → (keycloak_ids w emails s).1 ≡ s
    unfolding get_user_keycloak_id_by_email
    keycloak_ids-quiet [] s = refl
    keycloak_ids-quiet (m ∷ ms) s = ground arith

    pub remove_roles-Triple :
        (user : Option User) (token : Text) (details : OrgDetails) (emails : List Text)
        → Triple F (remove_roles w user token details emails) (λ _. F) F
    unfolding remove_roles
    remove_roles-Triple user token details emails =
        bind-Triple (quiet-Triple w [] stable (keycloak_ids w emails) (keycloak_ids-quiet emails))
          (λ ids. given-Triple (λ _.
            bind-Triple (roles-Triple details.idp_id token (ids ++ (keycloak_id_of user ∷ [])))
              (λ settled.
                Triple-weaken (λ s p. p) (λ _ s p. p.0)
                  (throw_if-Triple (ltb 0 (length (filter not settled)))
                    (not_found org_data_not_found_in_keycloak) (λ s p. p)))))

  pub keycloak-quiet :
      (emails : List Text) (s : Removal) → (get_user_keycloak_id_by_email w emails s).1 ≡ s
  unfolding get_user_keycloak_id_by_email
  keycloak-quiet emails s = ground arith

  pub details_of-quiet : (id : Text) (s : Removal) → (details_of w id s).1 ≡ s
  unfolding details_of
  details_of-quiet [] s = refl
  details_of-quiet (c ∷ id) s = ground arith

  pub token-quiet : (user : Option User) (s : Removal) → (removal_token w user s).1 ≡ s
  token-quiet user s = ground arith
