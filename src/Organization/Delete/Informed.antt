-- ===== src/Organization/Delete/Informed.antt =====
-- What `deleteOrganization` does to the calls: who was informed when it goes on to the deletion.
use mathlib.Core.List.{Memᴰ}
use confirmd_platform.Common.{
  ◌≡◌, refl, sym, ap, subst, Option, none, some, List, [], ◌∷◌, All, Text,
}
use confirmd_platform.Outcome.{Outcome, ok, err}
use confirmd_platform.Effect.{◌>>=◌, ◌>>◌, read, non_null}
use confirmd_platform.Triple.{Ends, Triple, bind-Triple, given-Triple, pure-Triple}
use confirmd_platform.Organization.Model.Rows.{User}
use confirmd_platform.Organization.Delete.Handler.{
  RemovalCall, send_email, Removal, RemovalAct, RemovalServices, InformedMember, run_all, call,
  mail_of, push_informed, send_email_for_org_invitations_member, inform_member,
}

-- A condition that a further call or a further entry of the array does not end.
pub record IsStable (F : Removal → Type 0) : Type 0 where
  pub under_call : (s : Removal) (c : RemovalCall) → F s → F (record s { calls = c ∷ s.calls })
  pub under_entry : (s : Removal) (i : List InformedMember) → F s → F (record s { informed = i })

pub both-IsStable : {F G : Removal → Type 0} → IsStable F → IsStable G → IsStable (λ s. F s × G s)
both-IsStable f g = record {
  under_call = λ s c p. (f.under_call s c p.0, g.under_call s c p.1);
  under_entry = λ s i p. (f.under_entry s i p.0, g.under_entry s i p.1);
}

module _ (w : RemovalServices) (org_name : Text) where
  -- The user was found, and a mail was sent to the address of the user.
  abbrev pub HasMail : Option Text → Removal → Type 0
  HasMail id s =
      (u : User) × (((t : Removal) × (w.user_by_id t id ≡ ok (some u)))
        × ((roles : List Text) × Memᴰ (send_email (some u.email) org_name roles) s.calls))

  pub HasMail-IsStable : (id : Option Text) → IsStable (HasMail id)
  HasMail-IsStable id = record {
    under_call = λ s c (u, (k, (roles, m))). (u, (k, (roles, Memᴰ.tail m)));
    under_entry = λ s i p. p;
  }

  pub All-IsStable : (ids : List (Option Text)) → IsStable (λ s. All (λ id. HasMail id s) ids)
  All-IsStable [] = record { under_call = λ s c p. tt; under_entry = λ s i p. tt }
  All-IsStable (id ∷ ids) = both-IsStable (HasMail-IsStable id) (All-IsStable ids)

  -- Bodies that keep every stable condition, each of which adds a stable condition of its own.
  pub run_all-Triple :
      {A : Type 0} {G : A → Removal → Type 0} (xs : List A) (body : A → RemovalAct (Unit {0}))
      → ((x : A) → IsStable (G x))
      → ((x : A) (F : Removal → Type 0) → IsStable F → Triple F (body x) (λ _ s. F s × G x s) F)
      → {F : Removal → Type 0} → IsStable F
      → Triple F (run_all xs body) (λ _ s. F s × All (λ x. G x s) xs) F
  unfolding run_all
  run_all-Triple [] body g h f = record { runs = λ s p. (p, tt) }
  run_all-Triple {A} {G} (x ∷ xs) body g h {F} f = record {
    runs = λ s p. first (λ F k. run_all-Triple xs body g h k) (body x s) ((h x F f).runs s p);
  }
    where
      after_error :
          (q : Outcome (Unit {0}) × Removal) → Ends (λ _ t. F t × All (λ y. G y t) xs) F q → F q.1
      after_error (ok a, t) p = p.0
      after_error (err e, t) p = p

      both :
          (q : Outcome (Unit {0}) × Removal)
          → Ends (λ _ t. (F t × G x t) × All (λ y. G y t) xs) (λ t. F t × G x t) q
          → Ends (λ _ t. F t × All (λ y. G y t) (x ∷ xs)) F q
      both (ok a, t) p = (p.0.0, (p.0.1, p.1))
      both (err e, t) p = p.0

      first :
          ((F : Removal → Type 0)
            → IsStable F
            → Triple F (run_all xs body) (λ _ s. F s × All (λ x. G x s) xs) F)
          → (p : Outcome (Unit {0}) × Removal) → Ends (λ _ t. F t × G x t) F p
          → Ends {A = Unit {0}}
              (λ _ t. F t × All (λ y. G y t) (x ∷ xs))
              F
              (let q : Outcome (Unit {0}) × Removal = run_all xs body p.1 in
                elim p.0 [ ok _ ↦ q | err e ↦ (err e, q.1) ])
      first rest (ok a, t) k =
          both (run_all xs body t) ((rest (λ s. F s × G x s) (both-IsStable f (g x))).runs t k)
      first rest (err e, t) k = after_error (run_all xs body t) ((rest F f).runs t k)

  module _ {F : Removal → Type 0} (stable : IsStable F) where
    pub call-Triple :
        {A : Type 0} (c : RemovalCall) (answer : Removal → Outcome A)
        → Triple F (call c answer) (λ _ s. F s × Memᴰ c s.calls) F
    call-Triple {A} c answer = record { runs = λ s p. called s (answer s) p }
      where
        called :
            (s : Removal) (r : Outcome A)
            → F s
            → Ends (λ _ t. F t × Memᴰ c t.calls) F (r, record s { calls = c ∷ s.calls })
        called s (ok a) p = (stable.under_call s c p, Memᴰ.head refl)
        called s (err e) p = stable.under_call s c p

    -- An action that changes nothing: its answer is known from then on.
    pub quiet-Triple :
        {A : Type 0} (m : RemovalAct A)
        → ((s : Removal) → (m s).1 ≡ s)
        → Triple F m (λ a s. F s × ((t : Removal) × ((m t).0 ≡ ok a))) F
    quiet-Triple {A} m quiet = record {
      runs = λ s p. ends s (m s) refl (subst F (sym (quiet s)) p);
    }
      where
        ends :
            (s : Removal) (q : Outcome A × Removal)
            → m s ≡ q
            → F (m s).1
            → Ends (λ a t. F t × ((u : Removal) × ((m u).0 ≡ ok a))) F q
        ends s (ok a, t) e p = (subst F (ap (λ x. x.1) e) p, (s, ap (λ x. x.0) e))
        ends s (err x, t) e p = subst F (ap (λ x. x.1) e) p

    known-Triple :
        {A : Type 0} (answer : Removal → Outcome A)
        → Triple F (read answer) (λ a s. F s × ((t : Removal) × (answer t ≡ ok a))) F
    known-Triple answer = quiet-Triple (read answer) (λ s. refl)

    configured-Triple :
        (email : Option Text) (roles : List Text) (config : Option (Unit {0}))
        → Triple F
            (non_null config >> call (send_email email org_name roles) w.mail_sent)
            (λ _ s. F s × Memᴰ (send_email email org_name roles) s.calls)
            F
    configured-Triple email roles none = record { runs = λ s p. p }
    configured-Triple email roles (some c) =
        bind-Triple (pure-Triple c) (λ _. call-Triple (send_email email org_name roles) w.mail_sent)

    mail-Triple :
        (email : Option Text) (roles : List Text)
        → Triple F
            (send_email_for_org_invitations_member w email org_name roles)
            (λ _ s. F s × Memᴰ (send_email email org_name roles) s.calls)
            F
    unfolding send_email_for_org_invitations_member
    mail-Triple email roles =
        bind-Triple (known-Triple (λ s. w.platform_config s))
          (λ config. given-Triple (λ _. configured-Triple email roles config))

    entered-Triple :
        (id : Option Text) (roles : List Text) (found : Option User)
        → ((t : Removal) × (w.user_by_id t id ≡ ok found))
        → Triple
            (λ s. F s × Memᴰ (send_email (mail_of found) org_name roles) s.calls)
            (non_null found >>= λ u.
              push_informed
                (record { email = u.email; org_name = org_name; org_role_names = roles }))
            (λ _ s. F s × HasMail id s)
            F
    entered-Triple id roles none known = record { runs = λ s p. p.0 }
    entered-Triple id roles (some u) known = record {
      runs = λ s p. (stable.under_entry s _ p.0, (u, (known, (roles, p.1))));
    }

    mailed-Triple :
        (id : Option Text) (roles : List Text) (found : Option User)
        → ((t : Removal) × (w.user_by_id t id ≡ ok found))
        → Triple F
            (send_email_for_org_invitations_member w (mail_of found) org_name roles
              >> (non_null found >>= λ u.
                  push_informed
                    (record { email = u.email; org_name = org_name; org_role_names = roles })))
            (λ _ s. F s × HasMail id s)
            F
    mailed-Triple id roles found known =
        bind-Triple (mail-Triple (mail_of found) roles) (λ _. entered-Triple id roles found known)

    pub inform_member-Triple :
        (org_id : Text) (id : Option Text)
        → Triple F (inform_member w org_id org_name id) (λ _ s. F s × HasMail id s) F
    unfolding inform_member
    inform_member-Triple org_id id =
        bind-Triple (known-Triple (λ s. w.user_org_role_ids s id org_id)) (λ role_ids.
          given-Triple (λ _. bind-Triple (known-Triple (λ s. w.user_by_id s id)) (λ found.
            given-Triple (λ known.
              bind-Triple (known-Triple (λ s. w.role_names s role_ids))
                (λ names. given-Triple (λ _. mailed-Triple id names found known))))))
