-- ===== src/User/Steps.antt =====
-- The operations of apps/user/repositories/user.repository.ts and the calls to the outside, as
-- steps from one claim on the table of users to another.
use confirmd_platform.Common.{
  ℕ, ◌≡◌, refl, sym, subst, Bool, true, false, Option, none, some, List, ◌∷◌, Text, arith, same,
}
use confirmd_platform.Outcome.{Fault, Outcome, ok, err}
use confirmd_platform.Effect.{lift, throw_if}
use confirmd_platform.Triple.{Ends, Triple}
use confirmd_platform.User.Model.{UserRow, Outside, Store, Services, Act, tick, query, ask, call}
use confirmd_platform.User.Table.{
  find_user, change, has_email, put_back, update_user, get_user_details, store_user_role,
  store_org_role, create_reset_token, get_reset_token, delete_reset_token,
}
use confirmd_platform.User.Held.{Claim, Frame, Follows}

pub record On (A : Claim) (s : Store) : Type 0 where
  pub held : A s.users s.outside

-- The claim holds before the action and after it, whichever way it ends.
abbrev pub Keeps : {X : Type 0} → Claim → Act X → Type 0
Keeps A m = Triple (On A) m (λ _. On A) (On A)

Ends-either :
    {X : Type 0} {A : Claim} (r : Outcome X) (s : Store) → On A s → Ends (λ _. On A) (On A) (r, s)
Ends-either (ok x) s h = h
Ends-either (err e) s h = h

pub throw_if-Keeps : {A : Claim} (c : Bool) (x : Fault) → Keeps A (throw_if c x)
throw_if-Keeps true x = record { runs = λ s h. h }
throw_if-Keeps false x = record { runs = λ s h. h }

module _ {X : Type 0} {A : Claim} where
  pub ask-Keeps : (answer : ℕ → Outcome X) → Keeps A (ask answer)
  unfolding ask
  ask-Keeps answer = record {
    runs = λ s h. Ends-either (answer s.step) (tick s) (record { held = h.held });
  }

  -- A call is among those made, whether it succeeds or not.
  pub call-Triple :
      {B : Claim} (c : Outside) (answer : ℕ → Outcome X)
      → ((us : List UserRow) (o : List Outside) → A us o → B us (c ∷ o))
      → Triple (On A) (call c answer) (λ _. On B) (On B)
  unfolding call
  call-Triple c answer f = record {
    runs = λ s h.
        Ends-either (answer s.step) (record (tick s) { outside = c ∷ s.outside })
          (record { held = f s.users s.outside h.held });
  }

  pub call-Keeps : Frame A → (c : Outside) (answer : ℕ → Outcome X) → Keeps A (call c answer)
  call-Keeps k c answer = call-Triple c answer (λ us o. k.grows us o c)

  pub lift-Keeps : (r : Outcome X) → Keeps A (lift r)
  lift-Keeps r = record { runs = λ s h. Ends-either r s h }

  pub query-Triple :
      {Q : X → Store → Type 0} {E : Claim} (w : Services) (f : Store → Outcome X × Store)
      → ((us : List UserRow) (o : List Outside) → A us o → E us o)
      → ((s : Store) → On A s → Ends Q (On E) (f s))
      → Triple (On A) (query w f) Q (On E)
  unfolding query
  query-Triple {Q = Q} {E = E} w f less h = record {
    runs = λ s p. answered s (record { held = p.held }) (w.database s.step);
  }
    where
      answered :
          (s : Store)
          → On A (tick s)
          → (d : Option Fault)
          → Ends Q (On E) (elim d [ some x ↦ (err x, tick s) | none ↦ f (tick s) ])
      answered s p (some x) = record { held = less s.users s.outside p.held }
      answered s p none = h (tick s) p

  -- An operation of the database on the other tables.
  pub query-Keeps :
      (w : Services) (f : Store → Outcome X × Store)
      → ((s : Store) → ((f s).1.users ≡ s.users) × ((f s).1.outside ≡ s.outside))
      → Keeps A (query w f)
  query-Keeps w f same_tables =
      query-Triple w f (λ us o h. h)
        (λ s h. Ends-either (f s).0 (f s).1 (record {
          held =
              subst (λ us. A us (f s).1.outside) (sym (same_tables s).0)
                (subst (A s.users) (sym (same_tables s).1) h.held);
        }))

-- A lookup says which row is the first one of that address.
pub get_user_details-Triple :
    {A : Claim} (w : Services) (email : Text)
    → Triple
        (On A)
        (get_user_details w email)
        (λ found s. On A s × (find_user (has_email email) s.users ≡ found))
        (On A)
unfolding get_user_details
get_user_details-Triple w email = query-Triple w _ (λ us o h. h) (λ s h. (h, refl))

-- An update that takes the claim `A` to the claim `B`, which says less.
pub update_user-Triple :
    {A B : Claim} (w : Services) (p : UserRow → Bool) (f : UserRow → UserRow)
    → ((us : List UserRow) (o : List Outside) → A us o → B us o)
    → ((us : List UserRow) (o : List Outside) (q : UserRow × List UserRow)
        → change p f us ≡ some q
        → A us o
        → B q.1 o)
    → Triple (On A) (update_user w p f) (λ _. On B) (On B)
unfolding update_user
update_user-Triple {A} {B} w p f less step =
    query-Triple w _ less (λ s h. put s h (change p f s.users) refl)
  where
    put :
        (s : Store) (h : On A s) (o : Option (UserRow × List UserRow))
        → change p f s.users ≡ o
        → Ends {A = UserRow} (λ _. On B) (On B) (put_back o s)
    put s h none e = record { held = less s.users s.outside h.held }
    put s h (some q) e = record { held = step s.users s.outside q e h.held }

module _ {A : Claim} (w : Services) where
  -- An update of other columns.
  pub edit-Keeps :
      Frame A
      → (p : UserRow → Bool) (f : UserRow → UserRow) → ((r : UserRow) → Follows r (f r))
      → Keeps A (update_user w p f)
  edit-Keeps k p f g =
      update_user-Triple w p f (λ us o h. h) (λ us o q e h. k.edits p f us o q g e h)

  pub store_user_role-Keeps : (user_id role_id : Text) → Keeps A (store_user_role w user_id role_id)
  unfolding store_user_role
  store_user_role-Keeps user_id role_id = query-Keeps w _ (λ s. (refl, refl))

  pub store_org_role-Keeps : (user_id role_id : Text) → Keeps A (store_org_role w user_id role_id)
  unfolding store_org_role
  store_org_role-Keeps user_id role_id = query-Keeps w _ (λ s. (refl, refl))

  pub get_reset_token-Keeps : (user_id token : Text) → Keeps A (get_reset_token w user_id token)
  unfolding get_reset_token
  get_reset_token-Keeps user_id token = query-Keeps w _ (λ s. (refl, refl))

  pub create_reset_token-Keeps :
      (user_id token : Text) (expires_at : ℕ)
      → Keeps A (create_reset_token w user_id token expires_at)
  unfolding create_reset_token same
  create_reset_token-Keeps user_id token expires_at = query-Keeps w _ (λ s. ground arith)

  pub delete_reset_token-Keeps : (id : Text) → Keeps A (delete_reset_token w id)
  unfolding delete_reset_token same
  delete_reset_token-Keeps id = query-Keeps w _ (λ s. ground arith)
