-- ===== src/User/Quiet.antt =====
-- The parts of `resetTokenPassword` of apps/user that leave the table of tokens as it is.
use confirmd_platform.Common.{
  ℕ, ◌≡◌, Bool, true, false, if◌then◌else◌, Option, none, some, List, ◌∷◌, Text,
}
use confirmd_platform.Outcome.{Fault, Outcome, ok, err}
use confirmd_platform.Effect.{lift, throw_if}
use confirmd_platform.Triple.{Ends, Triple, bind-Triple}
use confirmd_platform.Organization.Model.Rows.{is_set}
use confirmd_platform.User.Model.{
  UserRow, ResetToken, Outside, Store, Services, Act, create_account, set_password, query, ask,
  call, tick,
}
use confirmd_platform.User.Table.{
  change, put_back, update_user, get_user_details, add_user_password, update_user_details,
}
use confirmd_platform.Secret.{decrypt_password}
use confirmd_platform.User.Login.{validate_email, known_user}
use confirmd_platform.User.Password.{
  store_password, update_fido_verified_user, change_account, open_account, set_or_create,
}

abbrev pub Anything : Store → Type 0
Anything s = Unit

pub record Holds (ts : List ResetToken) (s : Store) : Type 0 where
  pub tokens_same : s.tokens ≡ ts

-- The table of tokens is the same afterwards.
abbrev pub Quiet : {X : Type 0} → List ResetToken → Act X → Type 0
Quiet ts m = Triple (Holds ts) m (λ _. Holds ts) Anything

module _ {ts : List ResetToken} where
  Ends-quiet :
      {X : Type 0} (r : Outcome X) (s : Store) → Holds ts s → Ends (λ _. Holds ts) Anything (r, s)
  Ends-quiet (ok x) s h = h
  Ends-quiet (err e) s h = tt

  pub ask-Quiet : {X : Type 0} (answer : ℕ → Outcome X) → Quiet ts (ask answer)
  unfolding ask
  ask-Quiet answer = record {
    runs = λ s h. Ends-quiet (answer s.step) (tick s) (record { tokens_same = h.tokens_same });
  }

  call-Quiet : {X : Type 0} (c : Outside) (answer : ℕ → Outcome X) → Quiet ts (call c answer)
  unfolding call
  call-Quiet c answer = record {
    runs = λ s h.
        Ends-quiet (answer s.step) (record (tick s) { outside = c ∷ s.outside })
          (record { tokens_same = h.tokens_same });
  }

  pub lift-Quiet : {X : Type 0} (r : Outcome X) → Quiet ts (lift r)
  lift-Quiet r = record { runs = λ s h. Ends-quiet r s h }

  pub query-Triple_of :
      {X : Type 0} {Q : X → Store → Type 0} (w : Services) (f : Store → Outcome X × Store)
      → ((s : Store) → Holds ts s → Ends Q Anything (f s))
      → Triple (Holds ts) (query w f) Q Anything
  unfolding query
  query-Triple_of {Q = Q} w f h = record {
    runs = λ s p. answered s (record { tokens_same = p.tokens_same }) (w.database s.step);
  }
    where
      answered :
          (s : Store)
          → Holds ts (tick s)
          → (d : Option Fault)
          → Ends Q Anything (elim d [ some x ↦ (err x, tick s) | none ↦ f (tick s) ])
      answered s p (some x) = tt
      answered s p none = h (tick s) p

  update_user-Quiet :
      (w : Services) (p : UserRow → Bool) (f : UserRow → UserRow) → Quiet ts (update_user w p f)
  unfolding update_user
  update_user-Quiet w p f = query-Triple_of w _ (λ s h. put s h (change p f s.users))
    where
      put :
          (s : Store)
          → Holds ts s
          → (o : Option (UserRow × List UserRow))
          → Ends {A = UserRow} (λ _. Holds ts) Anything (put_back o s)
      put s h none = tt
      put s h (some q) = record { tokens_same = h.tokens_same }

  get_user_details-Quiet : (w : Services) (email : Text) → Quiet ts (get_user_details w email)
  unfolding get_user_details
  get_user_details-Quiet w email = query-Triple_of w _ (λ s h. h)

  throw_if-Quiet : (c : Bool) (x : Fault) → Quiet ts (throw_if c x)
  throw_if-Quiet true x = record { runs = λ s h. tt }
  throw_if-Quiet false x = record { runs = λ s h. h }

  if-Quiet :
      {X : Type 0} {m k : Act X} (c : Bool)
      → Quiet ts m
      → Quiet ts k
      → Quiet ts (if c then m else k)
  if-Quiet true h k = h
  if-Quiet false h k = k

module _ (w : Services) {ts : List ResetToken} where
  validate_email-Quiet : (email : Text) → Quiet ts (validate_email w email)
  unfolding validate_email
  validate_email-Quiet email = throw_if-Quiet _ _

  pub known_user-Quiet : (email : Text) → Quiet ts (known_user w email)
  unfolding known_user
  known_user-Quiet email =
      bind-Triple (validate_email-Quiet (w.to_lower_case email))
        (λ _. bind-Triple (get_user_details-Quiet w _) (λ found. lift-Quiet _))

  store_password-Quiet : (email : Text) (p : Option Text) → Quiet ts (store_password w email p)
  unfolding store_password add_user_password
  store_password-Quiet email p = bind-Triple (update_user-Quiet w _ _) (λ _. lift-Quiet (ok tt))

  pub update_fido_verified_user-Quiet :
      (email : Text) (c : Bool) (p : Option Text) → Quiet ts (update_fido_verified_user w email c p)
  unfolding update_fido_verified_user
  update_fido_verified_user-Quiet email c p =
      if-Quiet c (store_password-Quiet email p) (lift-Quiet (ok tt))

  open_account-Quiet : (u : UserRow) (plain : Text) → Quiet ts (open_account w u plain)
  unfolding open_account update_user_details
  open_account-Quiet u plain =
      bind-Triple (call-Quiet (create_account u.email (some plain)) w.created_account)
        (λ account. bind-Triple (update_user-Quiet w _ _) (λ _. lift-Quiet (ok tt)))

  change_account-Quiet : (u : UserRow) (plain : Text) → Quiet ts (change_account w u plain)
  unfolding change_account
  change_account-Quiet u plain = call-Quiet (set_password u.email (some plain)) w.password_set

  pub set_or_create-Quiet : (u : UserRow) (plain : Text) → Quiet ts (set_or_create w u plain)
  unfolding set_or_create
  set_or_create-Quiet u plain =
      bind-Triple (lift-Quiet (decrypt_password w.crypto u.client_id)) (λ id.
        bind-Triple (lift-Quiet (decrypt_password w.crypto u.client_secret)) (λ secret.
          bind-Triple (ask-Quiet (λ n. w.management_token n (some id) (some secret))) (λ token.
            if-Quiet (is_set u.keycloak_user_id) (change_account-Quiet u plain)
              (open_account-Quiet u plain))))
