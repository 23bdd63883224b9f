-- ===== src/User/Returns.antt =====
-- The steps of apps/user return a value when the database and the outside answer.
use confirmd_platform.Common.{
  ℕ, ◌≡◌, refl, sym, ap, subst, Bool, true, false, not, Option, none, some, List, ◌∷◌, arith, Text,
}
use confirmd_platform.Outcome.{
  Fault, Outcome, ok, err, rpc, internal, user_email_send, not_found, redirect_url_not_found,
}
use confirmd_platform.Effect.{lift, throw_if}
use confirmd_platform.Triple.{Ends, Triple, bind-Triple, catch_with-Triple}
use confirmd_platform.User.Model.{
  UserRow, Outside, Store, Services, Act, mail_code, query, ask, call, tick,
}
use confirmd_platform.Secret.{open_both}
use confirmd_platform.User.SignUp.{
  SendVerification, send_email_for_verification, first_sender, mail_verification, is_missing_url,
  first_redirect, is_empty_email,
}

-- The database works, and Keycloak and the mail service answer.
pub record Answers (w : Services) : Type 0 where
  pub database_up : (k : ℕ) → w.database k ≡ none
  pub token_given : (k : ℕ) (a b : Option Text) → (t : Text) × (w.management_token k a b ≡ ok t)
  pub redirects :
      (k : ℕ) (a : Option Text) (t : Text)
      → (l : _) × ((w.redirect_uris k a t ≡ ok l) × (is_missing_url w (first_redirect w l) ≡ false))
  pub sender :
      (k : ℕ)
      → (l : List Text) × ((w.email_from k ≡ ok l) × ((from : Text) × (first_sender w l ≡ ok from)))
  pub mail_accepted : (k : ℕ) → w.mail_sent k ≡ true
  pub uuid_set : (k : ℕ) → is_empty_email w (w.new_uuid k) ≡ false

abbrev pub Never : Store → Type 0
Never s = ⊥

pub record Has (us : List UserRow) (s : Store) : Type 0 where
  pub users_are : s.users ≡ us

-- The action returns, from every store with these users.
module _ {us : List UserRow} where
  pub returns :
      {X : Type 0} (G : X → Type 0) (r : Outcome X) (s : Store)
      → Has us s
      → (x : X) × ((r ≡ ok x) × G x)
      → Ends (λ x s. Has us s × G x) Never (r, s)
  returns G r s h (x, (e, g)) =
      subst (λ r. Ends (λ x s. Has us s × G x) Never (r, s)) (sym e) (h, g)

  pub ask-Returns :
      {X : Type 0} (G : X → Type 0) (answer : ℕ → Outcome X)
      → ((k : ℕ) → (x : X) × ((answer k ≡ ok x) × G x))
      → Triple (Has us) (ask answer) (λ x s. Has us s × G x) Never
  unfolding ask
  ask-Returns G answer g = record {
    runs =
        λ s h. returns G (answer s.step) (tick s) (record { users_are = h.users_are }) (g s.step);
  }

  pub call-Returns :
      {X : Type 0} (G : X → Type 0) (c : Outside) (answer : ℕ → Outcome X)
      → ((k : ℕ) → (x : X) × ((answer k ≡ ok x) × G x))
      → Triple (Has us) (call c answer) (λ x s. Has us s × G x) Never
  unfolding call
  call-Returns G c answer g = record {
    runs = λ s h.
        returns G (answer s.step) (record (tick s) { outside = c ∷ s.outside })
          (record { users_are = h.users_are }) (g s.step);
  }

  pub lift-Returns :
      {X : Type 0} (G : X → Type 0) (r : Outcome X)
      → (x : X) × ((r ≡ ok x) × G x)
      → Triple (Has us) (lift r) (λ x s. Has us s × G x) Never
  lift-Returns G r g = record { runs = λ s h. returns G r s h g }

  pub query-Returns :
      {X : Type 0} {Q : X → Store → Type 0} (w : Services) (f : Store → Outcome X × Store)
      → Answers w
      → ((s : Store) → Has us s → Ends Q Never (f s))
      → Triple (Has us) (query w f) Q Never
  unfolding query
  query-Returns {Q = Q} w f up h = record {
    runs = λ s p.
        subst (λ d. Ends Q Never (elim d [ some x ↦ (err x, tick s) | none ↦ f (tick s) ]))
          (sym (up.database_up s.step)) (h (tick s) (record { users_are = p.users_are }));
  }

  pub given-Returns :
      {X : Type 0} {F : Type 0} {m : Act X} {Q : X → Store → Type 0}
      → (F → Triple (Has us) m Q Never)
      → Triple (λ s. Has us s × F) m Q Never
  given-Returns h = record { runs = λ s p. (h p.1).runs s p.0 }

  pub throw_if-Returns :
      (c : Bool) (x : Fault) → c ≡ false → Triple (Has us) (throw_if c x) (λ _. Has us) Never
  throw_if-Returns true x e = absurd (ground (arith, e))
  throw_if-Returns false x e = record { runs = λ s h. h }

module _ (w : Services) (up : Answers w) where
  send_email-Returns :
      {us : List UserRow} (email code : Text)
      → Triple (Has us) (send_email_for_verification w email code) (λ _. Has us) Never
  unfolding send_email_for_verification
  send_email-Returns email code = catch_with-Triple rpc (
      bind-Triple
        (ask-Returns (λ l. (from : Text) × (first_sender w l ≡ ok from)) w.email_from up.sender)
        (λ l. given-Returns (λ from.
          bind-Triple (lift-Returns (λ _. Unit {0}) (first_sender w l) (from.0, (from.1, tt))) (λ _.
            given-Returns (λ _.
              bind-Triple
                (call-Returns (λ b. b ≡ true) (mail_code email code) (λ k. ok (w.mail_sent k))
                  (λ k. (true, (ap ok (up.mail_accepted k), refl))))
                (λ sent.
                  given-Returns
                    (λ e. throw_if-Returns (not sent) (internal user_email_send) (ap not e))))))))

  pub mail-Returns :
      {us : List UserRow} (r : SendVerification) (code : Text)
      → Triple (Has us) (mail_verification w r code) (λ _. Has us) Never
  unfolding mail_verification
  mail-Returns r code =
      let client = open_both w.crypto r.client_id r.client_secret in
      bind-Triple
        (ask-Returns (λ _. Unit {0}) (λ k. w.management_token k client.0 client.1)
          (λ k. let (t, e) = up.token_given k client.0 client.1 in (t, (e, tt))))
        (λ token. given-Returns (λ _.
          bind-Triple
            (ask-Returns (λ l. is_missing_url w (first_redirect w l) ≡ false)
              (λ k. w.redirect_uris k client.0 token) (λ k. up.redirects k client.0 token))
            (λ l. given-Returns (λ e.
              bind-Triple
                (throw_if-Returns (is_missing_url w (first_redirect w l))
                  (not_found redirect_url_not_found) e)
                (λ _. send_email-Returns r.email code)))))
