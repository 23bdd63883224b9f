-- ===== src/User/Spent.antt =====
-- A link of `forgotPassword` sets a password once: `resetTokenPassword` of apps/user.
use mathlib.Core.List.{Memᴰ}
use confirmd_platform.Common.{
  ℕ, suc, ◌≡◌, refl, sym, ap, subst, ◌≤◌, Bool, true, false, if◌then◌else◌, Option, none, some,
  List, map, All, any, ltb, arith, Text, same,
}
use confirmd_platform.Outcome.{
  Fault, Outcome, ok, err, rpc, internal, bad_request, keycloak_reset, invalid_reset_link,
}
use confirmd_platform.Effect.{pure, lift}
use confirmd_platform.Triple.{given-Triple, Ends, Triple, bind-Triple, catch_with-Triple}
use confirmd_platform.User.Model.{UserRow, ResetToken, Store, Services, ask, query, tick}
use confirmd_platform.User.Table.{
  no_row, find_token, get_user_details, get_reset_token, without_token, delete_reset_token,
}
use confirmd_platform.User.Change.{Unique}
use confirmd_platform.Secret.{decrypt_password}
use confirmd_platform.User.Login.{validate_email, check_known, known_user}
use confirmd_platform.User.Password.{check_token, reset_token_password}
use confirmd_platform.User.Tokens.{find_token-mem, without_token-gone}
use confirmd_platform.User.Quiet.{
  Anything, Holds, lift-Quiet, query-Triple_of, update_fido_verified_user-Quiet,
  set_or_create-Quiet,
}

-- The row `d` is the token of the user, and it has not expired by the clock that the reset reads: the
-- reset begins at `step`, looks up the user, then the token, and then reads the clock.
abbrev pub IsGood :
    Services → (step : ℕ) → List ResetToken → (user_id token : Text) → ResetToken → Type 0
IsGood w step ts user_id token d =
    Memᴰ d ts × (d.token ≡ token) × (d.user_id ≡ user_id) × (w.now (suc (suc step)) ≤ d.expires_at)

-- The tokens are these, and so many questions have been asked.
abbrev At : List ResetToken → ℕ → Store → Type 0
At ts n s = Holds ts s × (s.step ≡ n)

module _ (w : Services) {ts : List ResetToken} (n : ℕ) where
  query-At :
      {X : Type 0} {Q : X → Store → Type 0} (f : Store → Outcome X × Store)
      → ((s : Store) → At ts (suc n) s → Ends Q Anything (f s))
      → Triple (At ts n) (query w f) Q Anything
  unfolding query
  query-At {Q = Q} f h = record {
    runs = λ s p.
        answered s (record { tokens_same = p.0.tokens_same }, ap suc p.1) (w.database s.step);
  }
    where
      answered :
          (s : Store)
          → At ts (suc n) (tick s)
          → (d : Option Fault)
          → Ends Q Anything (elim d [ some x ↦ (err x, tick s) | none ↦ f (tick s) ])
      answered s p (some x) = tt
      answered s p none = h (tick s) p

module _ {ts : List ResetToken} (n : ℕ) where
  lift-At : {X : Type 0} (r : Outcome X) → Triple (At ts n) (lift r) (λ _. At ts n) Anything
  lift-At {X} r = record { runs = λ s p. ended s p r }
    where
      ended : (s : Store) → At ts n s → (r : Outcome X) → Ends (λ _. At ts n) Anything (r, s)
      ended s p (ok x) = p
      ended s p (err e) = tt

module _ (w : Services) {ts : List ResetToken} (n : ℕ) where
  validate_email-At :
      (email : Text) → Triple (At ts n) (validate_email w email) (λ _. At ts n) Anything
  unfolding validate_email
  validate_email-At email = lift-At n _

  get_user_details-At :
      (email : Text) → Triple (At ts n) (get_user_details w email) (λ _. At ts (suc n)) Anything
  unfolding get_user_details
  get_user_details-At email = query-At w n _ (λ s p. p)

  known_user-At :
      (email : Text) → Triple (At ts n) (known_user w email) (λ _. At ts (suc n)) Anything
  unfolding known_user
  known_user-At email = bind-Triple (validate_email-At (w.to_lower_case email)) (λ _.
      bind-Triple (get_user_details-At (w.to_lower_case email))
        (λ found. lift-At (suc n) (check_known w found)))

module _ (w : Services) (ts : List ResetToken) (n : ℕ) (email : Text) (password : Option Text)
    (token : Text) where
  get_reset_token-Triple :
      (user_id : Text)
      → Triple
          (At ts (suc n))
          (get_reset_token w user_id token)
          (λ found s. At ts (suc (suc n)) s × (find_token user_id token ts ≡ found))
          Anything
  unfolding get_reset_token
  get_reset_token-Triple user_id =
      query-At w (suc n) _ (λ s h. (h, ap (find_token user_id token) (sym h.0.tokens_same)))

  clock-Triple :
      Triple
        (At ts (suc (suc n)))
        (ask (λ k. ok (w.now k)))
        (λ now s. Holds ts s × (w.now (suc (suc n)) ≡ now))
        Anything
  unfolding ask
  clock-Triple = record {
    runs = λ s h. (record { tokens_same = h.0.tokens_same }, ap w.now (sym h.1));
  }

  check_token-Triple :
      (user_id : Text) (now : ℕ) (found : Option ResetToken)
      → find_token user_id token ts ≡ found
      → w.now (suc (suc n)) ≡ now
      → Triple
          (Holds ts)
          (lift (check_token now found))
          (λ d s. Holds ts s × IsGood w n ts user_id token d)
          Anything
  check_token-Triple user_id now none e c = record { runs = λ s h. tt }
  check_token-Triple user_id now (some d) e c = record {
    runs = λ s h. in_time s h (ltb d.expires_at now) refl;
  }
    where
      in_time :
          (s : Store)
          → Holds ts s
          → (b : Bool) → ltb d.expires_at now ≡ b
          → Ends
              (λ d s. Holds ts s × IsGood w n ts user_id token d)
              Anything
              ((if b then err (bad_request invalid_reset_link) else ok d), s)
      in_time s h true x = tt
      in_time s h false x =
          let (m, a, b) = find_token-mem user_id token ts d e in
          (h, (m, a, b, ground (arith, c, x)))

  delete_reset_token-Triple :
      (id : Text)
      → Triple (Holds ts) (delete_reset_token w id) (λ _ s. s.tokens ≡ without_token id ts) Anything
  unfolding delete_reset_token same
  delete_reset_token-Triple id =
      query-Triple_of w _ (λ s h. deleted s h (any (λ t. same t.id id) s.tokens))
    where
      deleted :
          (s : Store)
          → Holds ts s
          → (b : Bool)
          → Ends {A = Unit {0}}
              (λ _ s. s.tokens ≡ without_token id ts)
              Anything
              (if b
                then (ok tt, record s { tokens = without_token id s.tokens })
                else (err no_row, s))
      deleted s h true = ap (without_token id) h.tokens_same
      deleted s h false = tt

  -- What a reset leaves when it succeeds.
  abbrev IsSpent : (user_id : Text) → Store → Type 0
  IsSpent user_id s =
      (d : ResetToken) × (IsGood w n ts user_id token d × (s.tokens ≡ without_token d.id ts))

  reset_token_password-Triple :
      Triple (At ts n) (reset_token_password w email password token) (λ a s. IsSpent a.0 s) Anything
  unfolding reset_token_password
  reset_token_password-Triple = catch_with-Triple rpc (
      bind-Triple (known_user-At w n email) (λ u.
        bind-Triple (get_reset_token-Triple u.id) (λ found. given-Triple (λ e.
          bind-Triple clock-Triple (λ now. given-Triple (λ c.
            bind-Triple (check_token-Triple u.id now found e c) (λ d. given-Triple (λ good.
              bind-Triple (lift-Quiet (decrypt_password w.crypto password)) (λ plain.
                bind-Triple
                  (catch_with-Triple (λ _. internal keycloak_reset)
                    (bind-Triple (set_or_create-Quiet w u plain) (λ _.
                      update_fido_verified_user-Quiet w (w.to_lower_case email) u.is_fido_verified
                        password)))
                  (λ _. bind-Triple (delete_reset_token-Triple d.id) (λ _. spent u d good)))))))))))
    where
      spent :
          (u : UserRow) (d : ResetToken)
          → IsGood w n ts u.id token d
          → Triple {A = Text × Text}
              (λ s. s.tokens ≡ without_token d.id ts)
              (pure {S = Store} (u.id, u.email))
              (λ a s. IsSpent a.0 s)
              Anything
      spent u d good = record { runs = λ s e. (d, (good, e)) }

returned :
    {X : Type 0} (Q : X → Store → Type 0) (p : Outcome X × Store) (a : X) (t : Store)
    → p ≡ (ok a, t)
    → Ends Q Anything p
    → Q a t
returned Q p a t e h = subst (Ends Q Anything) e h

-- Where no two tokens have the same id or the same text, a reset by a link that succeeds had a
-- token of that link for its user, which had not expired by the clock as this reset read it, after
-- looking up the user and the token; and afterwards no token of that link is left, so the link works
-- once.
pub reset_token_password-spends :
    (w : Services) (email : Text) (password : Option Text) (token : Text) (s t : Store)
    (a : Text × Text)
    → Unique (map (λ x. x.id) s.tokens)
    → Unique (map (λ x. x.token) s.tokens)
    → reset_token_password w email password token s ≡ (ok a, t)
    → ((d : ResetToken) × IsGood w s.step s.tokens a.0 token d)
      × All (λ x. same x.token token ≡ false) t.tokens
reset_token_password-spends w email password token s t a i u e =
    let (d, (good, left)) =
      returned (λ a t. IsSpent w s.tokens s.step email password token a.0 t)
        (reset_token_password w email password token s) a t e
        ((reset_token_password-Triple w s.tokens s.step email password token).runs s
          (record { tokens_same = refl }, refl)) in
    (
      (d, good),
      subst (All (λ x. same x.token token ≡ false)) (sym left) (
          subst (λ z. All (λ x. same x.token z ≡ false) (without_token d.id s.tokens)) good.1
            (without_token-gone s.tokens d i u good.0)),
    )
