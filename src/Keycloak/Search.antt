-- ===== src/Keycloak/Search.antt =====
-- The account that `createUser` of libs/client-registration makes and finds again.
use mathlib.Core.List.{Memᴰ}
use confirmd_platform.Common.{
  ℕ, zero, suc, ◌+◌, ◌≤◌, ◌≡◌, refl, ap, subst, ◌⊎◌, inl, inr, Option, none, some, List, [], ◌∷◌,
  length, arith, Text,
}
use confirmd_platform.Outcome.{Outcome, ok, err}
use confirmd_platform.Effect.{pure, lift, perform}
use confirmd_platform.Triple.{
  Ends, Triple, bind-Triple, catch-Triple, pure-Triple, Triple-weaken, Triple-fail,
}
use confirmd_platform.Keycloak.{
  Sent, Keycloak, CreateUser, first_user, search_by, or_else, search_once, search_user,
  user_or_error, reset_password_of_keycloak_user, create_keycloak_user, Act,
}

-- A request made when `h` had been made: a search for the address, after the account was posted,
-- which was answered by a list with this user in front.
abbrev IsAnswer : Keycloak → (email user_id : Text) → Sent → List Sent → Type 0
IsAnswer w email user_id c h =
    ((c ≡ Sent.get_users_by_username email) ⊎ (c ≡ Sent.get_users_by_email email))
    × (Memᴰ (Sent.post_user email) h
        × ((a : Option (List Text)) × ((w.users h c ≡ ok a) × (first_user a ≡ some user_id))))

-- One of the requests in the history is such a search.
abbrev IsFound : Keycloak → (email user_id : Text) → List Sent → Type 0
IsFound w email user_id [] = ⊥
IsFound w email user_id (c ∷ h) = IsAnswer w email user_id c h ⊎ IsFound w email user_id h

-- Either no user, or one that was found.
abbrev MayBeFound : Keycloak → Text → Option Text → List Sent → Type 0
MayBeFound w email none h = Unit
MayBeFound w email (some u) h = IsFound w email u h

record Posted (email : Text) (n : ℕ) (h : List Sent) : Type 0 where
  was_posted : Memᴰ (Sent.post_user email) h
  at_most : length h ≤ n

later :
    (email : Text) (c : Sent) (n : ℕ) (h : List Sent)
    → Posted email n h
    → Posted email (suc n) (c ∷ h)
later email c n h p = record {
  was_posted = Memᴰ.tail p.was_posted;
  at_most = ground (arith, p.at_most);
}

longer : (email : Text) (k n : ℕ) (h : List Sent) → n ≤ k → Posted email n h → Posted email k h
longer email k n h le p = record {
  was_posted = p.was_posted;
  at_most = omega (arith, p.at_most, le);
}

-- The requests made after a loop that begins after `n`, with two in each attempt.
abbrev budget : ℕ → ℕ → ℕ
budget zero n = n + 2
budget (suc left) n = budget left (n + 2)

budget_le : (left n : ℕ) → n ≤ budget left n
budget_le zero n = omega arith
budget_le (suc left) n = omega (arith, budget_le left (n + 2))

module _ (w : Keycloak) (email : Text) where
  -- What a search for the address leaves, after at most `n` requests.
  abbrev Searched : ℕ → Option Text → List Sent → Type 0
  Searched n o h = Posted email n h × MayBeFound w email o h

  search_by-Triple :
      (c : Sent) (n : ℕ)
      → (c ≡ Sent.get_users_by_username email) ⊎ (c ≡ Sent.get_users_by_email email)
      → Triple (Posted email n) (search_by w c) (Searched (suc n)) (Posted email (suc n))
  unfolding search_by
  search_by-Triple c n kind = record { runs = λ h p. answered h p (w.users h c) refl }
    where
      in_answer :
          (h : List Sent) (a : Option (List Text)) (o : Option Text)
          → Posted email n h
          → w.users h c ≡ ok a
          → first_user a ≡ o
          → MayBeFound w email o (c ∷ h)
      in_answer h a none p e f = tt
      in_answer h a (some u) p e f = inl (kind, (p.was_posted, (a, (e, f))))

      answered :
          (h : List Sent)
          → Posted email n h
          → (r : Outcome (Option (List Text))) → w.users h c ≡ r
          → Ends
              (Searched (suc n))
              (Posted email (suc n))
              (elim r [ ok a ↦ (ok (first_user a), c ∷ h) | err x ↦ (err x, c ∷ h) ])
      answered h p (ok a) e = (later email c n h p, in_answer h a (first_user a) p e refl)
      answered h p (err x) e = later email c n h p

  or_else-Triple :
      {n k : ℕ} (o : Option Text) (rest : Act (Option Text))
      → n ≤ k
      → Triple (Posted email n) rest (Searched k) (Posted email k)
      → Triple (Searched n o) (or_else w o rest) (Searched k) (Posted email k)
  unfolding or_else
  or_else-Triple none rest le t = Triple-weaken (λ h p. p.0) (λ a h q. q) t
  or_else-Triple {n} {k} (some u) rest le t = record {
    runs = λ h p. (longer email k n h le p.0, p.1);
  }

  search_once-Triple :
      (n : ℕ)
      → Triple (Posted email n) (search_once w email) (Searched (n + 2)) (Posted email (n + 2))
  unfolding search_once
  search_once-Triple n =
      bind-Triple
        (Triple-fail (λ h. longer email (n + 2) (suc n) h (omega arith))
          (search_by-Triple (Sent.get_users_by_username email) n (inl refl)))
        (λ o. or_else-Triple o (search_by w (Sent.get_users_by_email email)) (omega arith) (
          within (suc (suc n)) (omega arith)
            (search_by-Triple (Sent.get_users_by_email email) (suc n) (inr refl))))
    where
      within :
          {m : Act (Option Text)} {k : ℕ} (j : ℕ)
          → j ≤ k
          → Triple (Posted email (suc n)) m (Searched j) (Posted email j)
          → Triple (Posted email (suc n)) m (Searched k) (Posted email k)
      within {k = k} j le t =
          Triple-fail (λ h. longer email k j h le)
            (Triple-weaken (λ h p. p) (λ a h q. (longer email k j h le q.0, q.1)) t)

  none-Triple :
      {E : List Sent → Type 0} (k : ℕ) → Triple (Posted email k) (pure none) (Searched k) E
  none-Triple k = record { runs = λ h p. (p, tt) }

  search_user-Triple :
      (left n : ℕ)
      → Triple
          (Posted email n)
          (search_user w left email)
          (Searched (budget left n))
          (Posted email (budget left n))
  unfolding search_user
  search_user-Triple zero n = search_once-Triple n
  search_user-Triple (suc left) n =
      bind-Triple (catch-Triple (search_once-Triple n) (λ e. none-Triple (n + 2))) (λ o.
        or_else-Triple o (search_user w left email) (budget_le left (n + 2))
          (search_user-Triple left (n + 2)))

abbrev IsShort : ℕ → List Sent → Type 0
IsShort n h = length h ≤ n

-- The password was set by the last request, for a user that was found after the account was posted.
abbrev pub IsMade : Keycloak → CreateUser → ℕ → (user_id : Text) → List Sent → Type 0
IsMade w u n user_id h =
    (t : List Sent) × ((h ≡ Sent.put_password user_id u.password ∷ t)
      × (w.accepts t (Sent.put_password user_id u.password) ≡ ok tt)
      × Memᴰ (Sent.post_user u.email) t
      × (length t ≤ n)
      × IsFound w u.email user_id t)

module _ (w : Keycloak) (u : CreateUser) (n : ℕ) where
  post-Triple :
      Triple
        (IsShort n)
        (perform (Sent.post_user u.email) (λ h. w.accepts h (Sent.post_user u.email)))
        (λ _. Posted u.email (suc n))
        (IsShort (n + 8))
  post-Triple = record { runs = λ h p. posted h p (w.accepts h (Sent.post_user u.email)) }
    where
      posted :
          (h : List Sent)
          → IsShort n h
          → (r : Outcome (Unit {0}))
          → Ends (λ _. Posted u.email (suc n)) (IsShort (n + 8)) (r, Sent.post_user u.email ∷ h)
      posted h p (ok a) = record { was_posted = Memᴰ.head refl; at_most = ground (arith, p) }
      posted h p (err e) = omega (arith, p)

  user_or_error-Triple :
      (found : Option Text)
      → Triple
          (Searched w u.email (n + 7) found)
          (lift (user_or_error w found))
          (λ id h. Posted u.email (n + 7) h × IsFound w u.email id h)
          (IsShort (n + 8))
  user_or_error-Triple none = record { runs = λ h p. omega (arith, p.0.at_most) }
  user_or_error-Triple (some id) = record { runs = λ h p. p }

  put-Triple :
      (id : Text)
      → Triple
          (λ h. Posted u.email (n + 7) h × IsFound w u.email id h)
          (reset_password_of_keycloak_user w u.password id)
          (λ _. IsMade w u (n + 7) id)
          (IsShort (n + 8))
  unfolding reset_password_of_keycloak_user
  put-Triple id = record {
    runs = λ h p. put h p (w.accepts h (Sent.put_password id u.password)) refl;
  }
    where
      put :
          (h : List Sent)
          → Posted u.email (n + 7) h × IsFound w u.email id h
          → (r : Outcome (Unit {0})) → w.accepts h (Sent.put_password id u.password) ≡ r
          → Ends
              (λ _. IsMade w u (n + 7) id)
              (IsShort (n + 8))
              (r, Sent.put_password id u.password ∷ h)
      put h p (ok a) e = (h, (refl, e, p.0.was_posted, p.0.at_most, p.1))
      put h p (err x) e = omega (arith, p.0.at_most)

  create-Triple :
      Triple (IsShort n) (create_keycloak_user w u) (IsMade w u (n + 7)) (IsShort (n + 8))
  unfolding create_keycloak_user
  create-Triple = bind-Triple post-Triple (λ _.
      bind-Triple
        (Triple-fail (λ h p. omega (arith, p.at_most, spent))
          (Triple-weaken (λ h p. p)
            (λ o h q. (longer u.email (n + 7) (budget 2 (suc n)) h spent q.0, q.1))
            (search_user-Triple w u.email 2 (suc n))))
        (λ found.
          bind-Triple (user_or_error-Triple found)
            (λ id. bind-Triple (put-Triple id) (λ _. pure-Triple id))))
    where
      spent : budget 2 (suc n) ≤ n + 7
      spent = omega arith

returned :
    {X : Type 0} (Q : X → List Sent → Type 0) (E : List Sent → Type 0) (p : Outcome X × List Sent)
    (a : X) (t : List Sent)
    → p ≡ (ok a, t)
    → Ends Q E p
    → Q a t
returned Q E p a t e h = subst (Ends Q E) e h

-- From an empty history, when `createUser` returns an id, its last request set the password of the user with this id and
-- Keycloak accepted it; before it, the account was posted, and after that, in the same run, a
-- search for the address was answered by a list with this user in front.
pub create_keycloak_user-sets_password :
    (w : Keycloak) (u : CreateUser) (t : List Sent) (id : Text)
    → create_keycloak_user w u [] ≡ (ok id, t)
    → IsMade w u 7 id t
create_keycloak_user-sets_password w u t id e =
    returned (IsMade w u 7) (IsShort 8) (create_keycloak_user w u []) id t e
      ((create-Triple w u 0).runs [] (omega arith))

-- Whatever Keycloak answers, `createUser` ends after at most 8 requests: one for the account, two
-- in each of three attempts to find it, and one for the password.
pub create_keycloak_user-bounded :
    (w : Keycloak) (u : CreateUser) (h : List Sent)
    → length (create_keycloak_user w u h).1 ≤ length h + 8
create_keycloak_user-bounded w u h =
    short (create_keycloak_user w u h) ((create-Triple w u (length h)).runs h (omega arith))
  where
    short :
        (p : Outcome Text × List Sent)
        → Ends (IsMade w u (length h + 7)) (IsShort (length h + 8)) p
        → length p.1 ≤ length h + 8
    short (ok id, t) m = ground (arith, ap length m.1.0, m.1.3)
    short (err e, t) m = m
