-- ===== src/Triple.antt =====
-- What an action does to a state, given what holds before it: one condition for each value that it
-- returns, and one for when it throws.
use mathlib.Core.List.{Memᴰ}
use confirmd_platform.Common.{◌≡◌, refl, Bool, true, false, List, [], ◌∷◌}
use confirmd_platform.Outcome.{Fault, Outcome, ok, err}
use confirmd_platform.Effect.{
  Stateful, ◌>>=◌, pure, throw, lift, read, catch_with, catch, throw_if, for_each,
}

abbrev pub Ends : {S A : Type 0} → (A → S → Type 0) → (S → Type 0) → Outcome A × S → Type 0
Ends Q E (ok a, s) = Q a s
Ends Q E (err e, s) = E s

-- From every state where `P` holds, the action returns a value `a` and `Q a` holds, or it throws
-- and `E` holds.
pub record Triple {S A : Type 0} (P : S → Type 0) (m : Stateful S A) (Q : A → S → Type 0)
    (E : S → Type 0) : Type 0 where
  pub runs : (s : S) → P s → Ends Q E (m s)

module _ {S A : Type 0} where
  Ends-bind :
      {B : Type 0} (Q : A → S → Type 0) (R : B → S → Type 0) (E : S → Type 0) (f : A → Stateful S B)
      (p : Outcome A × S)
      → Ends Q E p
      → ((a : A) → Triple (Q a) (f a) R E)
      → Ends R E (((λ _. p) >>= f) p.1)
  Ends-bind Q R E f (ok a, s) h k = (k a).runs s h
  Ends-bind Q R E f (err e, s) h k = h

  Ends-wrap :
      (Q : A → S → Type 0) (E : S → Type 0) (wrap : Fault → Fault) (p : Outcome A × S)
      → Ends Q E p
      → Ends Q E (catch_with wrap (λ _. p) p.1)
  Ends-wrap Q E wrap (ok a, s) h = h
  Ends-wrap Q E wrap (err e, s) h = h

  Ends-catch :
      (Q : A → S → Type 0) (F E : S → Type 0) (handler : Fault → Stateful S A) (p : Outcome A × S)
      → Ends Q F p
      → ((e : Fault) → Triple F (handler e) Q E)
      → Ends Q E (catch handler (λ _. p) p.1)
  Ends-catch Q F E handler (ok a, s) h k = h
  Ends-catch Q F E handler (err e, s) h k = (k e).runs s h

  Ends-weaken :
      (Q R : A → S → Type 0) (E : S → Type 0) (p : Outcome A × S)
      → ((a : A) (s : S) → Q a s → R a s)
      → Ends Q E p
      → Ends R E p
  Ends-weaken Q R E (ok a, s) f h = f a s h
  Ends-weaken Q R E (err e, s) f h = h

  Ends-fail :
      (Q : A → S → Type 0) (E F : S → Type 0) (p : Outcome A × S)
      → ((s : S) → E s → F s)
      → Ends Q E p
      → Ends Q F p
  Ends-fail Q E F (ok a, s) f h = h
  Ends-fail Q E F (err x, s) f h = f s h

  Ends-same :
      (P E : S → Type 0) (r : Outcome A) (s : S)
      → P s
      → (P s → E s)
      → Ends (λ a t. P t × (r ≡ ok a)) E (r, s)
  Ends-same P E (ok a) s p f = (p, refl)
  Ends-same P E (err x) s p f = f p

  module _ {P : S → Type 0} {Q : A → S → Type 0} {E : S → Type 0} {m : Stateful S A} where
    pub bind-Triple :
        {B : Type 0} {R : B → S → Type 0} {f : A → Stateful S B}
        → Triple P m Q E
        → ((a : A) → Triple (Q a) (f a) R E)
        → Triple P (m >>= f) R E
    bind-Triple {R = R} {f = f} h k = record {
      runs = λ s p. Ends-bind Q R E f (m s) (h.runs s p) k;
    }

    pub catch_with-Triple :
        (wrap : Fault → Fault) → Triple P m Q E → Triple P (catch_with wrap m) Q E
    catch_with-Triple wrap h = record { runs = λ s p. Ends-wrap Q E wrap (m s) (h.runs s p) }

    pub catch-Triple :
        {F : S → Type 0} {handler : Fault → Stateful S A}
        → Triple P m Q E
        → ((e : Fault) → Triple E (handler e) Q F)
        → Triple P (catch handler m) Q F
    catch-Triple {F = F} {handler = handler} h k = record {
      runs = λ s p. Ends-catch Q E F handler (m s) (h.runs s p) k;
    }

    pub Triple-weaken :
        {O : S → Type 0} {R : A → S → Type 0}
        → ((s : S) → O s → P s)
        → ((a : A) (s : S) → Q a s → R a s)
        → Triple P m Q E
        → Triple O m R E
    Triple-weaken {R = R} f g h = record {
      runs = λ s p. Ends-weaken Q R E (m s) g (h.runs s (f s p));
    }

    -- Less is said of what holds after a throw.
    pub Triple-fail : {F : S → Type 0} → ((s : S) → E s → F s) → Triple P m Q E → Triple P m Q F
    Triple-fail {F = F} f h = record { runs = λ s p. Ends-fail Q E F (m s) f (h.runs s p) }

  pub pure-Triple : {Q : A → S → Type 0} {E : S → Type 0} (a : A) → Triple (Q a) (pure a) Q E
  pure-Triple a = record { runs = λ s p. p }

  pub throw-Triple : {Q : A → S → Type 0} {E : S → Type 0} (x : Fault) → Triple E (throw x) Q E
  throw-Triple x = record { runs = λ s p. p }

  -- The answer of a read is known afterwards, and nothing has changed.
  pub read-Triple :
      {P E : S → Type 0} (answer : S → Outcome A)
      → ((s : S) → P s → E s)
      → Triple P (read answer) (λ a s. P s × (answer s ≡ ok a)) E
  read-Triple {P = P} {E = E} answer f = record { runs = λ s p. read_from s p (answer s) refl }
    where
      read_from :
          (s : S)
          → P s
          → (r : Outcome A) → answer s ≡ r
          → Ends (λ a t. P t × (answer t ≡ ok a)) E (r, s)
      read_from s p (ok a) e = (p, e)
      read_from s p (err x) e = f s p

  pub lift-Triple :
      {P E : S → Type 0} (r : Outcome A)
      → ((s : S) → P s → E s)
      → Triple P (lift r) (λ a s. P s × (r ≡ ok a)) E
  lift-Triple {P = P} {E = E} r f = record { runs = λ s p. Ends-same P E r s p (f s) }

-- What is known for good before an action.
pub given-Triple :
    {S A F : Type 0} {P : S → Type 0} {m : Stateful S A} {Q : A → S → Type 0} {E : S → Type 0}
    → (F → Triple P m Q E)
    → Triple (λ s. P s × F) m Q E
given-Triple h = record { runs = λ s p. (h p.1).runs s p.0 }

pub throw_if-Triple :
    {S : Type 0} {P E : S → Type 0} (c : Bool) (x : Fault)
    → ((s : S) → P s → E s)
    → Triple P (throw_if c x) (λ _ s. P s × (c ≡ false)) E
throw_if-Triple true x f = record { runs = λ s p. f s p }
throw_if-Triple false x f = record { runs = λ s p. (p, refl) }

pub for_each-Triple :
    {S A : Type 0} {P E : S → Type 0} {body : A → Stateful S (Unit {0})} (xs : List A)
    → ((x : A) → Memᴰ x xs → Triple P (body x) (λ _. P) E)
    → Triple P (for_each xs body) (λ _. P) E
unfolding for_each
for_each-Triple [] h = record { runs = λ s p. p }
for_each-Triple {body = body} (x ∷ xs) h =
    bind-Triple (h x (Memᴰ.head refl)) (λ _. for_each-Triple xs (λ y m. h y (Memᴰ.tail m)))
