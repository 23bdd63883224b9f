-- ===== src/Effect.antt =====
-- An asynchronous method as an action: the state is the history of the calls that it has made for
-- their effect, the newest first. A call that only reads is answered from that history and leaves
-- no mark in it. What was done before a throw stays done.
use confirmd_platform.Common.{Bool, List, [], ◌∷◌, if◌then◌else◌, Option, none, some}
use confirmd_platform.Outcome.{Fault, Outcome, ok, err, type_error, rpc}

-- An action on a state.
abbrev pub Stateful : Type 0 → Type 0 → Type 0
Stateful S A = S → Outcome A × S

abbrev pub Action : Type 0 → Type 0 → Type 0
Action C A = Stateful (List C) A

infixl 5 ◌>>=◌ ◌>>◌
abbrev pub ◌>>=◌ : {S A B : Type 0} → Stateful S A → (A → Stateful S B) → Stateful S B
◌>>=◌ m f h = let (r, h') = m h in elim r [ ok a ↦ f a h' | err e ↦ (err e, h') ]

abbrev pub ◌>>◌ : {S A B : Type 0} → Stateful S A → Stateful S B → Stateful S B
m >> k = m >>= λ _. k

-- A call made for its effect; it is in the history whether it succeeds or not.
abbrev pub perform : {C A : Type 0} → C → (List C → Outcome A) → Action C A
perform call answer h = (answer h, call ∷ h)

module _ {S A : Type 0} where
  abbrev pub pure : A → Stateful S A
  pure a h = (ok a, h)

  abbrev pub throw : Fault → Stateful S A
  throw e h = (err e, h)

  abbrev pub lift : Outcome A → Stateful S A
  lift r h = (r, h)

  -- A call that reads.
  abbrev pub read : (S → Outcome A) → Stateful S A
  read answer h = (answer h, h)

  -- `const p = m()` with no `await`: the calls are made, and the outcome is looked at later.
  abbrev pub start : Stateful S A → Stateful S (Outcome A)
  start m h = let (r, h') = m h in (ok r, h')

  -- `try { … } catch (error) { throw wrap(error) }`
  abbrev pub catch_with : (Fault → Fault) → Stateful S A → Stateful S A
  catch_with wrap m h =
      let (r, h') = m h in elim r [ ok a ↦ (ok a, h') | err e ↦ (err (wrap e), h') ]

  -- `try { … } catch (error) { … }` with a handler that goes on.
  abbrev pub catch : (Fault → Stateful S A) → Stateful S A → Stateful S A
  catch handler m h = let (r, h') = m h in elim r [ ok a ↦ (ok a, h') | err e ↦ handler e h' ]

  -- `throw new RpcException(error.response ? error.response : error)`
  abbrev pub rethrow_rpc : Stateful S A → Stateful S A
  rethrow_rpc m = catch_with rpc m

  -- A property of `null` or `undefined` is a `TypeError`.
  abbrev pub non_null : Option A → Stateful S A
  non_null none = throw type_error
  non_null (some a) = pure a

abbrev pub throw_if : {S : Type 0} → Bool → Fault → Stateful S (Unit {0})
throw_if c e h = (if c then err e else ok tt, h)

-- `for (const item of items) { await body(item); }`
unfoldable pub for_each :
    {S A : Type 0} → List A → (A → Stateful S (Unit {0})) → Stateful S (Unit {0})
for_each [] body = pure tt
for_each (x ∷ xs) body = body x >> for_each xs body
