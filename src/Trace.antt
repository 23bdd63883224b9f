-- ===== src/Trace.antt =====
-- What a run adds to its history: every call `c`, made when the history was `t`, satisfies `P c t`.
use confirmd_platform.Common.{◌≡◌, refl, arith, List, [], ◌∷◌}
use mathlib.Core.List.{Memᴰ}
use confirmd_platform.Outcome.{Fault, Outcome, ok, err}
use confirmd_platform.Effect.{Action, ◌>>=◌, for_each, catch_with}

pub data Made {C : Type 0} (P : C → List C → Type 0) (h : List C) : List C → Type 0 where
  unchanged : Made P h h
  after : {t : List C} (c : C) → Made P h t → P c t → Made P h (c ∷ t)

-- An action that has ended with `r` at the history `t`.
abbrev lift_at : {C A : Type 0} → Outcome A → List C → Action C A
lift_at r t _ = (r, t)

module _ {C : Type 0} {P : C → List C → Type 0} where
  pub Made-trans : {h t u : List C} → Made P h t → Made P t u → Made P h u
  Made-trans m unchanged = m
  Made-trans m (after c k p) = after c (Made-trans m k) p

  module _ {A B : Type 0} (m : Action C A) (f : A → Action C B) where
    bind_from :
        (h t : List C) (r : Outcome A)
        → Made P h t
        → ((a : A) → r ≡ ok a → Made P t (f a t).1)
        → Made P h ((lift_at r t >>= f) t).1
    bind_from h t (ok a) k next = Made-trans k (next a refl)
    bind_from h t (err e) k next = k

    -- The calls of a sequence are those of its first part, and those of the second.
    pub bind-Made :
        (h : List C)
        → Made P h (m h).1
        → ((a : A) → (m h).0 ≡ ok a → Made P (m h).1 (f a (m h).1).1)
        → Made P h ((m >>= f) h).1
    bind-Made h = bind_from h (m h).1 (m h).0

  pub for_each-Made :
      {A : Type 0} (xs : List A) (body : A → Action C (Unit {0}))
      → ((x : A) → Memᴰ x xs → (h : List C) → Made P h (body x h).1)
      → (h : List C) → Made P h (for_each xs body h).1
  unfolding for_each
  for_each-Made [] body each h = unchanged
  for_each-Made (x ∷ xs) body each h =
      bind-Made (body x) (λ _. for_each xs body) h (each x (Memᴰ.head refl) h)
        (λ _ _. for_each-Made xs body (λ y m. each y (Memᴰ.tail m)) (body x h).1)

-- A handler that wraps what is thrown makes no call of its own.
pub catch_with-history :
    {C A : Type 0} (wrap : Fault → Fault) (m : Action C A) (h : List C)
    → (catch_with wrap m h).1 ≡ (m h).1
catch_with-history wrap m h = ground arith
