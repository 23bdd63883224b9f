-- ===== src/Common/Members.antt =====
-- Membership in a list, as a test and as a relation.
use mathlib.Core.Path.{◌≡◌, refl, sym, ap, subst}
use mathlib.Core.Logic.{◌↔◌, inl, inr}
use mathlib.Core.Bool.{Bool, true}
use mathlib.Core.List.{List, [], ◌∷◌, Memᴰ}
use native.Mathlib.Omega.{arith}
use confirmd_platform.Common.Tests.{Bool-cases}
use confirmd_platform.Common.Lists.{any}
use confirmd_platform.Common.Texts.{Text, same, same_iff, same_refl}

-- `texts.includes(t)`
abbrev pub member : Text → List Text → Bool
member t = any (same t)

-- A list passes a test somewhere exactly when it has an element that passes it.
pub any_from :
    {A : Type 0} (p : A → Bool) (xs : List A)
    → any p xs ≡ true
    → (x : A) × (Memᴰ x xs × (p x ≡ true))
any_from p [] e = absurd (ground (arith, e))
any_from p (x ∷ xs) e = elim (Bool-cases (p x)) [
  | inl a ↦ (x, (Memᴰ.head refl, a))
  | inr a ↦ let (y, (m, b)) = any_from p xs (ground arith) in (y, (Memᴰ.tail m, b))
]

pub any_of :
    {A : Type 0} (p : A → Bool) (x : A) (xs : List A) → Memᴰ x xs → p x ≡ true → any p xs ≡ true
any_of p x [] m a = elim m [ ]
any_of p x (y ∷ ys) (Memᴰ.head e) a = ground (arith, ap p e)
any_of p x (y ∷ ys) (Memᴰ.tail m) a = ground (arith, any_of p x ys m a)

pub member_iff : (t : Text) (ts : List Text) → (member t ts ≡ true) ↔ Memᴰ t ts
member_iff t ts = (
  λ e.
      let (s, (m, a)) = any_from (same t) ts e in
      subst (λ s. Memᴰ s ts) (sym ((same_iff t s).0 a)) m,
  λ m. any_of (same t) t ts m (same_refl t),
)
