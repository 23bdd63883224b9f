-- ===== src/User/Held.antt =====
-- What holds of the table `user` between two requests to apps/user, and which changes keep it.
use mathlib.Core.List.{Memᴰ}
use confirmd_platform.Common.{
  ◌≡◌, sym, subst, ◌∙◌, ◌⊎◌, inl, inr, Bool, true, false, none, some, List, [], ◌∷◌, map, All,
  arith, Text, same,
}
use confirmd_platform.User.Model.{UserRow, Outside, mail_code}
use confirmd_platform.User.Table.{change}
use confirmd_platform.User.Change.{change-All, change-column, Unique}
use confirmd_platform.User.Request.{UserRequest}

-- An assertion on the table of users and on what was asked of the outside.
abbrev pub Claim : Type 1
Claim = List UserRow → List Outside → Type 0

-- The code of a row was mailed to its address; a verified address was verified by a request with
-- that code; and a row with an account has a verified address.
abbrev pub IsEarned : List UserRequest → List Outside → UserRow → Type 0
IsEarned asked o u =
    Memᴰ (mail_code u.email u.verification_code) o
    × ((u.is_email_verified ≡ false)
        ⊎ Memᴰ (UserRequest.user_email_verification u.email u.verification_code) asked)
    × ((u.keycloak_user_id ≡ none) ⊎ (u.is_email_verified ≡ true))

abbrev pub Held : List UserRequest → Claim
Held asked us o =
    All (IsEarned asked o) us × Unique (map (λ u. u.email) us) × Unique (map (λ u. u.id) us)

-- The columns that identify a user and say how far the sign-up is.
pub record Follows (r r' : UserRow) : Type 0 where
  pub id_same : r'.id ≡ r.id
  pub email_same : r'.email ≡ r.email
  pub code_same : r'.verification_code ≡ r.verification_code
  pub verified_same : r'.is_email_verified ≡ r.is_email_verified
  pub account_same : r'.keycloak_user_id ≡ r.keycloak_user_id

-- A claim that neither a call to the outside nor an update of other columns breaks.
pub record Frame (A : Claim) : Type 0 where
  pub grows : (us : List UserRow) (o : List Outside) (c : Outside) → A us o → A us (c ∷ o)
  pub edits :
      (p : UserRow → Bool) (f : UserRow → UserRow) (us : List UserRow) (o : List Outside)
      (q : UserRow × List UserRow)
      → ((r : UserRow) → Follows r (f r))
      → change p f us ≡ some q
      → A us o
      → A q.1 o

abbrev pub And : Claim → Claim → Claim
And A B us o = A us o × B us o

pub And-Frame : {A B : Claim} → Frame A → Frame B → Frame (And A B)
And-Frame h k = record {
  grows = λ us o c x. (h.grows us o c x.0, k.grows us o c x.1);
  edits = λ p f us o q g e x. (h.edits p f us o q g e x.0, k.edits p f us o q g e x.1);
}

abbrev pub Every : (UserRow → Type 0) → Claim
Every G us o = All G us

pub Every-Frame :
    (G : UserRow → Type 0) → ((r r' : UserRow) → Follows r r' → G r → G r') → Frame (Every G)
Every-Frame G h = record {
  grows = λ us o c x. x;
  edits = λ p f us o q g e x. change-All p f G us q (λ r _. h r (f r) (g r)) x e;
}

abbrev pub Mailed : Text → Text → Claim
Mailed email code us o = Memᴰ (mail_code email code) o

pub Mailed-Frame : (email code : Text) → Frame (Mailed email code)
Mailed-Frame email code = record { grows = λ us o c m. Memᴰ.tail m; edits = λ p f us o q g e m. m }

-- Every row with the value `k` in a column has a verified address.
abbrev pub IsKnown : (UserRow → Text) → Text → UserRow → Type 0
IsKnown key k x = (same (key x) k ≡ false) ⊎ (x.is_email_verified ≡ true)

pub Known-Frame :
    (key : UserRow → Text) (k : Text)
    → ((r r' : UserRow) → Follows r r' → key r' ≡ key r)
    → Frame (Every (IsKnown key k))
Known-Frame key k h = Every-Frame (IsKnown key k) (λ r r' f x. elim x [
  | inl a ↦ inl (subst (λ z. same z k ≡ false) (sym (h r r' f)) a)
  | inr v ↦ inr (f.verified_same ∙ v)
])

abbrev pub IsOther : Text → UserRow → Type 0
IsOther email x = same x.email email ≡ false

pub Other-Frame : (email : Text) → Frame (Every (IsOther email))
Other-Frame email =
    Every-Frame (IsOther email) (λ r r' f a. subst (λ z. same z email ≡ false) (sym f.email_same) a)

All-map :
    {A : Type 0} {P Q : A → Type 0} → ((a : A) → P a → Q a) → (xs : List A) → All P xs → All Q xs
All-map f [] h = tt
All-map f (x ∷ xs) h = (f x h.0, All-map f xs h.1)

module _ (asked : List UserRequest) where
  IsEarned-grows :
      (o : List Outside) (c : Outside) (u : UserRow) → IsEarned asked o u → IsEarned asked (c ∷ o) u
  IsEarned-grows o c u (m, v, k) = (Memᴰ.tail m, v, k)

  pub IsEarned-Follows :
      (o : List Outside) (r r' : UserRow) → Follows r r' → IsEarned asked o r → IsEarned asked o r'
  IsEarned-Follows o r r' f (m, v, k) = (
    subst (λ x. Memᴰ x o) (sym (ground (arith, f.email_same, f.code_same))) m,
    elim v [
      | inl a ↦ inl (f.verified_same ∙ a)
      | inr b ↦ inr (subst (λ x. Memᴰ x asked) (sym (ground (arith, f.email_same, f.code_same))) b)
    ],
    elim k [ inl a ↦ inl (f.account_same ∙ a) | inr b ↦ inr (f.verified_same ∙ b) ],
  )

  pub Held-Frame : Frame (Held asked)
  Held-Frame = record {
    grows = λ us o c (h, e, i). (All-map (IsEarned-grows o c) us h, e, i);
    edits = λ p f us o q g d (h, e, i). (
      change-All p f (IsEarned asked o) us q (λ r _. IsEarned-Follows o r (f r) (g r)) h d,
      subst Unique (sym (change-column p f (λ u. u.email) us q (λ r. (g r).email_same) d)) e,
      subst Unique (sym (change-column p f (λ u. u.id) us q (λ r. (g r).id_same) d)) i,
    );
  }
