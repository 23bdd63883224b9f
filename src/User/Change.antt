-- ===== src/User/Change.antt =====
-- What the first row of a lookup and an update of that row are, for `find_user` and `change`, the
-- tables of apps/user/repositories/user.repository.ts.
use mathlib.Core.List.{Memᴰ}
use confirmd_platform.Common.{
  ◌≡◌, refl, sym, ap, subst, ◌⊎◌, inl, inr, Bool, true, false, none, some, List, [], ◌∷◌, ◌++◌, map,
  All, arith, Text, same, same_iff, Bool-cases, Option-cases,
}
use confirmd_platform.User.Model.{UserRow}
use confirmd_platform.User.Table.{find_user, change, has_email, verified}

module _ (p : UserRow → Bool) where
  -- The row of a lookup is in the table and passes the test.
  pub find_user-mem :
      (us : List UserRow) (r : UserRow) → find_user p us ≡ some r → Memᴰ r us × (p r ≡ true)
  unfolding find_user
  find_user-mem [] r e = absurd (ground (arith, e))
  find_user-mem (u ∷ us) r e = elim (Bool-cases (p u)) [
    | inl a ↦
        let same_row : u ≡ r = ground (arith, e, a) in
        (Memᴰ.head (sym same_row), subst (λ x. p x ≡ true) same_row a)
    | inr b ↦ let (m, a) = find_user-mem us r (ground (arith, e, b)) in (Memᴰ.tail m, a)
  ]

  -- No row passes the test when the lookup finds none.
  pub find_user-none : (us : List UserRow) → find_user p us ≡ none → All (λ r. p r ≡ false) us
  unfolding find_user
  find_user-none [] e = tt
  find_user-none (u ∷ us) e = elim (Bool-cases (p u)) [
    | inl a ↦ absurd (ground (arith, e, a))
    | inr b ↦ (b, find_user-none us (ground (arith, e, b)))
  ]

  module _ (f : UserRow → UserRow) where
    pub change-none : (us : List UserRow) → All (λ r. p r ≡ false) us → change p f us ≡ none
    unfolding change
    change-none [] h = refl
    change-none (u ∷ us) h = ground (arith, h.0, change-none us h.1)

    -- A property of all rows survives when it survives on the row of the lookup.
    pub change-All :
        (G : UserRow → Type 0) (us : List UserRow) (q : UserRow × List UserRow)
        → ((r : UserRow) → find_user p us ≡ some r → G r → G (f r))
        → All G us
        → change p f us ≡ some q
        → All G q.1
    unfolding find_user change
    change-All G [] q h k e = absurd (ground (arith, e))
    change-All G (u ∷ us) q h k e = elim (Bool-cases (p u)) [
      | inl a ↦
          let table : f u ∷ us ≡ q.1 = ground (arith, e, a) in
          subst (λ t. All G t) table (h u (ground (arith, a)) k.0, k.1)
      | inr b ↦ elim (Option-cases (change p f us)) [
        | inr (t, d) ↦
            let table : u ∷ t.1 ≡ q.1 = ground (arith, d, b, e) in
            subst (λ z. All G z) table
              (k.0, change-All G us t (λ r x. h r (ground (arith, x, b))) k.1 d)
        | inl d ↦ absurd (ground (arith, d, b, e))
      ]
    ]

    -- A column that the update leaves is the same column afterwards.
    pub change-column :
        (key : UserRow → Text) (us : List UserRow) (q : UserRow × List UserRow)
        → ((r : UserRow) → key (f r) ≡ key r)
        → change p f us ≡ some q
        → map key q.1 ≡ map key us
    unfolding change
    change-column key [] q h e = absurd (ground (arith, e))
    change-column key (u ∷ us) q h e = elim (Bool-cases (p u)) [
      | inl a ↦ ground (arith, e, a, h u)
      | inr b ↦ elim (Option-cases (change p f us)) [
        | inr (t, d) ↦ ground (arith, d, b, e, change-column key us t h d)
        | inl d ↦ absurd (ground (arith, d, b, e))
      ]
    ]

-- The values of a column differ from one another.
abbrev pub Unique : List Text → Type 0
Unique [] = Unit
Unique (k ∷ ks) = All (λ l. same k l ≡ false) ks × Unique ks

All-last : (P : Text → Type 0) (ks : List Text) (k : Text) → All P ks → P k → All P (ks ++ k ∷ [])
All-last P [] k h p = (p, tt)
All-last P (l ∷ ks) k h p = (h.0, All-last P ks k h.1 p)

pub Unique-append :
    (ks : List Text) (k : Text) → Unique ks → All (λ l. same l k ≡ false) ks → Unique (ks ++ k ∷ [])
Unique-append [] k u h = (tt, tt)
Unique-append (l ∷ ks) k u h = (All-last _ ks k u.0 h.0, Unique-append ks k u.1 h.1)

-- Where a column is unique, what holds of a row holds of every row with the same value in it.
pub Unique-only :
    (key : UserRow → Text) (G : UserRow → Type 0) (us : List UserRow) (r : UserRow)
    → Unique (map key us)
    → Memᴰ r us
    → G r
    → All (λ x. (same (key x) (key r) ≡ false) ⊎ G x) us
Unique-only key G [] r u m g = tt
Unique-only key G (x ∷ us) r u (Memᴰ.head e) g = (inr (subst G e g), others us u.0)
  where
    others :
        (vs : List UserRow)
        → All (λ l. same (key x) l ≡ false) (map key vs)
        → All (λ x. (same (key x) (key r) ≡ false) ⊎ G x) vs
    others [] h = tt
    others (v ∷ vs) h = (
      inl (ground (arith, h.0, ap key e, same_iff (key x) (key v), same_iff (key v) (key r))),
      others vs h.1,
    )
Unique-only key G (x ∷ us) r u (Memᴰ.tail m) g =
    (inl (differs us m u.0), Unique-only key G us r u.1 m g)
  where
    differs :
        (vs : List UserRow)
        → Memᴰ r vs
        → All (λ l. same (key x) l ≡ false) (map key vs)
        → same (key x) (key r) ≡ false
    differs [] m h = elim m [ ]
    differs (v ∷ vs) (Memᴰ.head e) h = subst (λ z. same (key x) (key z) ≡ false) (sym e) h.0
    differs (v ∷ vs) (Memᴰ.tail m) h = differs vs m h.1

pub find_last :
    (email : Text) (us : List UserRow) (u : UserRow)
    → All (λ x. same x.email email ≡ false) us
    → u.email ≡ email
    → find_user (has_email email) (us ++ u ∷ []) ≡ some u
unfolding find_user
find_last email [] u h e = ground (arith, (same_iff u.email email).1 e)
find_last email (v ∷ us) u h e = ground (arith, h.0, find_last email us u h.1 e)

pub find_none :
    (email : Text) (us : List UserRow)
    → All (λ x. same x.email email ≡ false) us
    → find_user (has_email email) us ≡ none
unfolding find_user
find_none email [] h = refl
find_none email (v ∷ us) h = ground (arith, h.0, find_none email us h.1)

-- The row that was updated is the first one of the address afterwards.
pub change-found :
    (email : Text) (us : List UserRow) (u : UserRow)
    → find_user (has_email email) us ≡ some u
    → (q : UserRow × List UserRow) × ((change (has_email email) verified us ≡ some q)
        × (find_user (has_email email) q.1 ≡ some (verified u)))
unfolding find_user change
change-found email [] u e = absurd (ground (arith, e))
change-found email (v ∷ us) u e = elim (Bool-cases (has_email email v)) [
  | inl a ↦
      let here : v ≡ u = ground (arith, e, a) in
      ((verified v, verified v ∷ us), (ground (arith, a), ground (arith, a, ap verified here)))
  | inr b ↦
      let (q, (c, f)) = change-found email us u (ground (arith, e, b)) in
      ((q.0, v ∷ q.1), (ground (arith, b, c), ground (arith, b, f)))
]
