-- ===== src/User/Progress.antt =====
-- The sign-up of an address as a state machine, and that the requests to apps/user move every
-- address along it.
use mathlib.Core.List.{Memᴰ}
use confirmd_platform.Common.{
  ◌≡◌, refl, sym, ap, ◌∙◌, subst, ◌⊎◌, inl, inr, Bool, true, false, Option, none, some, List, [],
  ◌∷◌, ◌++◌, All, arith, Text, same_iff, Bool-cases, Option-cases,
}
use confirmd_platform.User.Model.{UserRow}
use confirmd_platform.User.Table.{find_user, change, has_email}
use confirmd_platform.User.Request.{UserRequest}
use confirmd_platform.User.Held.{Follows, IsOther}

pub data Status : Type 0 where
  absent pending confirmed registered : Status

-- One step of the sign-up of an address; only a request with the address verifies it.
pub data Move (asked : List UserRequest) (email : Text) : Status → Status → Type 0 where
  arrive : Move asked email absent pending
  confirm :
      (code : Text)
      → Memᴰ (UserRequest.user_email_verification email code) asked
      → Move asked email pending confirmed
  register : Move asked email confirmed registered

-- Any number of steps.
pub data Reaches (asked : List UserRequest) (email : Text) (from : Status) : Status → Type 0 where
  stay : Reaches asked email from from
  move :
      {a b : Status}
      → Reaches asked email from a
      → Move asked email a b
      → Reaches asked email from b

-- By `isEmailVerified` and `keycloakUserId`.
abbrev pub status_by : Bool → Option Text → Status
status_by false account = pending
status_by true none = confirmed
status_by true (some _) = registered

abbrev pub row_status : UserRow → Status
row_status u = status_by u.is_email_verified u.keycloak_user_id

abbrev pub status_of_row : Option UserRow → Status
status_of_row none = absent
status_of_row (some u) = row_status u

-- How far the sign-up of an address is, by the first row of that address.
abbrev pub status_in : Text → List UserRow → Status
status_in email us = status_of_row (find_user (has_email email) us)

module _ (asked : List UserRequest) (email : Text) where
  pub Reaches-trans :
      {a b c : Status} → Reaches asked email a b → Reaches asked email b c → Reaches asked email a c
  Reaches-trans h stay = h
  Reaches-trans h (move k m) = move (Reaches-trans h k) m

  one : {a b : Status} → Move asked email a b → Reaches asked email a b
  one m = move stay m

  first_row :
      (u : UserRow) (us : List UserRow)
      → has_email email u ≡ true
      → status_in email (u ∷ us) ≡ row_status u
  unfolding find_user
  first_row u us e =
      let found : find_user (has_email email) (u ∷ us) ≡ some u = ground (arith, e) in
      ap status_of_row found

  later_row :
      (u : UserRow) (us : List UserRow)
      → has_email email u ≡ false
      → status_in email (u ∷ us) ≡ status_in email us
  unfolding find_user
  later_row u us e =
      let found : find_user (has_email email) (u ∷ us) ≡ find_user (has_email email) us =
        ground (arith, e) in
      ap status_of_row found

  pub between :
      {a b c d : Status} → a ≡ c → b ≡ d → Reaches asked email c d → Reaches asked email a b
  between {b = b} {c = c} x y h =
      subst (λ z. Reaches asked email z b) (sym x) (subst (λ z. Reaches asked email c z) (sym y) h)

  changed_first :
      (f : UserRow → UserRow) (u : UserRow) (us : List UserRow)
      → (f u).email ≡ u.email
      → (has_email email u ≡ true → Reaches asked email (row_status u) (row_status (f u)))
      → Reaches asked email (status_in email (u ∷ us)) (status_in email (f u ∷ us))
  changed_first f u us k g = elim (Bool-cases (has_email email u)) [
    | inl a ↦ between (first_row u us a) (first_row (f u) us (ground (arith, a, k))) (g a)
    | inr b ↦ between (later_row u us b) (later_row (f u) us (ground (arith, b, k))) stay
  ]

  changed_later :
      (u : UserRow) (us vs : List UserRow)
      → Reaches asked email (status_in email us) (status_in email vs)
      → Reaches asked email (status_in email (u ∷ us)) (status_in email (u ∷ vs))
  changed_later u us vs g = elim (Bool-cases (has_email email u)) [
    | inl a ↦ between (first_row u us a) (first_row u vs a) stay
    | inr b ↦ between (later_row u us b) (later_row u vs b) g
  ]

  -- An update moves an address when it moves the row that it changes.
  pub change_moves :
      (p : UserRow → Bool) (f : UserRow → UserRow) (us : List UserRow) (q : UserRow × List UserRow)
      → ((r : UserRow) → (f r).email ≡ r.email)
      → ((r : UserRow)
          → find_user p us ≡ some r
          → has_email email r ≡ true
          → Reaches asked email (row_status r) (row_status (f r)))
      → change p f us ≡ some q
      → Reaches asked email (status_in email us) (status_in email q.1)
  unfolding find_user change
  change_moves p f [] q k h e = absurd (ground (arith, e))
  change_moves p f (u ∷ us) q k h e = elim (Bool-cases (p u)) [
    | inl a ↦
        let table : f u ∷ us ≡ q.1 = ground (arith, e, a) in
        subst (λ z. Reaches asked email (status_in email (u ∷ us)) (status_in email z)) table
          (changed_first f u us (k u) (h u (ground (arith, a))))
    | inr b ↦ elim (Option-cases (change p f us)) [
      | inl d ↦ absurd (ground (arith, d, b, e))
      | inr (t, d) ↦
          let table : u ∷ t.1 ≡ q.1 = ground (arith, d, b, e) in
          subst (λ z. Reaches asked email (status_in email (u ∷ us)) (status_in email z)) table
            (changed_later u us t.1 (change_moves p f us t k (λ r x. h r (ground (arith, x, b))) d))
    ]
  ]

  arrived_other :
      (us : List UserRow) (r : UserRow)
      → has_email email r ≡ false
      → status_in email (us ++ r ∷ []) ≡ status_in email us
  arrived_other [] r e = later_row r [] e
  arrived_other (u ∷ us) r e = elim (Bool-cases (has_email email u)) [
    | inl a ↦ first_row u (us ++ r ∷ []) a ∙ sym (first_row u us a)
    | inr b ↦ later_row u (us ++ r ∷ []) b ∙ arrived_other us r e ∙ sym (later_row u us b)
  ]

  arrived_here :
      (us : List UserRow) (r : UserRow)
      → has_email email r ≡ true
      → All (IsOther email) us
      → (status_in email us ≡ absent) × (status_in email (us ++ r ∷ []) ≡ row_status r)
  unfolding find_user
  arrived_here [] r e h = (refl, first_row r [] e)
  arrived_here (u ∷ us) r e h =
      let (a, b) = arrived_here us r e h.1 in
      (later_row u us h.0 ∙ a, later_row u (us ++ r ∷ []) h.0 ∙ b)

  pub arrives_moves :
      (us : List UserRow) (r : UserRow)
      → r.is_email_verified ≡ false
      → All (IsOther r.email) us
      → Reaches asked email (status_in email us) (status_in email (us ++ r ∷ []))
  arrives_moves us r v others = elim (Bool-cases (has_email email r)) [
    | inl a ↦
        let here =
          arrived_here us r a
            (subst (λ z. All (IsOther z) us) ((same_iff r.email email).0 a) others) in
        let new : row_status r ≡ pending = ground (arith, v) in
        between here.0 (here.1 ∙ new) (one arrive)
    | inr b ↦ between refl (arrived_other us r b) stay
  ]

  pub status-Follows : (r r' : UserRow) → Follows r r' → row_status r' ≡ row_status r
  status-Follows r r' f = ground (arith, f.verified_same, f.account_same)

  pub confirms_row :
      (code : Text) (v : Bool) (k : Option Text)
      → Memᴰ (UserRequest.user_email_verification email code) asked
      → (k ≡ none) ⊎ (v ≡ true)
      → Reaches asked email (status_by v k) (status_by true k)
  confirms_row code true k m h = stay
  confirms_row code false none m h = one (confirm code m)
  confirms_row code false (some x) m (inl e) = absurd (ground (arith, e))
  confirms_row code false (some x) m (inr e) = absurd (ground (arith, e))

  pub registers_row :
      (account : Text) (v : Bool) (k : Option Text)
      → v ≡ true
      → Reaches asked email (status_by v k) registered
  registers_row account true none e = one register
  registers_row account true (some x) e = stay
  registers_row account false k e = absurd (ground (arith, e))
