-- ===== src/User/Rules.antt =====
-- The rules of a claim that every request to apps/user keeps, and that they hold of what the rows
-- of users tell.
use mathlib.Core.List.{Memᴰ}
use confirmd_platform.Common.{
  ◌≡◌, refl, sym, subst, ◌⊎◌, inl, inr, Bool, true, false, none, some, List, [], ◌∷◌, ◌++◌, map,
  map-append, All, All-append, any, arith, Text, same, same_iff,
}
use confirmd_platform.User.Model.{UserRow, Outside, Services, mail_code}
use confirmd_platform.User.Table.{find_user, change, has_email, has_id, verified, registered_as}
use confirmd_platform.User.Change.{
  find_user-mem, change-All, change-column, Unique, Unique-append, Unique-only,
}
use confirmd_platform.User.Request.{UserRequest}
use confirmd_platform.User.Held.{
  Claim, Held, IsEarned, Frame, Every, IsOther, IsKnown, Known-Frame, Held-Frame,
}

-- The first row of the address has the code that was given.
abbrev pub Coded : Text → Text → Claim
Coded email code us o =
    (u : UserRow) × ((find_user (has_email email) us ≡ some u) × (code ≡ u.verification_code))

pub All_of : {A : Type 0} (P : A → Type 0) (xs : List A) (x : A) → All P xs → Memᴰ x xs → P x
All_of P [] x h m = elim m [ ]
All_of P (y ∷ ys) x h (Memᴰ.head e) = subst P (sym e) h.0
All_of P (y ∷ ys) x h (Memᴰ.tail m) = All_of P ys x h.1 m

-- A row whose address is verified is the only one with its address and its key.
module _ (asked : List UserRequest) (us : List UserRow) (o : List Outside)
    (h : Held asked us o) where
  pub IsKnown-email :
      (email : Text) (u : UserRow)
      → find_user (has_email email) us ≡ some u
      → u.is_email_verified ≡ true
      → All (IsKnown (λ x. x.email) email) us
  IsKnown-email email u e v =
      let (m, a) = find_user-mem (has_email email) us u e in
      subst (λ z. All (IsKnown (λ x. x.email) z) us) ((same_iff u.email email).0 a)
        (Unique-only (λ x. x.email) (λ x. x.is_email_verified ≡ true) us u h.1 m v)

  pub IsKnown-id :
      (email : Text) (u : UserRow)
      → find_user (has_email email) us ≡ some u
      → u.is_email_verified ≡ true
      → All (IsKnown (λ x. x.id) u.id) us
  IsKnown-id email u e v =
      let (m, a) = find_user-mem (has_email email) us u e in
      Unique-only (λ x. x.id) (λ x. x.is_email_verified ≡ true) us u h.2 m v

pub found_verified :
    (email : Text) (us : List UserRow) (u : UserRow)
    → All (IsKnown (λ x. x.email) email) us
    → find_user (has_email email) us ≡ some u
    → u.is_email_verified ≡ true
found_verified email us u k e =
    let (m, a) = find_user-mem (has_email email) us u e in
    elim (All_of (IsKnown (λ x. x.email) email) us u k m) [
      | inl b ↦ absurd (ground (arith, a, b))
      | inr v ↦ v
    ]

pub known_row :
    (id : Text) (us : List UserRow) (r : UserRow)
    → All (IsKnown (λ x. x.id) id) us
    → find_user (has_id id) us ≡ some r
    → r.is_email_verified ≡ true
known_row id us r k e =
    let (m, a) = find_user-mem (has_id id) us r e in
    elim (All_of (IsKnown (λ x. x.id) id) us r k m) [
      | inl b ↦ absurd (ground (arith, a, b))
      | inr v ↦ v
    ]

-- A verified address was verified by a request.
by_code :
    {C : Type 0} (r : UserRow)
    → r.is_email_verified ≡ true
    → (r.is_email_verified ≡ false) ⊎ C
    → (true ≡ false) ⊎ C
by_code r v (inl n) = absurd (ground (arith, v, n))
by_code r v (inr c) = inr c

abbrev pub KnownId : Text → Claim
KnownId id = Every (IsKnown (λ x. x.id) id)

pub KnownId-Frame : (id : Text) → Frame (KnownId id)
KnownId-Frame id = Known-Frame (λ x. x.id) id (λ r r' f. f.id_same)

other_emails :
    (email : Text) (us : List UserRow)
    → All (IsOther email) us
    → All (λ l. same l email ≡ false) (map (λ u. u.email) us)
other_emails email [] h = tt
other_emails email (u ∷ us) h = (h.0, other_emails email us h.1)

other_ids :
    (id : Text) (us : List UserRow)
    → any (has_id id) us ≡ false
    → All (λ l. same l id ≡ false) (map (λ u. u.id) us)
other_ids id [] h = tt
other_ids id (u ∷ us) h = (ground (arith, h), other_ids id us (ground (arith, h)))

Unique-column :
    (key : UserRow → Text) (us : List UserRow) (r : UserRow)
    → Unique (map key us)
    → All (λ l. same l (key r) ≡ false) (map key us)
    → Unique (map key (us ++ r ∷ []))
Unique-column key us r u h =
    subst Unique (sym (map-append key us (r ∷ []))) (Unique-append (map key us) (key r) u h)

-- A claim, stronger than `Held seen`, that each change of the table by one of `asked` keeps: a row
-- that is made for a new address, to which its code was mailed; a row that is verified by its code;
-- and a verified row that gets an account.
pub record Rules (w : Services) (seen asked : List UserRequest) (A : Claim) : Type 0 where
  pub frame : Frame A
  pub holds : (us : List UserRow) (o : List Outside) → A us o → Held seen us o
  pub arrives :
      (us : List UserRow) (o : List Outside) (r : UserRow)
      → r.is_email_verified ≡ false
      → r.keycloak_user_id ≡ none
      → All (IsOther r.email) us
      → any (has_id r.id) us ≡ false
      → Memᴰ (mail_code r.email r.verification_code) o
      → A us o
      → A (us ++ r ∷ []) o
  pub confirms :
      (email code : Text) (us : List UserRow) (o : List Outside) (q : UserRow × List UserRow)
      → Memᴰ (UserRequest.user_email_verification email code) asked
      → Coded email code us o
      → change (has_email email) (verified) us ≡ some q
      → A us o
      → A q.1 o
  pub registers :
      (id account : Text) (us : List UserRow) (o : List Outside) (q : UserRow × List UserRow)
      → All (IsKnown (λ x. x.id) id) us
      → change (has_id id) (registered_as account) us ≡ some q
      → A us o
      → A q.1 o

module _ (w : Services) (seen asked : List UserRequest)
    (within : (r : UserRequest) → Memᴰ r asked → Memᴰ r seen) where
  arrives_held :
      (us : List UserRow) (o : List Outside) (r : UserRow)
      → r.is_email_verified ≡ false
      → r.keycloak_user_id ≡ none
      → All (IsOther r.email) us
      → any (has_id r.id) us ≡ false
      → Memᴰ (mail_code r.email r.verification_code) o
      → Held seen us o
      → Held seen (us ++ r ∷ []) o
  arrives_held us o r v k others fresh mailed (es, em, ids) = (
    All-append (IsEarned seen o) us (r ∷ []) es ((mailed, inl v, inl k), tt),
    Unique-column (λ u. u.email) us r em (other_emails r.email us others),
    Unique-column (λ u. u.id) us r ids (other_ids r.id us fresh),
  )

  -- A change of rows in other columns than the address and the id.
  change_held :
      (p : UserRow → Bool) (f : UserRow → UserRow) (us : List UserRow) (o : List Outside)
      (q : UserRow × List UserRow)
      → ((r : UserRow) → (f r).email ≡ r.email)
      → ((r : UserRow) → (f r).id ≡ r.id)
      → ((r : UserRow) → find_user p us ≡ some r → IsEarned seen o r → IsEarned seen o (f r))
      → change p f us ≡ some q
      → Held seen us o
      → Held seen q.1 o
  change_held p f us o q a b g e (es, em, ids) = (
    change-All p f (IsEarned seen o) us q g es e,
    subst Unique (sym (change-column p f (λ u. u.email) us q a e)) em,
    subst Unique (sym (change-column p f (λ u. u.id) us q b e)) ids,
  )

  confirmed :
      (email code : Text) (us : List UserRow) (o : List Outside) (r : UserRow)
      → Memᴰ (UserRequest.user_email_verification email code) asked
      → Coded email code us o
      → find_user (has_email email) us ≡ some r
      → Memᴰ (UserRequest.user_email_verification r.email r.verification_code) seen
  confirmed email code us o r m (u, (found, fits)) first =
      let here = (same_iff r.email email).0 (find_user-mem (has_email email) us r first).1 in
      let fit : code ≡ r.verification_code = ground (arith, found, first, fits) in
      subst (λ z. Memᴰ z seen) (ground (arith, here, fit)) (within _ m)

  pub Held-Rules : Rules w seen asked (Held seen)
  Held-Rules = record {
    frame = Held-Frame seen;
    holds = λ us o h. h;
    arrives = arrives_held;
    confirms = λ email code us o q m c e.
        change_held (has_email email) (verified) us o q (λ r. refl) (λ r. refl)
          (λ r first g. (g.0, inr (confirmed email code us o r m c first), inr refl)) e;
    registers = λ id account us o q known e.
        change_held (has_id id) (registered_as account) us o q (λ r. refl) (λ r. refl)
          (λ r first g. (g.0, by_code r (known_row id us r known first) g.1, inr refl)) e;
  }
