-- ===== src/User/Advanced.antt =====
-- Every request to apps/user moves the sign-up of every address along its state machine.
use mathlib.Core.List.{Memᴰ}
use confirmd_platform.Common.{
  ◌≡◌, refl, sym, ◌∙◌, subst, some, List, [], ◌∷◌, ◌++◌, All, Text, same, same_iff,
}
use confirmd_platform.User.Model.{UserRow, Outside, Store, Services}
use confirmd_platform.User.Table.{change, has_email, has_id, verified, registered_as}
use confirmd_platform.User.Change.{find_user-mem}
use confirmd_platform.User.Request.{UserRequest, serve}
use confirmd_platform.User.Held.{Claim, Held, IsEarned, Frame, And, And-Frame, IsKnown}
use confirmd_platform.User.Rules.{Rules, Held-Rules, All_of, known_row}
use confirmd_platform.User.Earned.{serve-Keeps, served}
use confirmd_platform.User.Progress.{
  Status, Reaches, stay, status_in, Reaches-trans, between, change_moves, arrives_moves,
  status-Follows, confirms_row, registers_row,
}

module _ (w : Services) (seen asked : List UserRequest) (email : Text) (from : Status) where
  abbrev Progressed : Claim
  Progressed us o = Reaches asked email from (status_in email us)

  Progressed-Frame : Frame Progressed
  Progressed-Frame = record {
    grows = λ us o c h. h;
    edits = λ p f us o q g e h. Reaches-trans asked email h (
        change_moves asked email p f us q (λ r. (g r).email_same)
          (λ r first here. between asked email refl (status-Follows asked email r (f r) (g r)) stay)
          e);
  }

  abbrev Both : Claim
  Both = And (Held seen) Progressed

  confirms_moves :
      (address code : Text) (us : List UserRow) (o : List Outside) (q : UserRow × List UserRow)
      → Memᴰ (UserRequest.user_email_verification address code) asked
      → All (IsEarned seen o) us
      → change (has_email address) (verified) us ≡ some q
      → Reaches asked email (status_in email us) (status_in email q.1)
  unfolding same
  confirms_moves address code us o q m h e =
      change_moves asked email (has_email address) (verified) us q (λ r. refl)
        (λ r first here.
          let (at, fits) = find_user-mem (has_email address) us r first in
          let same_address : address ≡ email =
            sym ((same_iff r.email address).0 fits) ∙ (same_iff r.email email).0 here in
          confirms_row asked email code r.is_email_verified r.keycloak_user_id
            (subst (λ z. Memᴰ (UserRequest.user_email_verification z code) asked) same_address m)
            (All_of (IsEarned seen o) us r h at).2)
        e

  registers_moves :
      (id account : Text) (us : List UserRow) (q : UserRow × List UserRow)
      → All (IsKnown (λ x. x.id) id) us
      → change (has_id id) (registered_as account) us ≡ some q
      → Reaches asked email (status_in email us) (status_in email q.1)
  registers_moves id account us q known e =
      change_moves asked email (has_id id) (registered_as account) us q (λ r. refl)
        (λ r first here.
          registers_row asked email account r.is_email_verified r.keycloak_user_id
            (known_row id us r known first))
        e

  module _ (within : (r : UserRequest) → Memᴰ r asked → Memᴰ r seen) where
    Both-Rules : Rules w seen asked Both
    Both-Rules =
        let rules = Held-Rules w seen asked within in
        record {
          frame = And-Frame rules.frame Progressed-Frame;
          holds = λ us o h. h.0;
          arrives = λ us o r v k others fresh mailed h. (
            rules.arrives us o r v k others fresh mailed h.0,
            Reaches-trans asked email h.1 (arrives_moves asked email us r v others),
          );
          confirms = λ address code us o q m c e h. (
            rules.confirms address code us o q m c e h.0,
            Reaches-trans asked email h.1 (confirms_moves address code us o q m h.0.0 e),
          );
          registers = λ id account us o q known e h. (
            rules.registers id account us o q known e h.0,
            Reaches-trans asked email h.1 (registers_moves id account us q known e),
          );
        }

in_front : (xs ys : List UserRequest) (r : UserRequest) → Memᴰ r xs → Memᴰ r (xs ++ ys)
in_front [] ys r m = elim m [ ]
in_front (x ∷ xs) ys r (Memᴰ.head e) = Memᴰ.head e
in_front (x ∷ xs) ys r (Memᴰ.tail m) = Memᴰ.tail (in_front xs ys r m)

behind : (xs ys : List UserRequest) (r : UserRequest) → Memᴰ r ys → Memᴰ r (xs ++ ys)
behind [] ys r m = m
behind (x ∷ xs) ys r m = Memᴰ.tail (behind xs ys r m)

-- On a table that requests have filled from the empty one, any further requests, whatever the
-- outside answers, move an address along the steps absent, pending, confirmed, registered in this
-- order; none goes back, none is left out, and an address that is pending is confirmed only by one
-- of the further requests that carries this address.
pub serve-Reaches :
    (w : Services) (before after : List UserRequest) (s : Store) (email : Text)
    → s.users ≡ []
    → Reaches after email
        (status_in email (serve w before s).users)
        (status_in email (serve w after (serve w before s)).users)
serve-Reaches w before after s email e =
    let h = (served w before (before ++ after) s (in_front before after) e).held in
    (serve-Keeps w
      (Both-Rules w (before ++ after) after email (status_in email (serve w before s).users)
        (behind before after))
      after (serve w before s) (λ r m. m) (record { held = (h, stay) })).held.1
