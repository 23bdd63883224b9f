-- ===== src/User/Tokens.antt =====
-- The first token of a lookup, and the table without one of its rows.
use mathlib.Core.List.{Memᴰ}
use confirmd_platform.Common.{
  ◌≡◌, sym, ap, ◌∙◌, subst, inl, inr, false, some, List, [], ◌∷◌, map, All, arith, Text, same,
  same_iff, same_refl, Bool-cases,
}
use confirmd_platform.User.Model.{ResetToken}
use confirmd_platform.User.Table.{find_token, without_token}
use confirmd_platform.User.Change.{Unique}

pub find_token-mem :
    (user_id token : Text) (ts : List ResetToken) (d : ResetToken)
    → find_token user_id token ts ≡ some d
    → Memᴰ d ts × (d.token ≡ token) × (d.user_id ≡ user_id)
unfolding find_token
find_token-mem user_id token [] d e = absurd (ground (arith, e))
find_token-mem user_id token (t ∷ ts) d e = elim (Bool-cases (same t.token token)) [
  | inl a ↦ elim (Bool-cases (same t.user_id user_id)) [
    | inl b ↦
        let here : d ≡ t = ground (arith, e, a, b) in
        (
          Memᴰ.head here,
          ap (λ x. x.token) here ∙ (same_iff t.token token).0 a,
          ap (λ x. x.user_id) here ∙ (same_iff t.user_id user_id).0 b,
        )
    | inr b ↦ absurd (ground (arith, e, a, b))
  ]
  | inr a ↦
      let (m, x, y) = find_token-mem user_id token ts d (ground (arith, e, a)) in
      (Memᴰ.tail m, x, y)
]

differs_later :
    (key : ResetToken → Text) (t d : ResetToken) (ts : List ResetToken)
    → All (λ l. same (key t) l ≡ false) (map key ts)
    → Memᴰ d ts
    → same (key t) (key d) ≡ false
differs_later key t d [] h m = elim m [ ]
differs_later key t d (x ∷ ts) h (Memᴰ.head e) =
    subst (λ z. same (key t) (key z) ≡ false) (sym e) h.0
differs_later key t d (x ∷ ts) h (Memᴰ.tail m) = differs_later key t d ts h.1 m

All-differ :
    (t : ResetToken) (ts : List ResetToken)
    → All (λ l. same t.token l ≡ false) (map (λ x. x.token) ts)
    → All (λ x. same x.token t.token ≡ false) ts
All-differ t [] h = tt
All-differ t (x ∷ ts) h =
    (ground (arith, h.0, same_iff x.token t.token, same_iff t.token x.token), All-differ t ts h.1)

-- Without the row, no row has its token.
pub without_token-gone :
    (ts : List ResetToken) (d : ResetToken)
    → Unique (map (λ x. x.id) ts)
    → Unique (map (λ x. x.token) ts)
    → Memᴰ d ts
    → All (λ x. same x.token d.token ≡ false) (without_token d.id ts)
unfolding without_token
without_token-gone [] d i u m = elim m [ ]
without_token-gone (t ∷ ts) d i u (Memᴰ.head e) =
    let table : without_token d.id (t ∷ ts) ≡ ts =
      ground (arith, ap (λ x. x.id) e, same_refl t.id) in
    subst (All (λ x. same x.token d.token ≡ false)) (sym table)
      (subst (λ z. All (λ x. same x.token z.token ≡ false) ts) (sym e) (All-differ t ts u.0))
without_token-gone (t ∷ ts) d i u (Memᴰ.tail m) =
    let later = differs_later (λ x. x.id) t d ts i.0 m in
    let table : without_token d.id (t ∷ ts) ≡ t ∷ without_token d.id ts = ground (arith, later) in
    subst (All (λ x. same x.token d.token ≡ false)) (sym table)
      (differs_later (λ x. x.token) t d ts u.0 m, without_token-gone ts d i.1 u.1 m)
