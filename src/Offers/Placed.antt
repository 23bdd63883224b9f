-- ===== src/Offers/Placed.antt =====
-- The addresses of a shared agent have the ids in their places.
use confirmd_platform.Common.{
  ℕ, ==_iff, ◌≡◌, refl, sym, ap, ◌∙◌, ◌==◌, false, [], ◌∷◌, ◌++◌, append_assoc, append-nil, any,
  if◌then◌else◌, Text, codes, some, arith,
}
use confirmd_platform.Outcome.{ok}
use confirmd_platform.Offers.Url.{
  IssuanceMethod, create_offer, create_offer_oob, get_issue_credentials,
  get_issue_credential_by_credential_id, shared, substitution, replace_from, replace_mark,
  url_or_error, get_agent_url,
}

-- The text does not have the character.
abbrev pub Lacks : ℕ → Text → Type 0
Lacks mark t = any (λ c. c == mark) t ≡ false

-- A replacement without a `$`.
unfoldable replace_plain : (mark : ℕ) → (by : Text) → Text → Text
replace_plain mark by [] = []
replace_plain mark by (c ∷ t) =
    let rest = replace_plain mark by t in if c == mark then by ++ t else c ∷ rest

substitution-plain :
    (before matched after by : Text)
    → Lacks b'$' by
    → substitution before matched after false by ≡ by
unfolding substitution
substitution-plain before matched after [] h = refl
substitution-plain before matched after (c ∷ by) h =
    ground (arith, substitution-plain before matched after by)

replace_from-plain :
    (before : Text) (mark : ℕ) (by t : Text)
    → Lacks b'$' by
    → replace_from before mark by t ≡ replace_plain mark by t
unfolding replace_from replace_plain
replace_from-plain before mark by [] h = refl
replace_from-plain before mark by (c ∷ t) h = ground (
  arith,
  substitution-plain before (c ∷ []) t by h,
  replace_from-plain (before ++ c ∷ []) mark by t h,
)

replace_mark-plain :
    (mark : ℕ) (by t : Text) → Lacks b'$' by → replace_mark mark by t ≡ replace_plain mark by t
unfolding replace_mark
replace_mark-plain mark by t h = replace_from-plain [] mark by t h

replace_plain-append :
    (mark : ℕ) (by xs ys : Text)
    → Lacks mark xs
    → replace_plain mark by (xs ++ ys) ≡ xs ++ replace_plain mark by ys
unfolding replace_plain
replace_plain-append mark by [] ys h = refl
replace_plain-append mark by (x ∷ xs) ys h = ground (arith, replace_plain-append mark by xs ys)

Lacks-append : (mark : ℕ) (xs ys : Text) → Lacks mark xs → Lacks mark ys → Lacks mark (xs ++ ys)
Lacks-append mark [] ys h k = k
Lacks-append mark (x ∷ xs) ys h k = ground (arith, Lacks-append mark xs ys)

-- A mark that is not in the text before it.
replace_plain-at :
    (mark : ℕ) (by xs ys : Text)
    → Lacks mark xs
    → replace_plain mark by (xs ++ mark ∷ ys) ≡ xs ++ (by ++ ys)
unfolding replace_plain
replace_plain-at mark by xs ys h =
    replace_plain-append mark by xs (mark ∷ ys) h
    ∙ (let e = (==_iff mark mark).1 refl in ground arith)

replace_plain-end :
    (mark : ℕ) (by e path : Text)
    → Lacks mark e
    → Lacks mark path
    → replace_plain mark by (e ++ (path ++ mark ∷ [])) ≡ e ++ (path ++ by)
replace_plain-end mark by e path h k =
    ap (replace_plain mark by) (sym (append_assoc e path (mark ∷ [])))
    ∙ replace_plain-at mark by (e ++ path) [] (Lacks-append mark e path h k)
    ∙ ap (λ u. (e ++ path) ++ u) (append-nil by)
    ∙ append_assoc e path by

-- The path of the tenant, written out.
abbrev pub tenant_path : IssuanceMethod → (tenant_id credential_record_id : Text) → Text
tenant_path create_offer t r = codes "/multi-tenancy/credentials/create-offer/" ++ t
tenant_path create_offer_oob t r = codes "/multi-tenancy/credentials/create-offer-oob/" ++ t
tenant_path get_issue_credentials t r = codes "/multi-tenancy/credentials/" ++ t
tenant_path get_issue_credential_by_credential_id t r =
    codes "/multi-tenancy/credentials/" ++ (r ++ (codes "/" ++ t))

-- For a shared agent, `getAgentUrl` of the issuance service is the address of the agent and the
-- path of the tenant, if the address has no `#`, neither it nor the id of the record has an `@`, and
-- neither id has a `$`.
pub get_agent_url_tenant :
    (method : IssuanceMethod) (x : ℕ) (e t r : Text)
    → Lacks b'#' (x ∷ e)
    → Lacks b'@' (x ∷ e)
    → Lacks b'@' r
    → Lacks b'$' t
    → Lacks b'$' r
    → get_agent_url method shared (x ∷ e) t r ≡ ok ((x ∷ e) ++ tenant_path method t r)
unfolding get_agent_url
get_agent_url_tenant create_offer x e t r h k m q p =
    ap (λ u. url_or_error (some u))
      (replace_mark-plain b'#' t
          ((x ∷ e) ++ (codes "/multi-tenancy/credentials/create-offer/" ++ b'#' ∷ [])) q
        ∙ replace_plain-end b'#' t (x ∷ e) (codes "/multi-tenancy/credentials/create-offer/") h
            refl)
get_agent_url_tenant create_offer_oob x e t r h k m q p =
    ap (λ u. url_or_error (some u))
      (replace_mark-plain b'#' t
          ((x ∷ e) ++ (codes "/multi-tenancy/credentials/create-offer-oob/" ++ b'#' ∷ [])) q
        ∙ replace_plain-end b'#' t (x ∷ e) (codes "/multi-tenancy/credentials/create-offer-oob/") h
            refl)
get_agent_url_tenant get_issue_credentials x e t r h k m q p =
    ap (λ u. url_or_error (some u))
      (replace_mark-plain b'#' t ((x ∷ e) ++ (codes "/multi-tenancy/credentials/" ++ b'#' ∷ [])) q
        ∙ replace_plain-end b'#' t (x ∷ e) (codes "/multi-tenancy/credentials/") h refl)
get_agent_url_tenant get_issue_credential_by_credential_id x e t r h k m q p =
    let path = codes "/multi-tenancy/credentials/" in
    let first : replace_plain b'#' r ((x ∷ e) ++ (path ++ b'#' ∷ codes "/@"))
        ≡ (x ∷ e) ++ ((path ++ (r ++ codes "/")) ++ b'@' ∷ []) =
      ap (replace_plain b'#' r) (sym (append_assoc (x ∷ e) path (b'#' ∷ codes "/@")))
      ∙ replace_plain-at b'#' r ((x ∷ e) ++ path) (codes "/@")
          (Lacks-append b'#' (x ∷ e) path h refl)
      ∙ append_assoc (x ∷ e) path (r ++ codes "/@")
      ∙ ap (λ u. (x ∷ e) ++ (path ++ u)) (sym (append_assoc r (codes "/") (b'@' ∷ []))) in
    ap (λ u. url_or_error (some u))
      (ap (replace_mark b'@' t)
          (replace_mark-plain b'#' r ((x ∷ e) ++ (path ++ b'#' ∷ codes "/@")) p ∙ first)
        ∙ replace_mark-plain b'@' t ((x ∷ e) ++ ((path ++ (r ++ codes "/")) ++ b'@' ∷ [])) q
        ∙ replace_plain-end b'@' t (x ∷ e) (path ++ (r ++ codes "/")) k
            (Lacks-append b'@' path (r ++ codes "/") refl (Lacks-append b'@' r (codes "/") m refl))
        ∙ ap (λ u. (x ∷ e) ++ (path ++ u)) (append_assoc r (codes "/") t))
