-- ===== src/Offers/Url.antt =====
-- The addresses of an agent: `getAgentUrl` of apps/issuance/src/issuance.service.ts and of
-- apps/verification/src/verification.service.ts.
use confirmd_platform.Common.{
  ℕ, Bool, true, false, ◌==◌, Option, none, some, [], ◌∷◌, ◌++◌, Text, codes, if◌then◌else◌,
}
use confirmd_platform.Outcome.{Outcome, ok, err, not_found, agent_url_not_found}

-- `OrgAgentType`
pub data OrgAgentType : Type 0 where
  dedicated shared other_agent : OrgAgentType

-- What a unit of a replacement text stands for, where `dollar` says whether an open `$` is before it:
-- `$$` is a `$`, `$&` the text replaced, and `$` with a grave accent (96) or an apostrophe (39) is
-- what stands before or after it; any other `$` is itself.
abbrev pub substituted : (before matched after : Text) → (dollar : Bool) → ℕ → Text
substituted before matched after false c = if c == b'$' then [] else c ∷ []
substituted before matched after true c =
    if c == b'$'
    then b'$' ∷ []
    else if c == b'&'
    then matched
    else if c == 96
    then before
    else if c == 39
    then after
    else b'$' ∷ c ∷ []

-- Whether a `$` is open after a unit.
abbrev pub opens_dollar : (dollar : Bool) → ℕ → Bool
opens_dollar false c = c == b'$'
opens_dollar true c = false

unfoldable pub substitution : (before matched after : Text) → (dollar : Bool) → Text → Text
substitution before matched after false [] = []
substitution before matched after true [] = b'$' ∷ []
substitution before matched after dollar (c ∷ by) =
    substituted before matched after dollar c
    ++ substitution before matched after (opens_dollar dollar c) by

-- `replace(mark, by)`: the first occurrence; `before` has been passed.
unfoldable pub replace_from : (before : Text) → (mark : ℕ) → (by : Text) → Text → Text
unfolding substitution
replace_from before mark by [] = []
replace_from before mark by (c ∷ t) =
    let rest = replace_from (before ++ c ∷ []) mark by t in
    if c == mark then substitution before (c ∷ []) t false by ++ t else c ∷ rest

unfoldable pub replace_mark : (mark : ℕ) → (by : Text) → Text → Text
unfolding replace_from
replace_mark mark by t = replace_from [] mark by t

pub data IssuanceMethod : Type 0 where
  create_offer create_offer_oob get_issue_credentials get_issue_credential_by_credential_id :
      IssuanceMethod

-- The path of a dedicated and of a shared agent, for `switch (issuanceMethodLabel)`.
unfoldable pub issuance_path :
    IssuanceMethod → OrgAgentType → (end_point tenant_id credential_record_id : Text) → Option Text
issuance_path create_offer dedicated e t r = some (e ++ codes "/credentials/create-offer")
issuance_path create_offer shared e t r =
    some (replace_mark b'#' t (e ++ codes "/multi-tenancy/credentials/create-offer/#"))
issuance_path create_offer_oob dedicated e t r = some (e ++ codes "/credentials/create-offer-oob")
issuance_path create_offer_oob shared e t r =
    some (replace_mark b'#' t (e ++ codes "/multi-tenancy/credentials/create-offer-oob/#"))
issuance_path get_issue_credentials dedicated e t r = some (e ++ codes "/credentials")
issuance_path get_issue_credentials shared e t r =
    some (replace_mark b'#' t (e ++ codes "/multi-tenancy/credentials/#"))
issuance_path get_issue_credential_by_credential_id dedicated e t r =
    some ((e ++ codes "/credentials") ++ codes "/" ++ r)
issuance_path get_issue_credential_by_credential_id shared e t r =
    some (replace_mark b'@' t (replace_mark b'#' r (e ++ codes "/multi-tenancy/credentials/#/@")))
issuance_path create_offer other_agent e t r = none
issuance_path create_offer_oob other_agent e t r = none
issuance_path get_issue_credentials other_agent e t r = none
issuance_path get_issue_credential_by_credential_id other_agent e t r = none

abbrev pub url_or_error : Option Text → Outcome Text
url_or_error none = err (not_found agent_url_not_found)
url_or_error (some []) = err (not_found agent_url_not_found)
url_or_error (some (c ∷ url)) = ok (c ∷ url)

unfoldable pub get_agent_url :
    IssuanceMethod → OrgAgentType → (end_point tenant_id credential_record_id : Text) → Outcome Text
unfolding issuance_path
get_agent_url method agent_type e t r = url_or_error (issuance_path method agent_type e t r)
