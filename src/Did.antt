-- ===== src/Did.antt =====
-- Decentralised identifiers as texts: `networkNamespace` of libs/common/src/common.utils.ts, the
-- namespace of `setPrimaryDid` in apps/organization/src/organization.service.ts, and `validateDid`
-- of libs/common/src/validator.ts.
pub mod Namespace
pub mod Checks
use confirmd_platform.Common.{
  ℕ, zero, suc, Bool, true, false, not, ◌&&◌, ◌||◌, Option, none, some, List, [], ◌∷◌, ◌++◌, Text,
  codes, same, any, length, ◌==◌, if◌then◌else◌,
}
use confirmd_platform.Organization.Model.Rows.{includes, is_set}

-- The first part is put before the parts that follow.
abbrev pub put_first : ℕ → List Text → List Text
put_first c [] = (c ∷ []) ∷ []
put_first c (p ∷ ps) = (c ∷ p) ∷ ps

-- `text.split(':')`
unfoldable pub split_colon : Text → List Text
split_colon [] = [] ∷ []
split_colon (c ∷ s) = let rest = split_colon s in if c == b':' then [] ∷ rest else put_first c rest

-- An element in a template literal: a missing one reads `undefined`.
unfoldable pub part : List Text → ℕ → Text
part [] i = codes "undefined"
part (p ∷ ps) zero = p
part (p ∷ ps) (suc i) = part ps i

-- The namespace by which `setPrimaryDid` looks the ledger up; `none` is `null`.
unfoldable pub name_space : Text → Option Text
unfolding split_colon part
name_space did =
    let parts = split_colon did in
    if same (codes "indy") (part parts 1)
    then some (part parts 2 ++ codes ":" ++ part parts 3)
    else if same (codes "polygon") (part parts 1)
    then some (part parts 1 ++ codes ":" ++ part parts 2)
    else none

unfoldable pub network_namespace : Text → Text
unfolding split_colon part includes
network_namespace did =
    let segments = split_colon did in
    if any (includes (codes "polygon")) segments
    then (if any (includes (codes "testnet")) segments
        then part segments 1 ++ codes ":" ++ part segments 2
        else part segments 1 ++ codes ":" ++ codes "mainnet")
    else part segments 1

pub data DidMethod : Type 0 where
  indy key web polygon : DidMethod
  other : Text → DidMethod

pub record DidCreate : Type 0 where
  pub method : DidMethod
  pub key_type : Text
  pub domain : Option Text
  pub network : Option Text
  pub role : Option Text
  pub endorser_did : Option Text
  pub private_key : Option Text
  pub seed : Option Text

pub data DidError : Type 0 where
  required_domain required_network key_type key_type_web required_endorser_did : DidError
  required_private_key private_key_length required_seed : DidError

abbrev is_indy_or_polygon : DidMethod → Bool
is_indy_or_polygon indy = true
is_indy_or_polygon polygon = true
is_indy_or_polygon _ = false

abbrev is_web_or_key : DidMethod → Bool
is_web_or_key web = true
is_web_or_key key = true
is_web_or_key _ = false

abbrev is_web : DidMethod → Bool
is_web web = true
is_web _ = false

abbrev is_indy : DidMethod → Bool
is_indy indy = true
is_indy _ = false

abbrev is_polygon : DidMethod → Bool
is_polygon polygon = true
is_polygon _ = false

abbrev pub has_length_64 : Option Text → Bool
has_length_64 none = false
has_length_64 (some k) = length k == 64

-- The `switch (true)` of `validateDid`: the first case that holds gives the error, `none` is none.
unfoldable pub validate_did : DidCreate → Option DidError
unfolding same
validate_did d =
    if is_web d.method && not (is_set d.domain)
    then some required_domain
    else if is_indy_or_polygon d.method && not (is_set d.network)
    then some required_network
    else if is_indy_or_polygon d.method && not (same (codes "ed25519") d.key_type)
    then some DidError.key_type
    else if is_web_or_key d.method
        && not (same (codes "ed25519") d.key_type || same (codes "bls12381g2") d.key_type)
    then some key_type_web
    else if is_indy d.method && not (is_set d.role || is_set d.endorser_did)
    then some required_endorser_did
    else if is_polygon d.method && not (is_set d.private_key)
    then some required_private_key
    else if is_polygon d.method && is_set d.private_key && not (has_length_64 d.private_key)
    then some private_key_length
    else if (is_indy d.method || is_web_or_key d.method) && not (is_set d.seed)
    then some required_seed
    else none
