-- ===== src/Did/Namespace.antt =====
-- The two readings of the network of a DID.
use confirmd_platform.Common.{
  ◌≡◌, refl, ◌≢◌, false, some, List, [], ◌∷◌, ◌++◌, arith, Text, codes, same, All,
}
use confirmd_platform.Organization.Model.Rows.{includes}
use confirmd_platform.Did.{split_colon, name_space, network_namespace}

-- Parts joined by colons.
abbrev pub join_colon : Text → List Text → Text
join_colon p [] = p
join_colon p (q ∷ ps) = p ++ b':' ∷ join_colon q ps

abbrev pub HasNoColon : Text → Type 0
HasNoColon = All (λ c. c ≢ b':')

split_colon_one : (p : Text) → HasNoColon p → split_colon p ≡ p ∷ []
unfolding split_colon
split_colon_one [] h = refl
split_colon_one (c ∷ p) h = ground (arith, split_colon_one p h.1)

split_colon-append : (p s : Text) → HasNoColon p → split_colon (p ++ b':' ∷ s) ≡ p ∷ split_colon s
unfolding split_colon
split_colon-append [] s h = refl
split_colon-append (c ∷ p) s h = ground (arith, split_colon-append p s h.1)

-- Splitting undoes joining, for parts without colons.
pub split_colon-join_colon :
    (p : Text) (ps : List Text)
    → HasNoColon p
    → All HasNoColon ps
    → split_colon (join_colon p ps) ≡ p ∷ ps
split_colon-join_colon p [] h k = split_colon_one p h
split_colon-join_colon p (q ∷ ps) h k =
    rw (split_colon-append p (join_colon q ps) h) (rw (split_colon-join_colon q ps k.0 k.1))

-- For a DID of Polygon's main network, `did:polygon:` and an address, the schema service stores
-- the namespace `polygon:mainnet`, and `setPrimaryDid` looks up `polygon:` and the address.
pub name_space-ne-network_namespace :
    (address : Text)
    → HasNoColon address
    → includes (codes "testnet") address ≡ false
    → (name_space (codes "did:polygon:" ++ address) ≡ some (codes "polygon:" ++ address))
      × (network_namespace (codes "did:polygon:" ++ address) ≡ codes "polygon:mainnet")
unfolding name_space network_namespace same
name_space-ne-network_namespace address h t = rw (split_colon_one address h) (refl, rw t)
