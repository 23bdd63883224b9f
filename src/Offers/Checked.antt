-- ===== src/Offers/Checked.antt =====
-- When `outOfBandCredentialOffer` calls the agent at all.
use mathlib.Core.List.{Memᴰ}
use confirmd_platform.Common.{
  ◌≡◌, ◌≢◌, refl, ◌⊎◌, inl, inr, true, false, Option, none, some, List, [], ◌∷◌, any, same,
  same_iff, arith, Bool-cases,
}
use confirmd_platform.Outcome.{ok, Outcome-cases}
use confirmd_platform.Organization.Model.Rows.{is_set}
use confirmd_platform.Offers.{
  indy, OfferAttribute, OutOfBandCredential, CredentialOffer, RequiredAttribute, OfferAgent,
  OfferState, OfferServices,
}
use confirmd_platform.Offers.Send.{
  has_value, lacks_required, attributes_lack, check_indy, check_offer, out_of_band_credential_offer,
}

-- An attribute of the name is there, with a value.
abbrev pub Provides : List OfferAttribute → RequiredAttribute → Type 0
Provides attributes r =
    (a : OfferAttribute) × (Memᴰ a attributes
      × ((a.name ≡ r.attribute_name) × (is_set a.value ≡ true)))

abbrev pub ProvidesAll : List RequiredAttribute → List OfferAttribute → Type 0
ProvidesAll schema attributes =
    (r : RequiredAttribute) → Memᴰ r schema → r.is_required ≡ true → Provides attributes r

has_value-Provides :
    (r : RequiredAttribute) (attributes : List OfferAttribute)
    → has_value r.attribute_name attributes ≡ true
    → Provides attributes r
unfolding has_value
has_value-Provides r [] h = absurd (ground (arith, h))
has_value-Provides r (a ∷ attributes) h = elim (Bool-cases (same a.name r.attribute_name)) [
  | inl e ↦ (a, (Memᴰ.head refl, ((same_iff a.name r.attribute_name).0 e, ground arith)))
  | inr e ↦
      let (b, (m, p)) = has_value-Provides r attributes (ground arith) in (b, (Memᴰ.tail m, p))
]

lacks_required-ProvidesAll :
    (schema : List RequiredAttribute) (attributes : List OfferAttribute)
    → lacks_required schema attributes ≡ false
    → ProvidesAll schema attributes
unfolding lacks_required
lacks_required-ProvidesAll [] attributes h r m q = elim m [ ]
lacks_required-ProvidesAll (x ∷ schema) attributes h r (Memᴰ.head e) q =
    has_value-Provides r attributes (ground arith)
lacks_required-ProvidesAll (x ∷ schema) attributes h r (Memᴰ.tail m) q =
    lacks_required-ProvidesAll schema attributes (ground arith) r m q

offers-ProvideAll :
    (schema : List RequiredAttribute) (os : List CredentialOffer)
    → any (λ (o : CredentialOffer). lacks_required schema o.attributes) os ≡ false
    → (o : CredentialOffer) → Memᴰ o os
    → ProvidesAll schema o.attributes
offers-ProvideAll schema [] h o m = elim m [ ]
offers-ProvideAll schema (x ∷ os) h o (Memᴰ.head e) =
    lacks_required-ProvidesAll schema o.attributes (ground arith)
offers-ProvideAll schema (x ∷ os) h o (Memᴰ.tail m) = offers-ProvideAll schema os (ground arith) o m

-- The schema of the credential definition was read, and each of its required attributes has a value
-- in every offer, and in the attributes if any are given.
pub record IsProvided (w : OfferServices) (c : OutOfBandCredential) (s : OfferState) : Type 0 where
  pub schema : List RequiredAttribute
  pub read_from : w.required_attributes s c.credential_definition_id ≡ ok schema
  pub in_attributes :
      (as' : List OfferAttribute) → c.attributes ≡ some as' → as' ≢ [] → ProvidesAll schema as'
  pub in_offers :
      (os : List CredentialOffer)
      → c.credential_offer ≡ some os
      → (o : CredentialOffer) → Memᴰ o os
      → ProvidesAll schema o.attributes

attributes-ProvideAll :
    (schema : List RequiredAttribute) (given : Option (List OfferAttribute))
    → attributes_lack schema given ≡ false
    → (as' : List OfferAttribute) → given ≡ some as'
    → as' ≢ []
    → ProvidesAll schema as'
attributes-ProvideAll schema none h xs e n = absurd (ground (arith, e))
attributes-ProvideAll schema (some []) h [] e n = absurd (n refl)
attributes-ProvideAll schema (some []) h (x ∷ xs) e n = absurd (ground (arith, e))
attributes-ProvideAll schema (some (a ∷ as')) h xs e n =
    lacks_required-ProvidesAll schema xs (ground arith)

module _ (w : OfferServices) (c : OutOfBandCredential) where
  check_indy-IsProvided : (s : OfferState) → (check_indy w c s).0 ≡ ok tt → IsProvided w c s
  unfolding check_indy
  check_indy-IsProvided s e =
      elim (Outcome-cases (w.required_attributes s c.credential_definition_id)) [
        | inl (schema, r) ↦ record {
          schema = schema;
          read_from = r;
          in_attributes = attributes-ProvideAll schema c.attributes (ground arith);
          in_offers = λ os g. offers-ProvideAll schema os (ground arith);
        }
        | inr (f, r) ↦ absurd (ground arith)
      ]

  check_offer-indy :
      (agent : OfferAgent) (s : OfferState)
      → c.credential_type ≡ indy
      → check_offer w c agent s ≡ check_indy w c s
  unfolding check_offer
  check_offer-indy agent s t = ground arith

  check_indy-quiet : (s : OfferState) → (check_indy w c s).1 ≡ s
  unfolding check_indy
  check_indy-quiet s = ground arith

  -- If `outOfBandCredentialOffer` makes any call for an Indy credential, then every required
  -- attribute of the schema has a value in every offer, and in the attributes if any are given.
  pub out_of_band_credential_offer-IsProvided :
      (s : OfferState)
      → c.credential_type ≡ indy
      → ((out_of_band_credential_offer w c s).1.calls ≡ s.calls) ⊎ IsProvided w c s
  unfolding out_of_band_credential_offer
  out_of_band_credential_offer-IsProvided s t = elim (Outcome-cases (w.agent s c.org_id)) [
    | inl (agent, a) ↦ elim (Outcome-cases (check_indy w c s).0) [
      | inl (u, k) ↦ inr (check_indy-IsProvided s k)
      | inr (f, k) ↦
          let e = check_offer-indy agent s t in let q = check_indy-quiet s in inl (ground arith)
    ]
    | inr (f, a) ↦ inl (ground arith)
  ]
