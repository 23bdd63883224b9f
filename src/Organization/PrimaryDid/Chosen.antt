-- ===== src/Organization/PrimaryDid/Chosen.antt =====
-- When the primary DID of an organisation changes, and what a failure leaves.
use confirmd_platform.Common.{
  ◌≡◌, ◌⊎◌, inl, inr, true, false, not, any, all, Option, none, some, List, ◌∷◌, arith, Text, same,
  Bool-cases,
}
use confirmd_platform.Outcome.{ok, Outcome-cases}
use confirmd_platform.Organization.Model.Rows.{Organisation, OrgDid}
use confirmd_platform.Organization.Model.World.{World, Call, History}
use confirmd_platform.Organization.PrimaryDid.{
  is_did, check_did, clear_primary_did, find_network, primary_did_details, set_primary_did,
}

-- The organisation exists, the DID is not that of its agent, which may have none, and the DID is
-- one of its own.
pub record IsEligible (w : World) (org_id did : Text) (h : History) : Type 0 where
  pub org : Organisation
  pub org_found : w.organisation_by_id h org_id ≡ ok (some org)
  pub agent_did : Option Text
  pub agent_found : w.agent_did_by_org h org_id ≡ ok agent_did
  pub differs : is_did agent_did did ≡ false
  pub did_list : List OrgDid
  pub listed : w.dids_by_org h org_id ≡ ok did_list
  pub is_listed : any (λ item. same item.did did) did_list ≡ true

-- The history `t` at which no DID of the organisation is primary: as before, or with the primary
-- DID unset.
pub data IsCleared (w : World) (org_id : Text) (h : History) : History → Type 0 where
  none_primary :
      (l : List OrgDid)
      → w.dids_by_org h org_id ≡ ok l
      → all (λ item. not item.is_primary_did) l ≡ true
      → IsCleared w org_id h h
  unset :
      (l : List OrgDid) (row : OrgDid)
      → w.dids_by_org h org_id ≡ ok l
      → all (λ item. not item.is_primary_did) l ≡ false
      → w.primary_did_by_org h org_id ≡ ok row
      → IsCleared w org_id h (Call.unset_primary_did row.id ∷ h)

pub record IsChosen (w : World) (org_id did id : Text) (h u : History) : Type 0 where
  pub details : OrgDid
  pub details_found : w.did_by_did h did ≡ ok details
  pub cleared : History
  pub is_cleared : IsCleared w org_id h cleared
  pub network : Option Text
  pub network_found : (find_network w did cleared).0 ≡ ok network
  pub is_last :
      u ≡ Call.set_primary_did (primary_did_details w org_id did id details network) ∷ cleared

module _ (w : World) (org_id did : Text) (h : History) where
  check_did-history : (check_did w org_id did h).1 ≡ h
  unfolding check_did
  check_did-history = ground arith

  check_did-IsEligible :
      (details : OrgDid) → (check_did w org_id did h).0 ≡ ok details → IsEligible w org_id did h
  unfolding check_did
  check_did-IsEligible details e = elim (Outcome-cases (w.organisation_by_id h org_id)) [
    | inl (some o, a) ↦ elim (Outcome-cases (w.agent_did_by_org h org_id)) [
      | inl (d, b) ↦ elim (Outcome-cases (w.dids_by_org h org_id)) [
        | inl (l, c) ↦ record {
          org = o;
          org_found = a;
          agent_did = d;
          agent_found = b;
          differs = ground arith;
          did_list = l;
          listed = c;
          is_listed = ground arith;
        }
        | inr (f, c) ↦ absurd (ground arith)
      ]
      | inr (f, b) ↦ absurd (ground arith)
    ]
    | inl (none, a) ↦ absurd (ground arith)
    | inr (f, a) ↦ absurd (ground arith)
  ]

  clear_primary_did-history :
      ((clear_primary_did w org_id h).1 ≡ h)
      ⊎ ((row : OrgDid) × ((w.primary_did_by_org h org_id ≡ ok row)
            × ((clear_primary_did w org_id h).1 ≡ Call.unset_primary_did row.id ∷ h)))
  unfolding clear_primary_did
  clear_primary_did-history = elim (Outcome-cases (w.primary_did_by_org h org_id)) [
    | inl (row, a) ↦ elim (Outcome-cases (w.dids_by_org h org_id)) [
      | inl (l, b) ↦ elim (Bool-cases (all (λ item. not item.is_primary_did) l)) [
        | inl c ↦ inl (ground arith)
        | inr c ↦ inr (row, (a, ground arith))
      ]
      | inr (f, b) ↦ inl (ground arith)
    ]
    | inr (f, a) ↦ inl (ground arith)
  ]

  -- If `setPrimaryDid` makes any call for its effect, then the organisation exists, the given DID is
  -- not that of its agent (which may have no DID at all), and is one of the organisation's.
  pub set_primary_did-IsEligible :
      (id : Text) → ((set_primary_did w org_id did id h).1 ≡ h) ⊎ IsEligible w org_id did h
  unfolding set_primary_did
  set_primary_did-IsEligible id = elim (Outcome-cases (check_did w org_id did h).0) [
    | inl (details, e) ↦ inr (check_did-IsEligible details e)
    | inr (f, e) ↦ inl (ground (arith, check_did-history))
  ]
