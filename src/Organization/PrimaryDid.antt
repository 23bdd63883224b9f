-- ===== src/Organization/PrimaryDid.antt =====
-- Choosing the primary DID of an organisation: `setPrimaryDid` of
-- apps/organization/src/organization.service.ts, and the repository's methods that it calls.
pub mod Chosen
use confirmd_platform.Common.{
  Bool, true, false, not, Option, none, some, List, Text, codes, is_some, same, any, all,
  if◌then◌else◌,
}
use confirmd_platform.Outcome.{
  Outcome, ok, err, not_found, conflict, organisation_not_found, primary_did, did_not_found,
  no_ledger_found,
}
use confirmd_platform.Effect.{◌>>=◌, ◌>>◌, pure, throw, read, throw_if, rethrow_rpc}
use confirmd_platform.Organization.Model.Rows.{OrgDid}
use confirmd_platform.Organization.Model.World.{World, Act, Call, PrimaryDid, issue}
use confirmd_platform.Did.{name_space}

-- `orgAgentDetails.orgDid === did`
abbrev pub is_did : Option Text → Text → Bool
is_did none did = false
is_did (some d) did = same d did

module _ (w : World) where
  -- The checks, which end with the row of the DID.
  unfoldable pub check_did : (org_id did : Text) → Act OrgDid
  unfolding same
  check_did org_id did = do
    org ← read (λ h. w.organisation_by_id h org_id)
    throw_if (not (is_some org)) (not_found organisation_not_found)
    agent_did ← read (λ h. w.agent_did_by_org h org_id)
    throw_if (is_did agent_did did) (conflict primary_did)
    did_list ← read (λ h. w.dids_by_org h org_id)
    throw_if (not (any (λ item. same item.did did) did_list)) (not_found did_not_found)
    read (λ h. w.did_by_did h did)

  -- The DID that was primary so far is no longer.
  unfoldable pub clear_primary_did : Text → Act (Unit {0})
  clear_primary_did org_id = do
    dids ← read (λ h. w.dids_by_org h org_id)
    if all (λ item. not item.is_primary_did) dids then pure tt else (do
      existing ← read (λ h. w.primary_did_by_org h org_id)
      issue w (Call.unset_primary_did existing.id))

  -- `Ledgers.Not_Applicable`
  abbrev pub not_applicable : Text
  not_applicable = codes "NA"

  unfoldable pub find_network : Text → Act (Option Text)
  find_network did = elim (name_space did) [
    | some n ↦ read (λ h. w.ledger_by_namespace h n)
    | none ↦ do
      network ← read (λ h. w.ledger_by_name h not_applicable)
      elim network [ none ↦ throw (not_found no_ledger_found) | some n ↦ pure (some n) ]
  ]

  abbrev pub primary_did_details : (org_id did id : Text) → OrgDid → Option Text → PrimaryDid
  primary_did_details org_id did id details network = record {
    did = did;
    org_id = org_id;
    id = id;
    did_document = details.did_document;
    network_id = network;
  }

  unfoldable pub set_primary_did : (org_id did id : Text) → Act (Unit {0})
  set_primary_did org_id did id = rethrow_rpc (do
    details ← check_did org_id did
    clear_primary_did org_id
    network ← find_network did
    issue w (Call.set_primary_did (primary_did_details org_id did id details network)))
