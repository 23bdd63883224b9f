-- ===== src/Organization/Update/Examples.antt =====
-- `updateOrganization` at a concrete organisation, and the theorems on it there.
use confirmd_platform.Common.{◌≡◌, refl, false, none, some, [], ◌∷◌, codes}
use confirmd_platform.Common.{same}
use confirmd_platform.Outcome.{ok, err, is_ok, rpc, type_error}
use confirmd_platform.Organization.Update.{
  UpdateOrganization, StoredOrg, AgentInvitation, UpdateServices, update_invitation,
  create_connection, same_field, create_connection_for, check_name, stored_logo, finish_update,
  write_details, update_organization,
}
use confirmd_platform.Organization.Update.Agent.{
  row_updates, IsUpdated, update_organization-throws, update_organization-IsUpdated,
}

abbrev org : StoredOrg
org = record { id = codes "o1"; name = codes "Org"; logo_url = none }

abbrev dto : UpdateOrganization
dto = record {
  name = codes "Org";
  description = none;
  org_id = codes "o1";
  logo = none;
  website = none;
  org_slug = none;
  is_public = none;
  user_id = none;
  country_id = none;
  city_id = none;
  state_id = none;
}

abbrev plain : UpdateServices
plain = record {
  org_by_name = λ h name. ok (some org);
  agent_invitation = λ h id. ok none;
  uploaded = λ h logo. ok logo;
  updated_row = λ h d. ok org;
  created_connection = λ h id. ok (some (codes "invitation"));
  done = λ h c. ok tt;
}

abbrev invitation : AgentInvitation
invitation = record { agent_id = codes "a1"; connection_invitation = codes "url" }

abbrev with_agent : UpdateServices
with_agent = record {
  org_by_name = plain.org_by_name;
  agent_invitation = λ h id. ok (some invitation);
  uploaded = plain.uploaded;
  updated_row = plain.updated_row;
  created_connection = plain.created_connection;
  done = plain.done;
}

-- The connection is made before the error.
agent_test : update_organization with_agent dto (codes "u1") (codes "o1") [] ≡ (
  err (rpc type_error),
  update_invitation (codes "o1") (some (codes "invitation"))
      ∷ create_connection none (some (codes "Org")) (codes "o1")
      ∷ [],
)
unfolding update_organization check_name same stored_logo finish_update write_details same_field
    create_connection_for
agent_test = refl

update_organization-throws_example :
    (is_ok (update_organization with_agent dto (codes "u1") (codes "o1") []).0 ≡ false)
    × (row_updates (update_organization with_agent dto (codes "u1") (codes "o1") []).1
        ≡ row_updates [])
update_organization-throws_example =
    update_organization-throws with_agent dto (codes "u1") (codes "o1") [] invitation (λ t. refl)
      refl

update_organization-IsUpdated_example :
    IsUpdated plain dto
      (codes "u1")
      (codes "o1")
      []
      org
      (update_organization plain dto (codes "u1") (codes "o1") []).1
unfolding update_organization check_name same stored_logo finish_update write_details
update_organization-IsUpdated_example =
    update_organization-IsUpdated plain dto (codes "u1") (codes "o1") [] org refl
