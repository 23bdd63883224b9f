-- ===== src/Organization/Delete/Examples.antt =====
-- `deleteOrg` and `deleteOrganization` at concrete tables, and the theorems on them there.
use confirmd_platform.Common.{◌≡◌, refl, ◌⊎◌, true, none, some, List, [], ◌∷◌, Text, codes}
use confirmd_platform.Outcome.{Fault, ok, err, conflict, type_error, rpc, organisation_referenced}
use confirmd_platform.Organization.Model.Rows.{User, is_platform_admin}
use confirmd_platform.Organization.Delete.{
  Row, Tables, Database, Failures, Deleted, delete_org, roll_back,
}
use confirmd_platform.Organization.Delete.Committed.{
  without, IsUnreferenced, IsLeft, delete_org-committed,
}
use confirmd_platform.Organization.Delete.Handler.{
  RemovalCall, delete_client_roles, send_email, org_deleted_activity, organization, notification,
  Removal, RemovalServices, delete_organization,
}
use confirmd_platform.Organization.Delete.Removed.{
  IsRemoved, IsInterrupted, delete_organization-IsRemoved,
}

abbrev org : Text
org = codes "o1"

abbrev schema_row : Row
schema_row = record { id = codes "s1"; org_id = some org }

abbrev tables : Tables
tables = record {
  references = λ k. [];
  notifications = record { id = codes "n1"; org_id = some org } ∷ [];
  user_activities = record { id = codes "a1"; org_id = some (codes "o2") } ∷ [];
  user_org_roles = [];
  org_invitations = [];
  schemas = schema_row ∷ [];
  credential_definitions = [];
  organisations = record { id = org; org_id = none } ∷ [];
}

abbrev database : Database
database = record { tables = tables; step = 0 }

abbrev no_failure : Failures
no_failure = record { failure = λ k. none }

-- Tests of the definitions: the deletion of an organisation that is not there takes its name from
-- the schemas.
deleted_test : (delete_org no_failure org database).1.tables ≡ without org tables
unfolding delete_org
deleted_test = refl

lost_schema_test :
    (delete_org no_failure org
      (record database { tables = record tables { organisations = [] } })).1.tables.schemas
    ≡ record schema_row { org_id = none } ∷ []
unfolding delete_org
lost_schema_test = refl

-- The theorem at these tables.
delete_org-committed_example :
    ((d : Deleted) × (((delete_org no_failure org database).0 ≡ ok d)
        × (IsUnreferenced org tables
            × ((delete_org no_failure org database).1.tables ≡ without org tables))))
    ⊎ ((e : Fault) × (((delete_org no_failure org database).0 ≡ err e)
          × ((u : Tables) × (IsLeft org tables u
                × ((delete_org no_failure org database).1.tables ≡ roll_back tables u)))))
delete_org-committed_example = delete_org-committed no_failure org database

abbrev member : User
member = record {
  id = codes "u2";
  email = codes "m@x.io";
  first_name = codes "M";
  client_id = none;
  client_secret = none;
  keycloak_user_id = codes "k2";
  is_email_verified = true;
}

-- Every call is answered; the users with an id are all the same.
abbrev calm_services : RemovalServices
calm_services = record {
  user_by_id = λ s id. ok (elim id [ none ↦ none | some t ↦ some member ]);
  token_from_env = λ s. ok (codes "t");
  management_token = λ s client_id client_secret. ok (codes "t");
  organisation_by_id = λ s id. ok (some (record { name = codes "O"; idp_id = some (codes "i") }));
  invited_addresses = λ s id. ok (codes "m@x.io" ∷ []);
  users_by_mails = λ s emails.
      ok (record { id = codes "u2"; email = codes "m@x.io"; keycloak_user_id = codes "k2" } ∷ []);
  roles_deleted = λ s. ok tt;
  user_org_role_ids = λ s user_id org_id. ok [];
  role_names = λ s ids. ok (codes "member" ∷ []);
  platform_config = λ s. ok (some tt);
  mail_sent = λ s. ok true;
  activity_recorded = λ s. ok tt;
  failures = no_failure;
}

abbrev starting : Removal
starting = record { database = database; calls = []; informed = [] }

-- What is done before the rows are deleted, the newest first.
abbrev informing_calls : List RemovalCall
informing_calls =
    send_email (some (codes "m@x.io")) (codes "O") (codes "member" ∷ [])
    ∷ delete_client_roles (some (codes "i")) (codes "t") (some (codes "k2"))
    ∷ delete_client_roles (some (codes "i")) (codes "t") (some (codes "k2"))
    ∷ []

-- Two tables lose a row, and two deletions are recorded.
recorded_test :
    (delete_organization calm_services org (codes "u1") starting).1.calls
    ≡ org_deleted_activity org 1 organization none
      ∷ org_deleted_activity org 1 notification none
      ∷ informing_calls
unfolding delete_organization is_platform_admin
recorded_test = refl

-- An organisation with a DID is refused when the roles are removed and the mails are sent.
abbrev referenced : Removal
referenced = record starting {
  database = record database {
    tables = record tables { references = λ k. record { id = codes "d1"; org_id = some org } ∷ [] };
  };
}

refused_late_test :
    ((delete_organization calm_services org (codes "u1") referenced).0
      ≡ err (rpc (conflict organisation_referenced)))
    × ((delete_organization calm_services org (codes "u1") referenced).1.calls ≡ informing_calls)
unfolding delete_organization is_platform_admin
refused_late_test = (refl, refl)

-- An invited address without a user has the id `null`, and the deletion ends there.
unregistered_test :
    (delete_organization
      (record calm_services { users_by_mails = λ s emails. ok [] })
      org
      (codes "u1")
      starting).0
    ≡ err (rpc type_error)
unfolding delete_organization is_platform_admin
unregistered_test = refl

-- The theorem there.
delete_organization-IsRemoved_example :
    (((delete_organization calm_services org (codes "u1") starting).0 ≡ ok tt)
      × IsRemoved calm_services org tables
          (delete_organization calm_services org (codes "u1") starting).1)
    ⊎ ((e : Fault) × (((delete_organization calm_services org (codes "u1") starting).0 ≡ err e)
          × IsInterrupted org tables
              (delete_organization calm_services org (codes "u1") starting).1))
delete_organization-IsRemoved_example =
    delete_organization-IsRemoved calm_services org (codes "u1") starting
