-- ===== src/Organization/Examples.antt =====
-- A concrete outside world for apps/organization, in which every call succeeds, and the requests
-- at which the theorems are applied.
mod Witnesses
use confirmd_platform.Common.{
  ◌≡◌, refl, sym, subst, ◌⊎◌, inl, inr, Bool, true, false, ◌&&◌, ◌||◌, Option, none, some, List, [],
  ◌∷◌, arith, Text, codes, same, same_refl, any, if◌then◌else◌, Bool-cases,
}
use confirmd_platform.Outcome.{Outcome, ok, err, external}
use confirmd_platform.Organization.Model.Rows.{
  Invitation, accepted, rejected, pending, Organisation, User, OrgRole, ClientRole, OrgInvitation,
  UserOrgRole, OrgDid, OrgCredentials,
}
use confirmd_platform.Organization.Model.World.{NewInvitation, Call, History, World}
use confirmd_platform.Organization.Invite.{
  SendInvitation, BulkSendInvitation, is_pending, is_accepted,
}
use confirmd_platform.Organization.Invite.Distinct.{Remembers, IsStored}
use confirmd_platform.Organization.Respond.{UpdateInvitation}
use confirmd_platform.Organization.Create.{CreateOrganization}

abbrev pub org_id : Text
org_id = codes "o1"

abbrev pub user_id : Text
user_id = codes "u1"

abbrev pub sender : Text
sender = codes "a@x.org"

abbrev pub invitee : Text
invitee = codes "b@x.org"

abbrev pub acme : Organisation
acme = record {
  id = org_id;
  name = codes "Acme";
  org_slug = codes "acme";
  client_id = none;
  idp_id = none;
}

abbrev pub the_user : User
the_user = record {
  id = user_id;
  email = sender;
  first_name = codes "Ann";
  client_id = some (codes "c");
  client_secret = some (codes "s");
  keycloak_user_id = codes "k1";
  is_email_verified = true;
}

abbrev pub owner_role : OrgRole
owner_role = record { id = codes "r1"; name = codes "owner" }

abbrev pub client_owner : ClientRole
client_owner = record { id = codes "k-r1"; name = codes "owner" }

abbrev pub open_invitation : OrgInvitation
open_invitation = record {
  id = codes "i1";
  email = sender;
  org_id = org_id;
  status = pending;
  org_roles = codes "r1" ∷ [];
}

abbrev pub old_did : OrgDid
old_did = record {
  id = codes "d1";
  did = codes "did:key:old";
  is_primary_did = true;
  did_document = codes "{old}";
}

abbrev pub new_did : OrgDid
new_did = record {
  id = codes "d2";
  did = codes "did:indy:bcovrin:testnet:new";
  is_primary_did = false;
  did_document = codes "{new}";
}

abbrev pub credentials : OrgCredentials
credentials = record {
  client_id = codes "c1";
  idp_id = codes "p1";
  client_secret = codes "0123456789";
}

abbrev pub member_row : UserOrgRole
member_row = record {
  user_id = user_id;
  role_id = codes "r1";
  org_id = some org_id;
  idp_role_id = none;
}

abbrev row_of : NewInvitation → OrgInvitation
row_of n = record {
  id = codes "i";
  email = n.email;
  org_id = n.org_id;
  status = n.status;
  org_roles = n.org_roles;
}

-- The rows of invitations that the calls have written.
unfoldable pub stored_rows : History → (email org : Text) → List OrgInvitation
stored_rows [] email org = []
stored_rows (Call.create_invitation n ∷ h) email org =
    let rest = stored_rows h email org in
    if same n.email email && same n.org_id org then row_of n ∷ rest else rest
stored_rows (_ ∷ h) email org = stored_rows h email org

abbrev pub calm_world : World
calm_world = record {
  max_org_limit = codes "10";
  organisation_count = λ h u. ok 1;
  organisation_by_name = λ h n. ok none;
  organisation_by_slug = λ h n. ok none;
  organisation_by_id = λ h i. ok (some acme);
  user_by_id = λ h i. ok (some the_user);
  user_by_mail = λ h m. ok (some the_user);
  user_by_user_id = λ h i. ok (some the_user);
  invitation_by_id = λ h i. ok (some open_invitation);
  invitations_by = λ h e o. ok (stored_rows h e o);
  role_by_name = λ h n. ok (some owner_role);
  all_roles = λ h. ok (owner_role ∷ []);
  roles_by_ids = λ h is. ok (owner_role ∷ []);
  user_roles_by = λ h u o. ok (member_row ∷ []);
  agent_did_by_org = λ h o. ok (some (codes "did:key:old"));
  dids_by_org = λ h o. ok (old_did ∷ new_did ∷ []);
  did_by_did = λ h d. ok new_did;
  primary_did_by_org = λ h o. ok old_did;
  ledger_by_namespace = λ h n. ok (some (codes "l1"));
  ledger_by_name = λ h n. ok (some (codes "l2"));
  email_from = λ h. ok (codes "no-reply@x.org" ∷ []);
  token_from_env = λ h. ok (codes "env");
  management_token = λ h c s. ok (codes "token");
  all_client_roles = λ h i t. ok (client_owner ∷ []);
  client_role_by_name = λ h i t n. ok client_owner;
  answer = λ h c. ok tt;
  deleted_count = λ h u o. ok 1;
  created_organisation = λ h n. ok acme;
  updated_organisation = λ h g o. ok (some acme);
  created_client = λ h n o t. ok credentials;
  generated_secret = λ h i t. ok (codes "0123456789");
  uploaded_logo = λ h l. ok (codes "logo");
  email_sent = λ h t. true;
}

abbrev is_open : OrgInvitation → Bool
is_open i = is_pending i.status || is_accepted i.status

stored_rows-grow :
    (c : Call) (h : History) (email org : Text)
    → any is_open (stored_rows h email org) ≡ true
    → any is_open (stored_rows (c ∷ h) email org) ≡ true
unfolding stored_rows
stored_rows-grow (Call.create_invitation n) h email org e =
    elim (Bool-cases (same n.email email && same n.org_id org)) [
      | inl k ↦ ground arith
      | inr k ↦ ground arith
    ]
stored_rows-grow _ h email org e = e

stored_rows-new :
    (n : NewInvitation) (h : History)
    → n.status ≡ pending
    → any is_open (stored_rows (Call.create_invitation n ∷ h) n.email n.org_id) ≡ true
unfolding stored_rows
stored_rows-new n h s = ground (arith, same_refl n.email, same_refl n.org_id)

stored_rows-IsStored :
    (n : NewInvitation) (h : History)
    → IsStored calm_world n h
    → n.status ≡ pending
    → any is_open (stored_rows h n.email n.org_id) ≡ true
stored_rows-IsStored n [] k s = absurd k
stored_rows-IsStored n (c ∷ h) (inl (e, a)) s =
    subst (λ c. any is_open (stored_rows (c ∷ h) n.email n.org_id) ≡ true) (sym e)
      (stored_rows-new n h s)
stored_rows-IsStored n (c ∷ h) (inr k) s =
    stored_rows-grow c h n.email n.org_id (stored_rows-IsStored n h k s)

pub calm_world-Remembers : Remembers calm_world
calm_world-Remembers = record {
  lists = λ h n found quiet k s e. ground (arith, e, stored_rows-IsStored n h k s);
}

-- The same address twice, and the sender's own.
abbrev pub three_invitations : BulkSendInvitation
three_invitations = record {
  org_id = org_id;
  invitations =
      record { email = invitee; org_role_id = codes "r1" ∷ [] }
      ∷ record { email = invitee; org_role_id = codes "r1" ∷ [] }
      ∷ record { email = sender; org_role_id = codes "r1" ∷ [] }
      ∷ [];
}

abbrev pub acceptance : UpdateInvitation
acceptance = record {
  invitation_id = codes "i1";
  org_id = org_id;
  status = accepted;
  user_id = user_id;
  keycloak_user_id = codes "k1";
  email = sender;
}

abbrev pub new_org : CreateOrganization
new_org = record { name = codes "New Org"; logo = []; notification_webhook = none }

-- The Keycloak client has none of the roles.
abbrev pub without_roles : World
without_roles = record calm_world { all_client_roles = λ h i t. ok [] }

-- Keycloak does not create the client.
abbrev pub without_client : World
without_client = record calm_world { created_client = λ h n o t. err (external 1) }

-- The ledger of the DID is not known.
abbrev pub without_ledger : World
without_ledger = record calm_world { ledger_by_namespace = λ h n. err (external 2) }
