-- ===== src/Organization/Examples/Witnesses.antt =====
-- The theorems on apps/organization at concrete requests.
use mathlib.Core.List.{Memᴰ}
use confirmd_platform.Cast.{to_number}
use confirmd_platform.Common.{same}
use confirmd_platform.Effect.{for_each}
use confirmd_platform.Organization.Invite.{get_organization_details}
use confirmd_platform.Organization.Model.Rows.{is_platform_admin}
use confirmd_platform.Organization.Register.{assign_owner, registration_token}
use confirmd_platform.Organization.Respond.{accept_with, check_limit, grant_roles, respond, settle}
use confirmd_platform.Organization.Roles.{create_user_org_role}
use confirmd_platform.Organization.Token.{token_of, get_user}
use confirmd_platform.Common.{ℕ, ◌≡◌, refl, ◌⊎◌, true, false, [], ◌∷◌, codes}
use confirmd_platform.Outcome.{ok, err, type_error}
use confirmd_platform.Trace.{Made}
use confirmd_platform.Organization.Model.Rows.{accepted, rejected}
use confirmd_platform.Organization.Model.World.{Call}
use confirmd_platform.Organization.Invite.Clients.{create_invitation}
use confirmd_platform.Organization.Invite.Sent.{MaySend, create_invitation-Made}
use confirmd_platform.Organization.Invite.Distinct.{
  AreDistinct, invited_to, create_invitation-AreDistinct,
}
use confirmd_platform.Organization.Respond.{
  transition, invitation_accept, is_over_limit, update_client_invitation, update_org_invitation,
}
use confirmd_platform.Organization.Respond.Guarded.{IsEntitled, update_org_invitation-IsEntitled}
use confirmd_platform.Organization.Respond.Granted.{
  granted, HasReplied, update_org_invitation-HasReplied, update_client_invitation-loses,
}
use confirmd_platform.Organization.Members.{update_user_roles}
use confirmd_platform.Organization.Members.Replaced.{update_user_roles-reports_success}
use confirmd_platform.Organization.Register.{register_to_keycloak}
use confirmd_platform.Organization.Register.Calls.{
  pushed, registration, register_to_keycloak-pushed,
}
use confirmd_platform.Organization.Create.{create_organization}
use confirmd_platform.Organization.Create.Checked.{IsFree, create_organization-IsFree}
use confirmd_platform.Organization.PrimaryDid.{set_primary_did}
use confirmd_platform.Organization.PrimaryDid.Chosen.{IsEligible, set_primary_did-IsEligible}
use confirmd_platform.Organization.Examples.{
  org_id, user_id, sender, acme, the_user, owner_role, client_owner, open_invitation, new_did,
  credentials, member_row, calm_world, calm_world-Remembers, three_invitations, acceptance, new_org,
  without_roles,
}

create_invitation-Made_example :
    Made
      (MaySend calm_world sender user_id three_invitations.org_id three_invitations.invitations)
      []
      (create_invitation calm_world three_invitations user_id sender []).1
create_invitation-Made_example =
    create_invitation-Made calm_world three_invitations user_id sender []

create_invitation-AreDistinct_example :
    AreDistinct
      (invited_to calm_world (create_invitation calm_world three_invitations user_id sender []).1)
create_invitation-AreDistinct_example =
    create_invitation-AreDistinct calm_world three_invitations user_id sender calm_world-Remembers

update_org_invitation-IsEntitled_example :
    ((update_org_invitation calm_world acceptance []).1 ≡ [])
    ⊎ (IsEntitled calm_world acceptance []
        × ((acceptance.status ≡ rejected)
            ⊎ ((count : ℕ) × (calm_world.organisation_count [] acceptance.user_id ≡ ok count)
                × (is_over_limit calm_world.max_org_limit count ≡ false))))
update_org_invitation-IsEntitled_example = update_org_invitation-IsEntitled calm_world acceptance []

update_org_invitation-HasReplied_example :
    HasReplied calm_world open_invitation acceptance []
      (update_org_invitation calm_world acceptance []).1
      invitation_accept
unfolding update_org_invitation check_limit to_number respond same get_organization_details settle
    transition accept_with grant_roles
update_org_invitation-HasReplied_example =
    update_org_invitation-HasReplied calm_world open_invitation acceptance acme [] invitation_accept
      refl refl refl refl

update_client_invitation-loses_example :
    update_client_invitation without_roles open_invitation
      (codes "p1")
      user_id
      (codes "k1")
      org_id
      accepted
      []
    ≡ (err type_error, Call.update_invitation (codes "i1") accepted ∷ [])
unfolding token_of is_platform_admin
update_client_invitation-loses_example =
    update_client_invitation-loses without_roles open_invitation (codes "p1") user_id (codes "k1")
      org_id (codes "token") accepted [] [] (owner_role ∷ []) owner_role refl refl refl
      (Memᴰ.head refl) tt

update_user_roles-reports_success_example :
    update_user_roles calm_world org_id (codes "r1" ∷ codes "r9" ∷ []) user_id [] ≡ (
      ok true,
      granted user_id org_id
          (codes "r1" ∷ codes "r9" ∷ [])
          (Call.delete_user_org_roles user_id org_id ∷ []),
    )
unfolding get_organization_details
update_user_roles-reports_success_example =
    update_user_roles-reports_success calm_world org_id user_id (codes "r1" ∷ codes "r9" ∷ [])
      member_row [] acme owner_role [] 0 [] refl refl refl refl refl

register_to_keycloak-pushed_example :
    (register_to_keycloak calm_world (codes "Acme") org_id (codes "k1") user_id false []).1
    ≡ pushed
        (registration
          (codes "Acme")
          org_id
          (codes "k1")
          user_id
          (codes "token")
          (codes "p1")
          (codes "r1")
          client_owner)
        []
unfolding get_user registration_token is_platform_admin register_to_keycloak for_each assign_owner
    create_user_org_role
register_to_keycloak-pushed_example =
    register_to_keycloak-pushed calm_world (codes "Acme") org_id (codes "k1") user_id
      (codes "token") the_user credentials client_owner owner_role [] refl refl refl refl refl refl

create_organization-IsFree_example :
    ((create_organization calm_world new_org user_id (codes "k1") []).1 ≡ [])
    ⊎ IsFree calm_world new_org user_id []
create_organization-IsFree_example =
    create_organization-IsFree calm_world new_org user_id (codes "k1") []

set_primary_did-IsEligible_example :
    ((set_primary_did calm_world org_id new_did.did (codes "d2") []).1 ≡ [])
    ⊎ IsEligible calm_world org_id new_did.did []
set_primary_did-IsEligible_example =
    set_primary_did-IsEligible calm_world org_id new_did.did [] (codes "d2")
