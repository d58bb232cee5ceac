-- ===== src/Memberships/Tests.antt =====
-- A team of two owners, of whom one leaves and the other may not, and the theorem on it.
use shop_os.Common.{◌≡◌, refl, ℕ, true, none, arith, [], ◌∷◌}
use shop_os.Tenancy.{TenantContext}
use shop_os.Memberships.Roles.{
  Team, Membership, all_tenant_permissions, owner_word, is_owner_membership, count_active_owners,
  is_last_owner, owner,
}
use shop_os.Memberships.Service.{
  revoke_role, deactivate_membership, team_after, threw, last_owner_protected, deactivate,
  revoke_role_of,
}
use shop_os.Memberships.Owners.{HasOwner}
use shop_os.Memberships.Sequences.{TeamCall, TeamCalls, TeamCalls-HasOwner}

abbrev boss : TenantContext
boss = record {
  actor_id = 1;
  organization_id = 7;
  membership_id = 10;
  request_id = 5;
  selected_location_id = none;
  organization_wide_location_access = true;
  allowed_location_ids = [];
  permissions = all_tenant_permissions;
}

abbrev founder : Membership
founder = record {
  id = 10;
  organization_id = 7;
  user_id = 1;
  auth_role = owner_word;
  is_active = true;
}

-- a member who owns by a role alone
abbrev partner : Membership
partner = record { id = 11; organization_id = 7; user_id = 2; auth_role = []; is_active = true }

abbrev couple : Team
couple = record {
  memberships = founder ∷ partner ∷ [];
  roles = record { id = 3; organization_id = 7; key = owner } ∷ [];
  role_links = record { organization_id = 7; membership_id = 11; role_id = 3 } ∷ [];
  log = [];
}

-- the partner's role is taken, then the founder is deactivated in vain
abbrev without_partner : Team
without_partner = team_after couple (revoke_role boss 11 owner couple)

last_owner_stays : deactivate_membership boss 10 without_partner ≡ threw last_owner_protected
unfolding deactivate_membership shop_os.Tenancy.assert_tenant_access
    shop_os.Tenancy.Permission-discrete shop_os.Tenancy.assert_location revoke_role revoke_role_of
    is_last_owner count_active_owners is_owner_membership shop_os.Common.Text.same_text deactivate
last_owner_stays = refl

abbrev parting :
    TeamCalls couple (team_after without_partner (deactivate_membership boss 10 without_partner))
parting =
    TeamCalls.next_call (TeamCall.role_taken boss 11 owner couple)
      (TeamCalls.next_call (TeamCall.member_deactivated boss 10 without_partner) TeamCalls.finished)

couple-HasOwner : HasOwner 7 couple
unfolding count_active_owners is_owner_membership shop_os.Common.Text.same_text
couple-HasOwner = ((refl, (refl, tt)), (refl, tt), omega arith)

TeamCalls-HasOwner_example :
    HasOwner 7 (team_after without_partner (deactivate_membership boss 10 without_partner))
TeamCalls-HasOwner_example = TeamCalls-HasOwner 7 parting couple-HasOwner
