-- ===== src/Memberships/Service.antt =====
-- `assignRole`, `revokeRole`, `deactivateMembership` and `reactivateMembership` of
-- membership-service.ts. A call that throws leaves the tables as they were, for each is a transaction.
use shop_os.Common.{
  ℕ, Bool, true, false, not, ◌&&◌, [], ◌∷◌, ◌++◌, if◌then◌else◌, Option, none, some, any, filter,
  find_first, update_where, count_where, ◌==◌,
}
use shop_os.Result.{ok, err, Failure}
use shop_os.Tenancy.{TenantContext, assert_tenant_access, own_organization, memberships_manage}
use shop_os.Memberships.Roles.{
  Team, Membership, Role, RoleLink, RoleKey, TeamEvent, same_key, is_owner_key, is_role_grantable,
  is_owner_membership, is_last_owner, deactivated, reactivated, role_assigned, role_revoked,
}

pub data MemberError : Type 0 where
  denied : Failure → MemberError
  escalation_denied last_owner_protected : MemberError
  membership_not_found role_not_found role_already_assigned membership_inactive : MemberError

pub data TeamOutcome : Type 0 where
  threw : MemberError → TeamOutcome
  done : Team → TeamOutcome

-- the tables after a call, however it ended
abbrev pub team_after : Team → TeamOutcome → Team
team_after team (threw e) = team
team_after team (done team') = team'

-- `assertCanManageMemberships`, before anything else
abbrev pub managed : TenantContext → TeamOutcome → TeamOutcome
managed context next =
    elim (assert_tenant_access context (own_organization context) memberships_manage) [
      | err e ↦ threw (denied e)
      | ok _ ↦ next
    ]

abbrev pub find_membership : (organization_id membership_id : ℕ) → Team → Option Membership
find_membership org membership team =
    find_first (λ m. m.id == membership && m.organization_id == org) team.memberships

abbrev pub find_role : (organization_id : ℕ) → RoleKey → Team → Option Role
find_role org key team = find_first (λ r. r.organization_id == org && same_key r.key key) team.roles

abbrev pub is_link : Membership → Role → RoleLink → Bool
is_link m r l = l.membership_id == m.id && l.role_id == r.id

-- the audit row and the message of a change
abbrev pub with_log : TenantContext → (membership_id : ℕ) → TeamEvent → Team → Team
with_log context membership event team = record team {
  log =
      team.log
      ++ (record {
        organization_id = context.organization_id;
        actor_user_id = context.actor_id;
        request_id = context.request_id;
        membership_id = membership;
        event = event;
      }
          ∷ []);
}

unfoldable pub assign_role_to : TenantContext → RoleKey → Membership → Role → Team → TeamOutcome
assign_role_to context key m r team =
    if any (is_link m r) team.role_links
    then threw role_already_assigned
    else done (
        with_log context m.id (role_assigned key) (record team {
          role_links =
              team.role_links
              ++ (record {
                organization_id = context.organization_id;
                membership_id = m.id;
                role_id = r.id;
              }
                  ∷ []);
        }))

-- the rows that the calls on roles read first
abbrev pub with_found_rows :
    TenantContext
    → (membership_id : ℕ) → RoleKey
    → Team
    → (Membership → Role → TeamOutcome)
    → TeamOutcome
with_found_rows context membership key team next =
    elim (find_membership context.organization_id membership team) [
      | none ↦ threw membership_not_found
      | some m ↦ elim (find_role context.organization_id key team) [
        | none ↦ threw role_not_found
        | some r ↦ next m r
      ]
    ]

unfoldable pub assign_role : TenantContext → (membership_id : ℕ) → RoleKey → Team → TeamOutcome
assign_role context membership key team = managed context (
    if is_role_grantable key context.permissions
    then with_found_rows context membership key team (λ m r. assign_role_to context key m r team)
    else threw escalation_denied)

abbrev pub without_link : Membership → Role → Team → Team
without_link m r team = record team {
  role_links = filter (λ l. not (is_link m r l)) team.role_links;
}

unfoldable pub revoke_role_of : TenantContext → RoleKey → Membership → Role → Team → TeamOutcome
revoke_role_of context key m r team =
    if not (any (is_link m r) team.role_links)
    then threw role_not_found
    else if is_owner_key key && is_last_owner context.organization_id team
    then threw last_owner_protected
    else done (with_log context m.id (role_revoked key) (without_link m r team))

unfoldable pub revoke_role : TenantContext → (membership_id : ℕ) → RoleKey → Team → TeamOutcome
revoke_role context membership key team =
    managed context
      (with_found_rows context membership key team (λ m r. revoke_role_of context key m r team))

abbrev pub with_active : Bool → Membership → Membership
with_active active m = record m { is_active = active }

-- The row was read as active in the same serializable transaction, so the update meets it: the
-- source's check of the number of updated rows passes.
unfoldable pub deactivate : TenantContext → Membership → Team → TeamOutcome
deactivate context m team =
    if not m.is_active
    then threw membership_inactive
    else if is_owner_membership team.roles team.role_links m
        && is_last_owner context.organization_id team
    then threw last_owner_protected
    else done (
        with_log context m.id deactivated (record team {
          memberships =
              update_where (λ x. x.id == m.id && x.is_active) (with_active false) team.memberships;
        }))

unfoldable pub deactivate_membership : TenantContext → (membership_id : ℕ) → Team → TeamOutcome
deactivate_membership context membership team =
    managed context (elim (find_membership context.organization_id membership team) [
      | none ↦ threw membership_not_found
      | some m ↦ deactivate context m team
    ])

abbrev pub is_dormant : (organization_id membership_id : ℕ) → Membership → Bool
is_dormant org membership m = m.id == membership && m.organization_id == org && not m.is_active

unfoldable pub reactivate_membership : TenantContext → (membership_id : ℕ) → Team → TeamOutcome
reactivate_membership context membership team = managed context (
    if count_where (is_dormant context.organization_id membership) team.memberships == 1
    then done (
        with_log context membership reactivated (record team {
          memberships =
              update_where (is_dormant context.organization_id membership) (with_active true)
                team.memberships;
        }))
    else threw membership_not_found)
