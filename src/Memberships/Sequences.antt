-- ===== src/Memberships/Sequences.antt =====
-- Any sequence of the calls on a team, by anyone.
use shop_os.Common.{
  ℕ, some, ◌≡◌, arith, inl, inr, Bool-cases, Option-cases, Bool, if◌then◌else◌, ◌==◌, true, ◌&&◌,
  find_first-holds, ◌<◌, count_where, update_where, subst, sym, refl,
}
use shop_os.Result.{Result-cases}
use shop_os.Memberships.Roles.{
  Team, RoleKey, count_active_owners, Membership, Role, is_active_owner, is_role_grantable,
  same_key, reactivated,
}
use shop_os.Memberships.Service.{
  assign_role, revoke_role, deactivate_membership, reactivate_membership, team_after, managed,
  TeamOutcome, is_dormant, with_found_rows, find_membership, revoke_role_of, assign_role_to, threw,
  membership_not_found, escalation_denied, with_active, find_role, deactivate, done, with_log,
}
use shop_os.Memberships.Owners.{
  HasOwner, deactivate-HasOwner, revoke_role_of-HasOwner, assign_role_to-HasOwner,
}
use shop_os.Tenancy.{TenantContext, assert_tenant_access, own_organization, memberships_manage}
use shop_os.Db.Keyed.{find, find_of_found, update_any-IsKeyed}
use shop_os.Memberships.Counts.{membership_id_of, count_where-le, count_where-update}
use shop_os.Memberships.Revoking.{role_id_of}

module _ (org : ℕ) (team : Team) (context : TenantContext) where
  -- An access check in front changes nothing.
  managed-HasOwner :
      (next : TeamOutcome)
      → HasOwner org team
      → HasOwner org (team_after team next)
      → HasOwner org (team_after team (managed context next))
  managed-HasOwner next h after =
      elim (Result-cases
        (assert_tenant_access context (own_organization context) memberships_manage)) [
          | inl (u, granted) ↦ rw (team_after, granted) after
          | inr (e, refused) ↦ rw (team_after, refused) h
        ]

  -- The rows that the calls on roles read.
  with_found_rows-HasOwner :
      (membership : ℕ) (key : RoleKey) (next : Membership → Role → TeamOutcome)
      → HasOwner org team
      → ((m : Membership) (r : Role)
          → find membership_id_of m.id team.memberships ≡ some m
          → m.organization_id ≡ context.organization_id
          → find role_id_of r.id team.roles ≡ some r
          → same_key r.key key ≡ true
          → HasOwner org (team_after team (next m r)))
      → HasOwner org (team_after team (with_found_rows context membership key team next))
  with_found_rows-HasOwner membership key next h after =
      elim (Option-cases (find_membership context.organization_id membership team)) [
        | inl missing ↦ rw (team_after, missing) h
        | inr (m, found) ↦ elim (Option-cases (find_role context.organization_id key team)) [
          | inl missing ↦ rw (team_after, found, missing) h
          | inr (r, role) ↦
              let test = λ (x : Membership).
                x.id == membership && x.organization_id == context.organization_id in
              let role_test =
                λ (x : Role). x.organization_id == context.organization_id && same_key x.key key in
              let owned : test m ≡ true = find_first-holds test team.memberships m found in
              let named : role_test r ≡ true = find_first-holds role_test team.roles r role in
              rw (team_after, found, role)
                (after m r (find_of_found membership_id_of test team.memberships m h.0 found)
                  (ground (arith, owned)) (find_of_found role_id_of role_test team.roles r h.1 role)
                  (ground (arith, named)))
        ]
      ]

  assign_role-HasOwner :
      (membership : ℕ) (key : RoleKey)
      → HasOwner org team
      → HasOwner org (team_after team (assign_role context membership key team))
  unfolding assign_role
  assign_role-HasOwner membership key h =
      elim (Bool-cases (is_role_grantable key context.permissions)) [
        | inl grantable ↦ rw grantable (
            managed-HasOwner
              (with_found_rows context membership key team
                (λ m r. assign_role_to context key m r team))
              h
              (with_found_rows-HasOwner membership key (λ m r. assign_role_to context key m r team)
                h (λ m r _ _ _ _. assign_role_to-HasOwner org context key m r team h)))
        | inr refused ↦ rw refused (managed-HasOwner (threw escalation_denied) h h)
      ]

  revoke_role-HasOwner :
      (membership : ℕ) (key : RoleKey)
      → HasOwner org team
      → HasOwner org (team_after team (revoke_role context membership key team))
  unfolding revoke_role
  revoke_role-HasOwner membership key h =
      managed-HasOwner
        (with_found_rows context membership key team (λ m r. revoke_role_of context key m r team)) h
        (with_found_rows-HasOwner membership key (λ m r. revoke_role_of context key m r team) h
          (λ m r found own role named.
            revoke_role_of-HasOwner org context key m r team found own role named h))

  deactivate_membership-HasOwner :
      (membership : ℕ)
      → HasOwner org team
      → HasOwner org (team_after team (deactivate_membership context membership team))
  unfolding deactivate_membership
  deactivate_membership-HasOwner membership h =
      elim (Option-cases (find_membership context.organization_id membership team)) [
        | inl missing ↦ rw missing (managed-HasOwner (threw membership_not_found) h h)
        | inr (m, found) ↦
            let test = λ (x : Membership).
              x.id == membership && x.organization_id == context.organization_id in
            let owned : test m ≡ true = find_first-holds test team.memberships m found in
            rw found (
              managed-HasOwner (deactivate context m team) h (
                deactivate-HasOwner org context m team
                  (find_of_found membership_id_of test team.memberships m h.0 found)
                  (ground (arith, owned)) h))
      ]

  reactivate_membership-HasOwner :
      (membership : ℕ)
      → HasOwner org team
      → HasOwner org (team_after team (reactivate_membership context membership team))
  unfolding reactivate_membership count_active_owners
  reactivate_membership-HasOwner membership (members, roles, some_owner) =
      let c = is_dormant context.organization_id membership in
      let p = is_active_owner org team.roles team.role_links in
      let q : Membership → Bool = λ x. p (if c x then with_active true x else x) in
      let le = count_where-le p q team.memberships (λ x h. ground (arith, h)) in
      let counted = count_where-update p c (with_active true) team.memberships in
      let left : 0 < count_where q team.memberships = omega (arith, le, some_owner) in
      elim (Bool-cases (count_where c team.memberships == 1)) [
        | inr refused ↦ rw refused (
            managed-HasOwner (threw membership_not_found) (members, roles, some_owner)
              (members, roles, some_owner))
        | inl one ↦ rw one (
            managed-HasOwner
              (done (
                with_log context membership reactivated (record team {
                  memberships = update_where c (with_active true) team.memberships;
                })))
              (members, roles, some_owner)
              (
                update_any-IsKeyed membership_id_of c (with_active true) team.memberships
                    (λ x. refl) members,
                roles,
                subst (λ n. 0 < n) (sym counted) left,
              ))
      ]

-- one call, however it ends
pub data TeamCall : Team → Team → Type 0 where
  role_given :
      (context : TenantContext) (membership : ℕ) (key : RoleKey) (team : Team)
      → TeamCall team (team_after team (assign_role context membership key team))
  role_taken :
      (context : TenantContext) (membership : ℕ) (key : RoleKey) (team : Team)
      → TeamCall team (team_after team (revoke_role context membership key team))
  member_deactivated :
      (context : TenantContext) (membership : ℕ) (team : Team)
      → TeamCall team (team_after team (deactivate_membership context membership team))
  member_reactivated :
      (context : TenantContext) (membership : ℕ) (team : Team)
      → TeamCall team (team_after team (reactivate_membership context membership team))

pub data TeamCalls : Team → Team → Type 0 where
  finished : {team : Team} → TeamCalls team team
  next_call : {team mid last : Team} → TeamCall team mid → TeamCalls mid last → TeamCalls team last

TeamCall-HasOwner :
    (org : ℕ) {team team' : Team} → TeamCall team team' → HasOwner org team → HasOwner org team'
TeamCall-HasOwner org (role_given context membership key team) h =
    assign_role-HasOwner org team context membership key h
TeamCall-HasOwner org (role_taken context membership key team) h =
    revoke_role-HasOwner org team context membership key h
TeamCall-HasOwner org (member_deactivated context membership team) h =
    deactivate_membership-HasOwner org team context membership h
TeamCall-HasOwner org (member_reactivated context membership team) h =
    reactivate_membership-HasOwner org team context membership h

-- If the ids of the members and those of the roles differ and the organization has an active
-- owner, then the ids still differ and it still has one after any sequence of calls of
-- assignRole, revokeRole, deactivateMembership and reactivateMembership, by members of any
-- organization.
pub TeamCalls-HasOwner :
    (org : ℕ) {team last : Team} → TeamCalls team last → HasOwner org team → HasOwner org last
TeamCalls-HasOwner org finished h = h
TeamCalls-HasOwner org (next_call call rest) h =
    TeamCalls-HasOwner org rest (TeamCall-HasOwner org call h)
