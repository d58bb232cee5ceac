-- ===== src/Memberships/Owners.antt =====
-- The owner that always remains, whoever changes the team.
use shop_os.Common.{
  ℕ, ◌<◌, ◌≤◌, ◌≡◌, Bool, true, false, List, count_where, update_where, ◌&&◌, if◌then◌else◌, ◌==◌,
  some, refl, arith, inl, inr, Bool-cases, ltb, subst, ◌⊎◌, sym, ltb-false, any, ◌∙◌, ◌++◌, ◌∷◌, [],
}
use shop_os.Db.Keyed.{find, IsKeyed, update_any-IsKeyed}
use shop_os.Memberships.Roles.{
  Membership, Role, Team, count_active_owners, is_active_owner, is_last_owner, is_owner_membership,
  RoleKey, same_key, is_owner_key, RoleLink, links_owner,
}
use shop_os.Memberships.Service.{
  team_after, deactivate, with_active, assign_role_to, is_link, revoke_role_of,
}
use shop_os.Memberships.Counts.{
  count_where-one_less, membership_id_of, count_where-update, count_where-kept, count_where-le,
  any-append,
}
use shop_os.Memberships.Revoking.{
  role_id_of, other_member_kept, other_role_kept, revoke_role_of-cases, same_key-is_owner_key,
  kept_links,
}
use shop_os.Tenancy.{TenantContext}

-- The ids of the members differ, and those of the roles, and the organization has an active owner.
abbrev pub HasOwner : (organization_id : ℕ) → Team → Type 0
HasOwner org team =
    IsKeyed membership_id_of team.memberships
    × IsKeyed role_id_of team.roles
    × (0 < count_active_owners org team)

-- the rows after a member is deactivated
abbrev is_hit : Membership → Membership → Bool
is_hit m x = x.id == m.id && x.is_active

abbrev without_member : Membership → Team → List Membership
without_member m team = update_where (is_hit m) (with_active false) team.memberships

deactivate-cases :
    (context : TenantContext) (m : Membership) (team : Team)
    → (team_after team (deactivate context m team) ≡ team)
      ⊎ (((is_owner_membership team.roles team.role_links m
              && is_last_owner context.organization_id team)
            ≡ false)
          × ((team_after team (deactivate context m team)).memberships ≡ without_member m team)
          × ((team_after team (deactivate context m team)).roles ≡ team.roles)
          × ((team_after team (deactivate context m team)).role_links ≡ team.role_links))
unfolding deactivate
deactivate-cases context m team = ground arith

-- A count that was not of the last owner leaves one.
owner_left :
    (p q : Membership → Bool) (k : ℕ) (xs : List Membership) (m : Membership)
    → ((x : Membership) → (x.id == k) ≡ false → p x ≡ q x)
    → find membership_id_of k xs ≡ some m
    → IsKeyed membership_id_of xs
    → (p m ≡ true → 2 ≤ count_where p xs)
    → 0 < count_where p xs
    → 0 < count_where q xs
owner_left p q k xs m same found u enough some_owner = elim (Bool-cases (p m)) [
  | inl counts ↦ omega (arith, enough counts, count_where-one_less p q k same xs u)
  | inr not_counted ↦
      omega (arith, some_owner, count_where-kept p q k same xs m found not_counted u)
]

module _ (org : ℕ) (context : TenantContext) where
  -- the guard of the calls that take an owner away
  guarded :
      (m : Membership) (team : Team)
      → m.organization_id ≡ context.organization_id
      → (is_owner_membership team.roles team.role_links m
          && is_last_owner context.organization_id team)
        ≡ false
      → is_active_owner org team.roles team.role_links m ≡ true
      → 2 ≤ count_active_owners org team
  unfolding is_last_owner
  guarded m team own passed counts =
      let e : org ≡ context.organization_id = ground (arith, own, counts) in
      let is_owner : is_owner_membership team.roles team.role_links m ≡ true =
        ground (arith, counts) in
      let many : ltb (count_active_owners context.organization_id team) 2 ≡ false =
        ground (arith, passed, is_owner) in
      subst (λ o. 2 ≤ count_active_owners o team) (sym e) (ltb-false _ _ many)

  pub deactivate-HasOwner :
      (m : Membership) (team : Team)
      → find membership_id_of m.id team.memberships ≡ some m
      → m.organization_id ≡ context.organization_id
      → HasOwner org team
      → HasOwner org (team_after team (deactivate context m team))
  unfolding count_active_owners
  deactivate-HasOwner m team found own (members, roles, some_owner) =
      elim (deactivate-cases context m team) [
        | inl same ↦ subst (HasOwner org) (sym same) (members, roles, some_owner)
        | inr (passed, rows, same_roles, links) ↦
            let p = is_active_owner org team.roles team.role_links in
            let q : Membership → Bool = λ x. p (if is_hit m x then with_active false x else x) in
            let same : (x : Membership) → (x.id == m.id) ≡ false → p x ≡ q x = λ x h. rw h refl in
            let left =
              owner_left p q m.id team.memberships m same found members (guarded m team own passed)
                some_owner in
            let counted = count_where-update p (is_hit m) (with_active false) team.memberships in
            rw (rows, same_roles, links)
              (
                update_any-IsKeyed membership_id_of (is_hit m) (with_active false) team.memberships
                    (λ x. refl) members,
                roles,
                subst (λ n. 0 < n) (sym counted) left,
              )
      ]

  pub revoke_role_of-HasOwner :
      (key : RoleKey) (m : Membership) (r : Role) (team : Team)
      → find membership_id_of m.id team.memberships ≡ some m
      → m.organization_id ≡ context.organization_id
      → find role_id_of r.id team.roles ≡ some r
      → same_key r.key key ≡ true
      → HasOwner org team
      → HasOwner org (team_after team (revoke_role_of context key m r team))
  unfolding count_active_owners
  revoke_role_of-HasOwner key m r team found own role named (members, roles, some_owner) =
      let p = is_active_owner org team.roles team.role_links in
      let q = is_active_owner org team.roles (kept_links m r team) in
      elim (revoke_role_of-cases context key m r team) [
        | inl same ↦ subst (HasOwner org) (sym same) (members, roles, some_owner)
        | inr (passed, rows, same_roles, links) ↦
            rw (rows, same_roles, links)
              (
                members,
                roles,
                elim (Bool-cases (is_owner_key key)) [
                  | inl is_owner ↦
                      let not_last : is_last_owner context.organization_id team ≡ false =
                        ground (arith, passed, is_owner) in
                      owner_left p q m.id team.memberships m (other_member_kept org m r team) found
                        members (guarded m team own (ground (arith, not_last))) some_owner
                  | inr other ↦
                      let not_owner = same_key-is_owner_key r.key key named ∙ other in
                      let le =
                        count_where-le p q team.memberships
                          (λ x h. sym (other_role_kept org m r team x roles role not_owner) ∙ h) in
                      omega (arith, le, some_owner)
                ],
              )
      ]

  pub assign_role_to-HasOwner :
      (key : RoleKey) (m : Membership) (r : Role) (team : Team)
      → HasOwner org team
      → HasOwner org (team_after team (assign_role_to context key m r team))
  unfolding assign_role_to count_active_owners is_owner_membership
  assign_role_to-HasOwner key m r team (members, roles, some_owner) =
      elim (Bool-cases (any (is_link m r) team.role_links)) [
        | inl already ↦ rw already (members, roles, some_owner)
        | inr new ↦ rw new (
          members,
          roles,
          let l : RoleLink = record {
            organization_id = context.organization_id;
            membership_id = m.id;
            role_id = r.id;
          } in
              let q = is_active_owner org team.roles (team.role_links ++ (l ∷ [])) in
              omega (
                arith,
                some_owner,
                count_where-le (is_active_owner org team.roles team.role_links) q team.memberships
                    (λ x h. ground (
                      arith,
                      h,
                      any-append (λ k. k.membership_id == x.id && links_owner team.roles k)
                          team.role_links l,
                    )),
              ),
        )
      ]
