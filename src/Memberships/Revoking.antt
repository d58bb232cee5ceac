-- ===== src/Memberships/Revoking.antt =====
-- Taking a role away from a member, and who counts as an owner afterwards.
use shop_os.Common.{
  ℕ, ◌≡◌, ◌⊎◌, true, false, List, [], ◌∷◌, any, filter, not, ◌&&◌, ◌==◌, some, none, refl, arith,
  inl, inr, Bool-cases, ==→eq, subst, some-injective, sym, ◌∙◌, ap,
}
use shop_os.Db.Keyed.{find, IsKeyed}
use shop_os.Memberships.Roles.{
  Membership, RoleLink, RoleKey, Role, Team, is_active_owner, is_owner_membership, is_owner_key,
  links_owner, same_key, is_last_owner,
}
use shop_os.Memberships.Service.{team_after, revoke_role_of, is_link}
use shop_os.Memberships.Counts.{any-filter}
use shop_os.Tenancy.{TenantContext}

abbrev pub role_id_of : Role → ℕ
role_id_of r = r.id

pub same_key-is_owner_key : (a b : RoleKey) → same_key a b ≡ true → is_owner_key a ≡ is_owner_key b
same_key-is_owner_key a b h = ground (arith, h)

absent_role :
    (k : ℕ) (roles : List Role)
    → find role_id_of k roles ≡ none
    → any (λ r. r.id == k && is_owner_key r.key) roles ≡ false
absent_role k [] h = refl
absent_role k (x ∷ xs) h = ground (arith, absent_role k xs)

-- A role of another key is not the owner's.
other_role :
    (k : ℕ) (r : Role) (roles : List Role)
    → IsKeyed role_id_of roles
    → find role_id_of k roles ≡ some r
    → is_owner_key r.key ≡ false
    → any (λ x. x.id == k && is_owner_key x.key) roles ≡ false
other_role k r [] u found h = cc
other_role k r (x ∷ xs) (fresh, u) found h = elim (Bool-cases (x.id == k)) [
  | inl here ↦
      let e = ==→eq x.id k here in
      let rest = absent_role k xs (subst (λ j. find role_id_of j xs ≡ none) e fresh) in
      let is_r : x ≡ r = some-injective (sym (rw here refl) ∙ found) in
      let not_owner : is_owner_key x.key ≡ false = ap (λ y. is_owner_key y.key) is_r ∙ h in
      ground (arith, rest, not_owner)
  | inr other ↦ ground (arith, other, found, other_role k r xs u, h)
]

abbrev pub kept_links : Membership → Role → Team → List RoleLink
kept_links m r team = filter (λ l. not (is_link m r l)) team.role_links

-- Other members keep what they count for.
pub other_member_kept :
    (org : ℕ) (m : Membership) (r : Role) (team : Team) (x : Membership)
    → (x.id == m.id) ≡ false
    → is_active_owner org team.roles team.role_links x
      ≡ is_active_owner org team.roles (kept_links m r team) x
unfolding is_owner_membership
other_member_kept org m r team x other =
    rw
      (any-filter (λ l. l.membership_id == x.id && links_owner team.roles l) (is_link m r)
        team.role_links (λ l hit. ground (arith, hit, other)))
      refl

-- And all do when the role is not the owner's.
pub other_role_kept :
    (org : ℕ) (m : Membership) (r : Role) (team : Team) (x : Membership)
    → IsKeyed role_id_of team.roles
    → find role_id_of r.id team.roles ≡ some r
    → is_owner_key r.key ≡ false
    → is_active_owner org team.roles team.role_links x
      ≡ is_active_owner org team.roles (kept_links m r team) x
unfolding is_owner_membership
other_role_kept org m r team x u found other =
    rw
      (any-filter (λ l. l.membership_id == x.id && links_owner team.roles l) (is_link m r)
        team.role_links
        (λ l hit.
          let e : l.role_id ≡ r.id = ground (arith, hit) in
          let none_owner : links_owner team.roles l ≡ false =
            rw e (other_role r.id r team.roles u found other) in
          ground (arith, none_owner)))
      refl

pub revoke_role_of-cases :
    (context : TenantContext) (key : RoleKey) (m : Membership) (r : Role) (team : Team)
    → (team_after team (revoke_role_of context key m r team) ≡ team)
      ⊎ (((is_owner_key key && is_last_owner context.organization_id team) ≡ false)
          × ((team_after team (revoke_role_of context key m r team)).memberships ≡ team.memberships)
          × ((team_after team (revoke_role_of context key m r team)).roles ≡ team.roles)
          × ((team_after team (revoke_role_of context key m r team)).role_links
              ≡ kept_links m r team))
unfolding revoke_role_of
revoke_role_of-cases context key m r team = ground arith
