-- ===== src/Memberships/Roles.antt =====
-- The built-in roles and what they may do: built-in-role-templates.ts and role-policy.ts, on the tables
-- of members and roles.
use shop_os.Common.{
  ℕ, Bool, true, false, ◌&&◌, ◌||◌, List, [], ◌∷◌, any, all, count_where, ◌==◌, ltb,
}
use shop_os.Common.Text.{same_text}
use shop_os.Db.{Text}
use shop_os.Tenancy.{
  Permission, has_permission, customers_read, memberships_manage, organizations_manage, assets_read,
  customers_write, assets_write, work_orders_read, work_orders_write, estimates_present,
  authorizations_record, invoices_issue, payments_record,
}

pub data RoleKey : Type 0 where
  owner manager advisor technician parts administrator : RoleKey

abbrev pub all_tenant_permissions : List Permission
all_tenant_permissions =
    organizations_manage ∷ memberships_manage ∷ customers_read ∷ customers_write ∷ assets_read
    ∷ assets_write ∷ work_orders_read ∷ work_orders_write ∷ estimates_present
    ∷ authorizations_record ∷ invoices_issue ∷ payments_record ∷ []

-- the desk's permissions, which managers share
abbrev pub advisor_permissions : List Permission
advisor_permissions =
    customers_read ∷ customers_write ∷ assets_read ∷ assets_write ∷ work_orders_read
    ∷ work_orders_write ∷ estimates_present ∷ authorizations_record ∷ invoices_issue
    ∷ payments_record ∷ []

abbrev pub shop_permissions : List Permission
shop_permissions = customers_read ∷ assets_read ∷ work_orders_read ∷ work_orders_write ∷ []

abbrev pub template_permissions : RoleKey → List Permission
template_permissions owner = all_tenant_permissions
template_permissions manager = memberships_manage ∷ advisor_permissions
template_permissions advisor = advisor_permissions
template_permissions technician = shop_permissions
template_permissions parts = shop_permissions
template_permissions administrator = all_tenant_permissions

-- the check of `assertRoleGrantable`
unfoldable pub is_role_grantable : RoleKey → List Permission → Bool
is_role_grantable key granted = all (λ p. has_permission p granted) (template_permissions key)

abbrev pub is_owner_key : RoleKey → Bool
is_owner_key owner = true
is_owner_key _ = false

abbrev pub same_key : RoleKey → RoleKey → Bool
same_key owner owner = true
same_key manager manager = true
same_key advisor advisor = true
same_key technician technician = true
same_key parts parts = true
same_key administrator administrator = true
same_key _ _ = false

pub record Membership : Type 0 where
  pub id : ℕ
  pub organization_id : ℕ
  pub user_id : ℕ
  pub auth_role : Text
  pub is_active : Bool

pub record Role : Type 0 where
  pub id : ℕ
  pub organization_id : ℕ
  pub key : RoleKey

pub record RoleLink : Type 0 where
  pub organization_id : ℕ
  pub membership_id : ℕ
  pub role_id : ℕ

pub data TeamEvent : Type 0 where
  role_assigned role_revoked : RoleKey → TeamEvent
  deactivated reactivated : TeamEvent

-- a row of the audit log, and the message that goes to the outbox beside it
pub record TeamRecord : Type 0 where
  pub organization_id : ℕ
  pub actor_user_id : ℕ
  pub request_id : ℕ
  pub membership_id : ℕ
  pub event : TeamEvent

pub record Team : Type 0 where
  pub memberships : List Membership
  pub roles : List Role
  pub role_links : List RoleLink
  pub log : List TeamRecord

-- "owner"
abbrev pub owner_word : Text
owner_word = 111 ∷ 119 ∷ 110 ∷ 101 ∷ 114 ∷ []

-- a link to a role whose key is owner
abbrev pub links_owner : List Role → RoleLink → Bool
links_owner roles l = any (λ r. r.id == l.role_id && is_owner_key r.key) roles

unfoldable pub is_owner_membership : List Role → List RoleLink → Membership → Bool
is_owner_membership roles links m =
    same_text m.auth_role owner_word
    || any (λ l. l.membership_id == m.id && links_owner roles l) links

abbrev pub is_active_owner : (organization_id : ℕ) → List Role → List RoleLink → Membership → Bool
is_active_owner org roles links m =
    (m.organization_id == org && m.is_active) && is_owner_membership roles links m

unfoldable pub count_active_owners : (organization_id : ℕ) → Team → ℕ
count_active_owners org team =
    count_where (is_active_owner org team.roles team.role_links) team.memberships

-- `ownerCount - 1 < 1`
unfoldable pub is_last_owner : (organization_id : ℕ) → Team → Bool
is_last_owner org team = ltb (count_active_owners org team) 2
