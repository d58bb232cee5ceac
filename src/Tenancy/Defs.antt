-- ===== src/Tenancy/Defs.antt =====
-- Definitions of src/modules/tenancy/policy.ts. An identifier is a UUID that is only compared, so it
-- is a number here.
use shop_os.Common.{ℕ, Bool, false, not, ◌&&◌, Option, none, some, List, ◌==◌, has, ℕ_discrete}
use shop_os.Result.{
  Result, ok, ◌>>◌, throw_if, access_denied, permission_denied, organization_denied,
  location_denied,
}

pub data Permission : Type 0 where
  organizations_manage memberships_manage customers_read customers_write : Permission
  assets_read assets_write work_orders_read work_orders_write : Permission
  estimates_present authorizations_record invoices_issue payments_record : Permission

unfoldable pub Permission-discrete : Discrete Permission
Permission-discrete = hlevel

pub record TenantContext : Type 0 where
  pub actor_id : ℕ
  pub organization_id : ℕ
  pub membership_id : ℕ
  pub request_id : ℕ
  pub selected_location_id : Option ℕ
  pub organization_wide_location_access : Bool
  pub allowed_location_ids : List ℕ
  pub permissions : List Permission

pub record TenantOwnedResource : Type 0 where
  pub organization_id : ℕ
  pub location_id : Option ℕ

-- `permissions.has(permission)`
abbrev pub has_permission : Permission → List Permission → Bool
has_permission = has Permission-discrete

-- `allowedLocationIds.has(locationId)`
abbrev pub has_id : ℕ → List ℕ → Bool
has_id = has ℕ_discrete

-- `selected && location !== selected`
abbrev pub selects_other : Option ℕ → ℕ → Bool
selects_other none location = false
selects_other (some selected) location = not (location == selected)

-- the checks of `assertTenantAccess` on the location of a resource that has one
unfoldable pub assert_location : TenantContext → Option ℕ → Result (Unit {0})
assert_location context none = ok tt
assert_location context (some location) = do
  throw_if (selects_other context.selected_location_id location) (access_denied location_denied)
  throw_if
      (not context.organization_wide_location_access
        && not (has_id location context.allowed_location_ids))
      (access_denied location_denied)

unfoldable pub assert_tenant_access :
    TenantContext → TenantOwnedResource → Permission → Result (Unit {0})
assert_tenant_access context resource permission = do
  throw_if (not (has_permission permission context.permissions)) (access_denied permission_denied)
  throw_if (not (resource.organization_id == context.organization_id))
      (access_denied organization_denied)
  assert_location context resource.location_id

-- The resource of most calls: the organization of the context itself.
abbrev pub own_organization : TenantContext → TenantOwnedResource
own_organization context = record { organization_id = context.organization_id; location_id = none }

unfoldable pub assert_location_can_be_selected : TenantContext → ℕ → Result (Unit {0})
assert_location_can_be_selected context location =
    throw_if
      (not context.organization_wide_location_access
        && not (has_id location context.allowed_location_ids))
      (access_denied location_denied)
