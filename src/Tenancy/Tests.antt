-- ===== src/Tenancy/Tests.antt =====
-- Witnesses of the access theorems.
use shop_os.Samples.{clerk}
use shop_os.Tenancy.{TenantOwnedResource, assert_tenant_access, own_organization, payments_record}
use shop_os.Common.{none, ◌≡◌, ◌↔◌, ◌⊎◌, arith}
use shop_os.Result.{err, ok, access_denied, permission_denied, organization_denied}
use shop_os.Tenancy.Access.{Allowed, assert_tenant_access_iff, assert_tenant_access_foreign}

abbrev foreign_row : TenantOwnedResource
foreign_row = record { organization_id = 2; location_id = none }

assert_tenant_access_iff_example :
    (assert_tenant_access clerk (own_organization clerk) payments_record ≡ ok tt)
    ↔ Allowed clerk (own_organization clerk) payments_record
assert_tenant_access_iff_example =
    assert_tenant_access_iff clerk (own_organization clerk) payments_record

assert_tenant_access_foreign_example :
    (assert_tenant_access clerk foreign_row payments_record ≡ err (access_denied permission_denied))
    ⊎ (assert_tenant_access clerk foreign_row payments_record
        ≡ err (access_denied organization_denied))
assert_tenant_access_foreign_example =
    assert_tenant_access_foreign clerk foreign_row payments_record (λ e. omega arith)
