-- ===== src/Tenancy.antt =====
-- Tenant policy, src/modules/tenancy/policy.ts: who may touch which row.
mod Defs
mod Tests
pub mod Access
unfoldable pub use Defs.*
