-- ===== src/Billing.antt =====
-- Money that goes back and money taken in advance: src/modules/billing/refund-service.ts and
-- src/modules/billing/deposit-service.ts.
mod Refunds
mod Deposits
unfoldable pub use Refunds.*
unfoldable pub use Deposits.*
