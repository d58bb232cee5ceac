-- ===== src/CashDrawer.antt =====
-- The cash drawer, src/modules/billing/cash-drawer-service.ts.
mod Service
pub mod Totals
pub mod Exclusive
mod Closing
mod Tests
unfoldable pub use Service.*
