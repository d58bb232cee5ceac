-- ===== src/Ledger.antt =====
-- The ledger of the invoices: what the payments, the refunds and the deposits promise together.
pub mod Invariant
pub mod Frame
pub mod Payment
pub mod Refund
pub mod Refunding
pub mod Covered
mod Stock
mod Tests
pub mod Tenders
pub mod Deposit
pub mod Issue
pub mod Create
pub mod Calls
