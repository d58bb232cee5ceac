-- ===== src/Invoices.antt =====
-- Invoices, src/modules/invoices/invoice-service.ts: the number of an invoice, its snapshot from the
-- authorized work, issuing it, and the payments against it.
mod Numbering
mod Create
mod Issue
mod Payments
mod Stock
pub mod Series
mod Tests
unfoldable pub use Numbering.*
unfoldable pub use Create.*
unfoldable pub use Issue.*
unfoldable pub use Stock.*
unfoldable pub use Payments.*
