-- ===== src/Stock.antt =====
-- What the calls of src/modules/inventory/inventory-service.ts keep: the shelf of items, their
-- movements and their reservations.
mod Accounts
mod Shift
mod Receive
mod Calls
mod Holds
mod Settled
pub mod Consumed
pub mod Consuming
pub mod Issuing
pub mod Reserving
pub mod Sequences
mod Tests
pub use Accounts.*
