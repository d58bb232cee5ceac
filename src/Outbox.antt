-- ===== src/Outbox.antt =====
-- The transactional outbox, src/modules/outbox: the queue of events, the claim of a batch, and the
-- dispatch of each row.
mod Queue
mod Dispatch
mod Order
mod Endings
mod Progress
pub mod Drains
pub mod Liveness
pub mod Summary
pub mod Claims
mod Tests
unfoldable pub use Queue.*
unfoldable pub use Dispatch.*
