-- ===== src/WorkOrders.antt =====
-- Work orders: the state machine of src/modules/work-orders/work-order-state-machine.ts and the
-- transitions of src/modules/work-orders/work-order-service.ts.
pub mod Machine
pub mod Lifecycle
pub mod Service
pub mod Quality
pub mod Checked
pub mod Transition
pub mod Rewriting
pub mod Refusals
pub mod Histories
mod Tests
