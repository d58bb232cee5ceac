-- ===== src/Machines.antt =====
-- State machines: the shared form of a transition table, and the tables of service calls and of
-- transport jobs. The table of work orders stands with their service, in WorkOrders.
pub mod Runs
pub mod ServiceCall
pub mod Transport
mod Tests
