-- ===== src/Money.antt =====
-- The money kernel, src/modules/shared/money.ts: rounding of ratios, the price of a line, the totals
-- of an estimate. Amounts are whole minor units; a `number` stays exact because every result is
-- checked to be a safe integer, and a `bigint` is unbounded.
mod Defs
pub mod Rounding
pub mod Line
pub mod Totals
mod Tests
unfoldable pub use Defs.*
