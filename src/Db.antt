-- ===== src/Db.antt =====
-- The rows of prisma/schema.prisma that the modelled services read and write, a database as a record
-- of tables, and calls that read it, change it, or throw.
mod Rows
mod Stock
mod Tables
mod Calls
pub mod Keyed
pub mod Keeps
pub use Rows.*
pub use Stock.*
pub use Tables.*
unfoldable pub use Calls.*
