-- ===== src/Memberships.antt =====
-- Members of an organization and their roles, src/modules/memberships: the policy of roles (Roles),
-- the calls that change them (Service), and what is said of its owners (Owners, Sequences).
mod Roles
mod Service
mod Counts
mod Revoking
mod Owners
pub mod Sequences
mod Tests
unfoldable pub use Roles.*
unfoldable pub use Service.*
