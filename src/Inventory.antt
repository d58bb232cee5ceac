-- ===== src/Inventory.antt =====
-- The stock of src/modules/inventory/inventory-service.ts: items, movements, reservations, and what an
-- invoice takes from the shelf.
mod Items
mod Receipts
mod Holds
mod Consume
unfoldable pub use Items.*
unfoldable pub use Receipts.*
unfoldable pub use Holds.*
unfoldable pub use Consume.*
