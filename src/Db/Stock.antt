-- ===== src/Db/Stock.antt =====
-- The rows of the stock tables of prisma/schema.prisma. An `Int` column holds a signed integer of 32
-- bits; free-text notes are left out.
use shop_os.Common.{ℕ, Bool, Option, ℤ}
use shop_os.Db.Rows.{Text}

-- the columns that describe an item and that no stock operation reads
pub record ItemDetails : Type 0 where
  pub oe_number : Option Text
  pub brand : Option Text
  pub category_id : Option ℕ
  pub uom_group : Option Text
  pub unit_of_measure : Option Text
  pub uom_factor_milli : Option ℤ
  pub condition : Option Text  -- missing: the column's default, "new"
  pub has_core : Bool
  pub core_value_minor : Option ℤ
  pub consumable : Bool
  pub non_saleable : Bool
  pub bin_location : Option Text

pub record InventoryItem : Type 0 where
  pub id : ℕ
  pub organization_id : ℕ
  pub location_id : Option ℕ
  pub part_number : Text
  pub name : Text
  pub quantity_on_hand : ℤ
  pub reorder_point : ℤ
  pub unit_cost_minor : ℤ
  pub currency : Text
  pub details : ItemDetails

pub data StockMovementReason : Type 0 where
  received issued_to_job manual_adjustment returned_to_stock : StockMovementReason

pub record InventoryMovement : Type 0 where
  pub organization_id : ℕ
  pub inventory_item_id : ℕ
  pub delta : ℤ
  pub reason : StockMovementReason
  pub location_id : Option ℕ
  pub work_order_id : Option ℕ
  pub part_order_line_id : Option ℕ
  pub invoice_line : Option (ℕ × ℕ)  -- the invoice and the position of the line
  pub created_by_id : Option ℕ
