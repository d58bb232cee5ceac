-- ===== src/Inventory/Items.antt =====
-- Items and their movements: `recordStockMovement`, `createItem`, `adjustStock`, `receiveIntoStock`,
-- `issueStock`.
use mathlib.Core.Option
use shop_os.Common.{
  [], ◌∷◌, Number, ℕ, ℤ, Bool, pos, int, true, ◌-ℤ◌, ◌==◌, find_first, ltb_ℤ, not, update_where,
  ◌&&◌, ◌++◌, is_safe_integer, negsuc, ◌||◌, leb_ℤ, magnitude, if◌then◌else◌, ◌+ℤ◌, other,
}
use shop_os.Db.{
  ◌>>◌, ◌>>=◌, InventoryMovement, Action, InventoryItem, StockMovementReason, WorkOrder, demand,
  modify, pure, query, reject_if, issued_to_job, or_throw, transaction, returned_to_stock,
  manual_adjustment,
}
use mathlib.Core.Option.{Option, none, some}
use shop_os.Tenancy.{TenantContext, assert_tenant_access, own_organization, work_orders_write}
use shop_os.WorkOrders.Service.{owned_work_order}
use shop_os.Result.{
  inventory_failed, column_overflow, invalid_quantity, item_not_found, insufficient_stock,
}

-- An `Int` column holds 32 bits with a sign, and the database refuses another value.
unfoldable pub store_int : ℤ → Action (Unit {0})
store_int z =
    reject_if (ltb_ℤ z (negsuc 2_147_483_647) || ltb_ℤ (pos 2_147_483_647) z) column_overflow

-- the row that `recordStockMovement` creates
abbrev pub movement_row :
    TenantContext
    → (item_id : ℕ) → ℤ
    → StockMovementReason
    → (location_id work_order_id : Option ℕ) → (invoice_line : Option (ℕ × ℕ)) → InventoryMovement
movement_row context item delta reason location wo line = record {
  organization_id = context.organization_id;
  inventory_item_id = item;
  delta = delta;
  reason = reason;
  location_id = location;
  work_order_id = wo;
  part_order_line_id = none;
  invoice_line = line;
  created_by_id = some context.actor_id;
}

unfoldable pub record_stock_movement : InventoryMovement → Action (Unit {0})
record_stock_movement m = do
  store_int m.delta
  modify (λ db. record db { inventory_movements = db.inventory_movements ++ (m ∷ []) })

-- `where: { id, organizationId }`
abbrev pub owned_item : (organization_id item_id : ℕ) → InventoryItem → Bool
owned_item org item i = i.id == item && i.organization_id == org

-- the columns that a change of the stock writes
abbrev pub with_stock : ℤ → InventoryItem → InventoryItem
with_stock quantity i = record i { quantity_on_hand = quantity }

-- `inventoryItem.update` by id
unfoldable pub update_item : (item_id : ℕ) → ℤ → (InventoryItem → InventoryItem) → Action (Unit {0})
update_item item quantity f = do
  store_int quantity
  modify (λ db. record db {
    inventory_items =
        update_where (λ i. i.id == item) (λ i. with_stock quantity (f i)) db.inventory_items;
  })

-- The steps that adjusting, issuing and issuing from a hold share: the item is read, a result below
-- zero is refused, the quantity is written, and the movement is recorded beside it.
unfoldable pub shift_stock : TenantContext → (item_id : ℕ) → ℤ → InventoryMovement → Action ℤ
shift_stock context item delta movement = do
  found ← query (λ db. find_first (owned_item context.organization_id item) db.inventory_items)
  i ← or_throw found (inventory_failed item_not_found)
  let next = i.quantity_on_hand +ℤ delta
  reject_if (ltb_ℤ next (pos 0)) (inventory_failed insufficient_stock)
  update_item i.id next (λ x. x)
  record_stock_movement (record movement { inventory_item_id = i.id; delta = delta })
  pure next

-- `!Number.isSafeInteger(quantity) || quantity < 1`
abbrev pub is_bad_quantity : Number → Bool
is_bad_quantity other = true
is_bad_quantity (int z) = not (is_safe_integer (int z)) || leb_ℤ z (pos 0)

-- `!Number.isSafeInteger(quantity) || quantity < 0`
abbrev pub is_bad_count : Number → Bool
is_bad_count other = true
is_bad_count (int z) = not (is_safe_integer (int z)) || ltb_ℤ z (pos 0)

-- `!Number.isSafeInteger(delta) || delta === 0`
abbrev pub is_bad_delta : Number → Bool
is_bad_delta other = true
is_bad_delta (int z) = not (is_safe_integer (int z)) || magnitude z == 0

abbrev pub integer_of : Number → ℤ
integer_of other = pos 0
integer_of (int z) = z

unfoldable pub adjust_stock : TenantContext → (item_id : ℕ) → (delta : Number) → Action ℤ
adjust_stock context item delta = do
  demand (assert_tenant_access context (own_organization context) work_orders_write)
  reject_if (is_bad_delta delta) (inventory_failed invalid_quantity)
  let reason = if ltb_ℤ (pos 0) (integer_of delta) then returned_to_stock else manual_adjustment
  transaction (
      shift_stock context item (integer_of delta)
        (movement_row context item (integer_of delta) reason none none none))

-- the work order that a movement hangs off, in this tenant
unfoldable pub find_job : TenantContext → (work_order_id : Option ℕ) → Action (Option WorkOrder)
find_job context none = pure none
find_job context (some wo) = do
  found ← query (λ db. find_first (owned_work_order context.organization_id wo) db.work_orders)
  w ← or_throw found (inventory_failed item_not_found)
  pure (some w)

abbrev pub job_id : Option WorkOrder → Option ℕ
job_id = Option.map (λ w. w.id)

abbrev pub job_location : Option WorkOrder → Option ℕ
job_location = Option.map (λ w. w.location_id)

-- the transaction of `issueStock`
unfoldable pub issue_stock_body :
    TenantContext → (item_id : ℕ) → ℤ → (work_order_id : Option ℕ) → Action ℤ
issue_stock_body context item quantity wo = do
  job ← find_job context wo
  let delta = pos 0 -ℤ quantity
  shift_stock context item delta
      (movement_row context item delta issued_to_job (job_location job) (job_id job) none)

unfoldable pub issue_stock :
    TenantContext → (item_id : ℕ) → (quantity : Number) → (work_order_id : Option ℕ) → Action ℤ
issue_stock context item quantity wo = do
  demand (assert_tenant_access context (own_organization context) work_orders_write)
  reject_if (is_bad_quantity quantity) (inventory_failed invalid_quantity)
  transaction (issue_stock_body context item (integer_of quantity) wo)
