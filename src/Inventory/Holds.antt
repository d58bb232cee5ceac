-- ===== src/Inventory/Holds.antt =====
-- Reservations: `reserveStock`, `releaseReservation`, `issueReservationsForWorkOrder`,
-- `itemAvailability`.
use shop_os.Common.{
  [], ◌∷◌, List, ℕ, ℤ, Bool, Number, Option, false, filter, pos, update_where, ◌==◌, find_first,
  some, ◌&&◌, ◌+ℤ◌, ◌-ℤ◌, none, not, ◌||◌, any, if◌then◌else◌, length, ltb_ℤ, ◌++◌,
}
use shop_os.Db.{
  ◌>>◌, ◌>>=◌, Action, Db, Reservation, WorkOrder, active, consumed, demand, pure, query, or_throw,
  issued_to_job, modify, reject_if, transaction,
}
use shop_os.Result.{
  WorkOrderStatus, cancelled, closed, inventory_failed, InventoryReason, item_not_found,
  invalid_quantity, line_not_found, work_order_not_open, insufficient_stock,
}
use shop_os.Tenancy.{
  TenantContext, assert_tenant_access, own_organization, work_orders_read, work_orders_write,
}
use shop_os.WorkOrders.Service.{is_status, is_active, owned_work_order, release_active}
use shop_os.Inventory.Items.{
  owned_item, shift_stock, movement_row, is_bad_quantity, integer_of, store_int,
}

-- an active reservation of an item
abbrev pub holds_item : (organization_id item_id : ℕ) → Reservation → Bool
holds_item org item r =
    r.organization_id == org && r.inventory_item_id == item && is_active r.status

-- the sum of a column over rows
unfoldable pub sum_quantities : List Reservation → ℤ
sum_quantities [] = pos 0
sum_quantities (r ∷ rs) = r.quantity +ℤ sum_quantities rs

unfoldable pub sum_active_reservations : (organization_id item_id : ℕ) → Db → ℤ
sum_active_reservations org item db = sum_quantities (filter (holds_item org item) db.reservations)

-- `status === "CANCELLED" || status === "CLOSED"`
abbrev pub is_over : WorkOrderStatus → Bool
is_over s = is_status s cancelled || is_status s closed

abbrev pub reservation_row :
    TenantContext
    → (reservation_id item_id work_order_id : ℕ) → (estimate_line_id : Option ℕ) → ℤ
    → Reservation
reservation_row context reservation item wo line quantity = record {
  id = reservation;
  organization_id = context.organization_id;
  inventory_item_id = item;
  work_order_id = wo;
  estimate_line_id = line;
  quantity = quantity;
  status = active;
  created_by_id = some context.actor_id;
  released_at = none;
  consumed_at = none;
}

-- the estimate line of the input is not there
abbrev pub misses_line : (organization_id : ℕ) → Option ℕ → Db → Bool
misses_line org none db = false
misses_line org (some line) db =
    not (any (λ l. l.id == line && l.organization_id == org) db.estimate_lines)

-- the transaction of `reserveStock`
unfoldable pub reserve_body :
    TenantContext
    → (reservation_id item_id work_order_id : ℕ) → ℤ
    → (estimate_line_id : Option ℕ) → Action ℤ
reserve_body context reservation item wo quantity line = do
  found ← query (λ db. find_first (owned_item context.organization_id item) db.inventory_items)
  i ← or_throw found (inventory_failed item_not_found)
  job ← query (λ db. find_first (owned_work_order context.organization_id wo) db.work_orders)
  w ← or_throw job (inventory_failed InventoryReason.work_order_not_found)
  missing ← query (misses_line context.organization_id line)
  reject_if missing (inventory_failed line_not_found)
  reject_if (is_over w.status) (inventory_failed work_order_not_open)
  reserved ← query (sum_active_reservations context.organization_id i.id)
  let left = i.quantity_on_hand -ℤ reserved -ℤ quantity
  reject_if (ltb_ℤ left (pos 0)) (inventory_failed insufficient_stock)
  store_int quantity
  modify (λ db. record db {
    reservations =
        db.reservations ++ (reservation_row context reservation i.id w.id line quantity ∷ []);
  })
  pure left

unfoldable pub reserve_stock :
    TenantContext
    → (reservation_id item_id work_order_id : ℕ) → (quantity : Number)
    → (estimate_line_id : Option ℕ) → Action ℤ
reserve_stock context reservation item wo quantity line = do
  demand (assert_tenant_access context (own_organization context) work_orders_write)
  reject_if (is_bad_quantity quantity) (inventory_failed invalid_quantity)
  transaction (reserve_body context reservation item wo (integer_of quantity) line)

-- Whether a reservation was released.
unfoldable pub release_reservation : TenantContext → (now reservation_id : ℕ) → Action Bool
release_reservation context now reservation = do
  demand (assert_tenant_access context (own_organization context) work_orders_write)
  there ← query (λ db.
      any
        (λ r.
          r.organization_id == context.organization_id && is_active r.status && r.id == reservation)
        db.reservations)
  modify (release_active context.organization_id (λ r. r.id == reservation) now)
  pure there

-- `inventoryReservation.update` by id
abbrev pub update_reservation : (reservation_id : ℕ) → (Reservation → Reservation) → Db → Db
update_reservation reservation f db = record db {
  reservations = update_where (λ r. r.id == reservation) f db.reservations;
}

abbrev pub as_consumed : ℕ → Reservation → Reservation
as_consumed now r = record r { status = consumed; consumed_at = some now }

-- one round of the loop over the reservations of a work order
unfoldable pub issue_hold : TenantContext → (now : ℕ) → WorkOrder → Reservation → Action (Unit {0})
issue_hold context now w r = do
  let delta = pos 0 -ℤ r.quantity
  shift_stock context r.inventory_item_id delta (
      movement_row context r.inventory_item_id delta issued_to_job (some w.location_id) (some w.id)
        none)
  modify (update_reservation r.id (as_consumed now))

unfoldable pub issue_holds :
    TenantContext → (now : ℕ) → WorkOrder → List Reservation → Action (Unit {0})
issue_holds context now w [] = pure tt
issue_holds context now w (r ∷ rs) = do issue_hold context now w r; issue_holds context now w rs

-- an active reservation of a work order
abbrev pub holds_for : (organization_id work_order_id : ℕ) → Reservation → Bool
holds_for org wo r = r.organization_id == org && r.work_order_id == wo && is_active r.status

-- the transaction of `issueReservationsForWorkOrder`
unfoldable pub issue_all_body : TenantContext → (now work_order_id : ℕ) → Action ℕ
issue_all_body context now wo = do
  job ← query (λ db. find_first (owned_work_order context.organization_id wo) db.work_orders)
  w ← or_throw job (inventory_failed InventoryReason.work_order_not_found)
  rs ← query (λ db. filter (holds_for context.organization_id w.id) db.reservations)
  issue_holds context now w rs
  pure (length rs)

unfoldable pub issue_reservations_for_work_order :
    TenantContext → (now work_order_id : ℕ) → Action ℕ
issue_reservations_for_work_order context now wo = do
  demand (assert_tenant_access context (own_organization context) work_orders_write)
  transaction (issue_all_body context now wo)

pub record ItemAvailability : Type 0 where
  pub on_hand : ℤ
  pub reserved : ℤ
  pub available : ℤ

unfoldable pub item_availability : TenantContext → (item_id : ℕ) → Action ItemAvailability
item_availability context item = do
  demand (assert_tenant_access context (own_organization context) work_orders_read)
  found ← query (λ db. find_first (owned_item context.organization_id item) db.inventory_items)
  i ← or_throw found (inventory_failed item_not_found)
  reserved ← query (sum_active_reservations context.organization_id item)
  let left = i.quantity_on_hand -ℤ reserved
  pure (record {
    on_hand = i.quantity_on_hand;
    reserved = reserved;
    available = if ltb_ℤ left (pos 0) then pos 0 else left;
  })
