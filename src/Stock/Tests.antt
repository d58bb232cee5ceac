-- ===== src/Stock/Tests.antt =====
-- Witnesses of the theorems on the stock, and runs of what an invoice takes.
use shop_os.Common.{
  refl, [], ◌∷◌, pos, int, none, ◌≡◌, ◌+ℤ◌, ◌-ℤ◌, arith, negsuc, find_first, some, ℕ, ◌≤ℤ◌, map,
}
use shop_os.Samples.{clerk, stock_room, billed_room}
use shop_os.Db.{Db, InventoryItem}
use shop_os.Result.{ok}
use shop_os.WorkOrders.Machine.{WorkOrderStatus-discrete}
use shop_os.Tenancy.{
  assert_location, assert_tenant_access, Permission-discrete, own_organization, invoices_issue,
}
use shop_os.Inventory.{
  reserve_stock, adjust_stock, auto_consume_stock_for_invoice, issue_reservations_for_work_order,
  reserve_body, consume_lines, issue_all_body, store_int, consume_linked, issue_holds, owned_item,
  sum_active_reservations, consume_line, issue_hold, sum_quantities, shift_stock, take_line,
  take_holds, update_item, record_stock_movement,
}
use shop_os.Stock.Accounts.{IsShelf, Accounts}
use shop_os.Stock.Sequences.{StockCalls, StockCalls-Accounts, then, stock_adjusted, holds_issued}
use shop_os.Stock.Reserving.{reserve_stock-fits}
use shop_os.Stock.Issuing.{issue_reservations-Settles, Settles}
use shop_os.Stock.Consuming.{auto_consume-Consumes, Consumes}
use shop_os.Stock.Consumed.{OnePerLine}

stock_room-IsShelf : IsShelf (stock_room 5)
stock_room-IsShelf = ((refl, tt), ((ground arith, ground arith), tt))

abbrev returned : Db
returned = (adjust_stock clerk 3 (int (pos 4)) (stock_room 5)).1

abbrev issued_after : Db
issued_after = (issue_reservations_for_work_order clerk 30 5 returned).1

two-StockCalls : StockCalls (stock_room 5) issued_after
two-StockCalls =
    then (stock_adjusted clerk 3 (int (pos 4)) (stock_room 5))
      (then (holds_issued clerk 30 5 returned) StockCalls.done)

StockCalls-Accounts_example : Accounts (stock_room 5) issued_after × IsShelf issued_after
StockCalls-Accounts_example = StockCalls-Accounts two-StockCalls stock_room-IsShelf

abbrev fully_reserved : Db
fully_reserved = (reserve_stock clerk 10 3 5 (int (pos 3)) none (stock_room 5)).1

fully_reserved_at :
    reserve_stock clerk 10 3 5 (int (pos 3)) none (stock_room 5) ≡ (ok (pos 0), fully_reserved)
unfolding assert_location WorkOrderStatus-discrete reserve_stock reserve_body store_int
    sum_active_reservations sum_quantities assert_tenant_access Permission-discrete ◌+ℤ◌ ◌-ℤ◌
fully_reserved_at = refl

reserve_stock-fits_example :
    (i : InventoryItem) × (find_first (owned_item 1 3) fully_reserved.inventory_items ≡ some i)
    × (sum_active_reservations 1 3 fully_reserved
        ≡ sum_active_reservations 1 3 (stock_room 5) +ℤ pos 3)
    × (sum_active_reservations 1 3 fully_reserved ≤ℤ i.quantity_on_hand)
    × (pos 0 ≡ i.quantity_on_hand -ℤ sum_active_reservations 1 3 fully_reserved)
reserve_stock-fits_example =
    reserve_stock-fits clerk 10 3 5 (int (pos 3)) none (stock_room 5) fully_reserved (pos 0)
      fully_reserved_at

abbrev handed_out : Db
handed_out = (issue_reservations_for_work_order clerk 30 5 (stock_room 5)).1

handed_out_at : issue_reservations_for_work_order clerk 30 5 (stock_room 5) ≡ (ok 1, handed_out)
unfolding assert_location issue_reservations_for_work_order issue_all_body issue_holds issue_hold
    shift_stock update_item record_stock_movement store_int assert_tenant_access Permission-discrete
    ◌+ℤ◌ ◌-ℤ◌
handed_out_at = refl

issue_reservations-Settles_example : Settles clerk 5 (stock_room 5) handed_out 1
issue_reservations-Settles_example =
    issue_reservations-Settles clerk 30 5 (stock_room 5) handed_out 1 stock_room-IsShelf
      handed_out_at

billed_room-OnePerLine : OnePerLine (billed_room 5)
billed_room-OnePerLine org line = ground arith

auto_consume-Consumes_example :
    Consumes (billed_room 5) (auto_consume_stock_for_invoice clerk 30 7 (billed_room 5)).1
    × (assert_tenant_access clerk (own_organization clerk) invoices_issue ≡ ok tt
        → (total : ℕ × ℕ) × ((auto_consume_stock_for_invoice clerk 30 7 (billed_room 5)).0
            ≡ ok total))
auto_consume-Consumes_example =
    auto_consume-Consumes clerk 30 7 (billed_room 5) stock_room-IsShelf billed_room-OnePerLine

-- Three are billed where one is on the shelf, and the job holds two: one leaves the shelf, and the
-- movement says three.
abbrev short_count : Db
short_count = (auto_consume_stock_for_invoice clerk 30 7 (billed_room 1)).1

short_count_drifts :
    (map (λ i. i.quantity_on_hand) short_count.inventory_items ≡ pos 0 ∷ [])
    × (map (λ m. m.delta) short_count.inventory_movements ≡ negsuc 2 ∷ [])
unfolding assert_location auto_consume_stock_for_invoice consume_lines consume_linked consume_line
    take_line take_holds update_item record_stock_movement store_int sum_quantities
    assert_tenant_access Permission-discrete ◌+ℤ◌ ◌-ℤ◌
short_count_drifts = (refl, refl)
