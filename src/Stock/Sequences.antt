-- ===== src/Stock/Sequences.antt =====
-- Any sequence of the calls on the stock.
use shop_os.Common.{ℕ, Option, Number}
use shop_os.Db.{Db}
use shop_os.Stock.Accounts.{Accounts, IsShelf, Accounts-refl}
use shop_os.Stock.Calls.{
  Kept, adjust_stock-Kept, create_item-Kept, receive_into_stock-Kept, issue_stock-Kept,
}
use shop_os.Stock.Holds.{reserve_stock-Kept, release_reservation-Kept, issue_reservations-Kept}
use shop_os.Inventory.{
  reserve_stock, CreateItemInput, create_item, adjust_stock, ReceiveInput, receive_into_stock,
  issue_stock, release_reservation, issue_reservations_for_work_order,
}
use shop_os.Tenancy.{TenantContext}

-- One call of the inventory service, however it ends.
pub data StockCall : Db → Db → Type 0 where
  item_created :
      (context : TenantContext) (item : ℕ) (input : CreateItemInput) (db : Db)
      → StockCall db (create_item context item input db).1
  stock_adjusted :
      (context : TenantContext) (item : ℕ) (delta : Number) (db : Db)
      → StockCall db (adjust_stock context item delta db).1
  stock_received :
      (context : TenantContext) (item : ℕ) (input : ReceiveInput) (db : Db)
      → StockCall db (receive_into_stock context item input db).1
  stock_issued :
      (context : TenantContext) (item : ℕ) (quantity : Number) (wo : Option ℕ) (db : Db)
      → StockCall db (issue_stock context item quantity wo db).1
  stock_reserved :
      (context : TenantContext) (reservation item wo : ℕ) (quantity : Number) (line : Option ℕ)
      (db : Db)
      → StockCall db (reserve_stock context reservation item wo quantity line db).1
  hold_released :
      (context : TenantContext) (now reservation : ℕ) (db : Db)
      → StockCall db (release_reservation context now reservation db).1
  holds_issued :
      (context : TenantContext) (now wo : ℕ) (db : Db)
      → StockCall db (issue_reservations_for_work_order context now wo db).1

pub data StockCalls : Db → Db → Type 0 where
  done : {db : Db} → StockCalls db db
  then : {db mid db' : Db} → StockCall db mid → StockCalls mid db' → StockCalls db db'

StockCall-Kept : (first : Db) {db db' : Db} → StockCall db db' → Kept first db → Kept first db'
StockCall-Kept first (item_created context item input db) k =
    create_item-Kept context first item input db k
StockCall-Kept first (stock_adjusted context item delta db) k =
    adjust_stock-Kept context first item delta db k
StockCall-Kept first (stock_received context item input db) k =
    receive_into_stock-Kept context first item input db k
StockCall-Kept first (stock_issued context item quantity wo db) k =
    issue_stock-Kept context first item quantity wo db k
StockCall-Kept first (stock_reserved context reservation item wo quantity line db) k =
    reserve_stock-Kept context first reservation item wo quantity line db k
StockCall-Kept first (hold_released context now reservation db) k =
    release_reservation-Kept context first now reservation db k
StockCall-Kept first (holds_issued context now wo db) k =
    issue_reservations-Kept context first now wo db k

-- If the items of a database have different ids and quantities from 0 to 2^31 - 1, then after
-- any sequence of calls of createItem, adjustStock, receiveIntoStock, issueStock, reserveStock,
-- releaseReservation and issueReservationsForWorkOrder, by any callers and however each call
-- ends, every item is still there, its quantity on hand has changed by exactly the sum of the
-- movements recorded for it since, the items have different ids, and all quantities are again
-- from 0 to 2^31 - 1.
pub StockCalls-Accounts :
    {db db' : Db} → StockCalls db db' → IsShelf db → Accounts db db' × IsShelf db'
StockCalls-Accounts {db} {db'} calls s = go db calls (Accounts-refl db, s)
  where
    go : (first : Db) {a b : Db} → StockCalls a b → Kept first a → Kept first b
    go first done k = k
    go first (then call rest) k = go first rest (StockCall-Kept first call k)
