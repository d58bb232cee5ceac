-- ===== src/Ledger/Stock.antt =====
-- What an invoice takes from the shelf leaves the ledger alone.
use shop_os.Common.{
  ℕ, pos, List, [], ◌∷◌, refl, ◌==◌, none, some, Option, arith, inl, inr, Bool, Option-cases,
  find_first, ◌∙◌, ◌&&◌, filter,
}
use shop_os.Db.{Db, Text, Invoice, InvoiceLine, InventoryItem, Reservation}
use shop_os.Inventory.{
  take_line, consume_line, consume_linked, consume_lines, auto_consume_stock_for_invoice,
  add_outcome, update_item, record_stock_movement, owned_item, store_int, holds_for_line,
  invoiced_quantity,
}
use shop_os.Invoices.{create_invoice_and_consume, create_invoice_from_work_order}
use shop_os.Ledger.Frame.{SameMoney}
use shop_os.Ledger.Invariant.{IsLedger, IsLedger-of_same}
use shop_os.Stock.Consumed.{take_holds_writes}
use shop_os.Tenancy.{TenantContext}
use shop_os.Ledger.Create.{Unreferenced, create_invoice-IsLedger}
use shop_os.Result.{Result, ok, err}

module _ (context : TenantContext) (now : ℕ) (invoice : Invoice) where
  take_line-SameMoney :
      (line : InvoiceLine) (i : InventoryItem) (hs : List Reservation) (q : ℕ) (db : Db)
      → SameMoney db (take_line context now invoice line i hs (pos q) db).1
  unfolding take_line update_item record_stock_movement store_int
  take_line-SameMoney line i hs q db = ground (arith, take_holds_writes now (pos q) hs db)

  consume_line-SameMoney :
      (line : InvoiceLine) (item : ℕ) (db : Db)
      → SameMoney db (consume_line context now invoice line item db).1
  unfolding consume_line
  consume_line-SameMoney line item db =
      elim (Option-cases
        (find_first (owned_item context.organization_id item) db.inventory_items)) [
          | inl missing ↦ ground (arith, missing)
          | inr (i, found) ↦
              let hs =
                filter (holds_for_line context.organization_id item invoice.work_order_id)
                  db.reservations in
              ground (
                arith,
                found,
                take_line-SameMoney line i hs (invoiced_quantity line.content.quantity_milli) db,
              )
        ]

  consume_linked-SameMoney :
      (line : InvoiceLine) (item : Option ℕ) (db : Db)
      → SameMoney db (consume_linked context now invoice line item db).1
  unfolding consume_linked
  consume_linked-SameMoney line none db = (refl, refl, refl)
  consume_linked-SameMoney line (some item) db = ground (arith, consume_line-SameMoney line item db)

  consume_lines-SameMoney :
      (counts : ℕ × ℕ) (lines : List InvoiceLine) (db : Db)
      → SameMoney db (consume_lines context now invoice counts lines db).1
  unfolding consume_lines
  consume_lines-SameMoney counts [] db = (refl, refl, refl)
  consume_lines-SameMoney counts (line ∷ lines) db =
      let item = line.content.inventory_item_id in
      let (outcome, db') = consume_linked context now invoice line item db in
      let (a, b, c) = consume_linked-SameMoney line item db in
      let (a', b', c') = consume_lines-SameMoney (add_outcome outcome counts) lines db' in
      (a' ∙ a, b' ∙ b, c' ∙ c)

auto_consume-SameMoney :
    (context : TenantContext) (now invoice : ℕ) (db : Db)
    → SameMoney db (auto_consume_stock_for_invoice context now invoice db).1
unfolding auto_consume_stock_for_invoice
auto_consume-SameMoney context now invoice db =
    elim (Option-cases (
      find_first (λ i. i.id == invoice && i.organization_id == context.organization_id)
        db.invoices)) [
          | inl missing ↦ ground (arith, missing)
          | inr (i, found) ↦
              let lines =
                filter
                  (λ l. l.organization_id == context.organization_id && l.invoice_id == invoice)
                  db.invoice_lines in
              ground (arith, found, consume_lines-SameMoney context now i (0, 0) lines db)
        ]

pub create_invoice_and_consume-IsLedger :
    (later : Text → Text → Bool) (beyond : Text → Text) (context : TenantContext)
    (now invoice wo : ℕ) (db : Db)
    → Unreferenced invoice db
    → IsLedger db
    → IsLedger (create_invoice_and_consume later beyond context now invoice wo db).1
unfolding create_invoice_and_consume
create_invoice_and_consume-IsLedger later beyond context now invoice wo db unreferenced l =
    after (create_invoice_from_work_order later beyond context invoice wo db)
      (create_invoice-IsLedger later beyond context invoice wo db unreferenced l)
  where
    after :
        (x : Result Invoice × Db)
        → IsLedger x.1
        → IsLedger
            (elim x.0 as (λ r. Result Invoice × Db) [
              | ok row ↦ (ok row, (auto_consume_stock_for_invoice context now row.id x.1).1)
              | err e ↦ (err e, x.1)
            ]).1
    after (ok row, mid) l' =
        let (a, b, c) = auto_consume-SameMoney context now row.id mid in
        IsLedger-of_same mid _ a b c l'
    after (err e, mid) l' = l'
