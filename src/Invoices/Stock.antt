-- ===== src/Invoices/Stock.antt =====
-- `createInvoiceFromWorkOrder` as a whole: the invoice, and then the stock that it takes.
use shop_os.Common.{ℕ, Bool}
use shop_os.Db.{Text, Action, Invoice, ◌>>=◌, ◌>>◌, attempt, pure}
use shop_os.Tenancy.{TenantContext}
use shop_os.Inventory.{auto_consume_stock_for_invoice}
use shop_os.Invoices.Create.{create_invoice_from_work_order}

-- What happens to the stock can neither stop the invoice nor undo it.
unfoldable pub create_invoice_and_consume :
    (later : Text → Text → Bool) (beyond : Text → Text)
    → TenantContext
    → (now invoice_id work_order_id : ℕ) → Action Invoice
create_invoice_and_consume later beyond context now invoice wo = do
  row ← create_invoice_from_work_order later beyond context invoice wo
  attempt (auto_consume_stock_for_invoice context now row.id)
  pure row
