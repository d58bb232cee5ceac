-- ===== src/Ledger/Calls.antt =====
-- Any sequence of the services' calls, from an empty database on.
use shop_os.Ledger.Invariant.{IsLedger, IsLedger-of_same}
use shop_os.Db.{Db, Text}
use shop_os.Ledger.Create.{Unreferenced}
use shop_os.Ledger.Stock.{create_invoice_and_consume-IsLedger}
use shop_os.Common.{Bool, ℕ, Option, List, ◌<◌, safe_limit, Number}
use shop_os.Ledger.Issue.{issue_invoice-IsLedger}
use shop_os.Tenancy.{TenantContext}
use shop_os.Ledger.Payment.{record_payment-IsLedger}
use shop_os.Ledger.Tenders.{record_payment_tenders-IsLedger, tender_sum}
use shop_os.Ledger.Refunding.{refund_payment-IsLedger}
use shop_os.Invoices.{
  issue_invoice, Tender, record_payment, record_payment_tenders, create_invoice_and_consume,
}
use shop_os.Ledger.Deposit.{apply_deposit-IsLedger}
use shop_os.Ledger.Frame.{transition_status-SameMoney}
use shop_os.Billing.{Processor, refund_payment, apply_deposit}
use shop_os.Result.{WorkOrderStatus}
use shop_os.WorkOrders.Service.{transition_status}

-- One call of a service, however it ends. The id of a new invoice is one that nothing refers to; the
-- tenders of one call add up to a safe integer.
pub data Call : Db → Db → Type 0 where
  invoice_created :
      (later : Text → Text → Bool) (beyond : Text → Text) (context : TenantContext)
      (now invoice wo : ℕ) (db : Db)
      → Unreferenced invoice db
      → Call db (create_invoice_and_consume later beyond context now invoice wo db).1
  invoice_issued :
      (context : TenantContext) (now invoice : ℕ) (db : Db)
      → Call db (issue_invoice context now invoice db).1
  payment_made :
      (context : TenantContext) (now payment invoice : ℕ) (t : Tender) (received_at : Option ℕ)
      (db : Db)
      → Call db (record_payment context now payment invoice t received_at db).1
  tenders_made :
      (context : TenantContext) (now : ℕ) (ids : ℕ → ℕ) (invoice : ℕ) (tenders : List Tender)
      (received_at : Option ℕ) (db : Db)
      → tender_sum tenders < safe_limit
      → Call db (record_payment_tenders context now ids invoice tenders received_at db).1
  refund_made :
      (processor : Processor) (context : TenantContext) (now refund payment : ℕ)
      (requested : Option Number) (reason : Option Text) (db : Db)
      → Call db (refund_payment processor context now refund payment requested reason db).1
  deposit_used :
      (context : TenantContext) (now payment deposit : ℕ) (db : Db)
      → Call db (apply_deposit context now payment deposit db).1
  work_order_moved :
      (context : TenantContext) (now wo : ℕ) (target : WorkOrderStatus) (db : Db)
      → Call db (transition_status context now wo target db).1

pub data Calls : Db → Db → Type 0 where
  done : {db : Db} → Calls db db
  then : {db mid db' : Db} → Call db mid → Calls mid db' → Calls db db'

Call-IsLedger : {db db' : Db} → Call db db' → IsLedger db → IsLedger db'
Call-IsLedger (invoice_created later beyond context now invoice wo db unreferenced) l =
    create_invoice_and_consume-IsLedger later beyond context now invoice wo db unreferenced l
Call-IsLedger (invoice_issued context now invoice db) l =
    issue_invoice-IsLedger context now invoice db l
Call-IsLedger (payment_made context now payment invoice t received_at db) l =
    record_payment-IsLedger context now payment invoice t received_at db l
Call-IsLedger (tenders_made context now ids invoice tenders received_at db small) l =
    record_payment_tenders-IsLedger context now ids invoice tenders received_at db small l
Call-IsLedger (refund_made processor context now refund payment requested reason db) l =
    refund_payment-IsLedger processor context now refund payment requested reason db l
Call-IsLedger (deposit_used context now payment deposit db) l =
    apply_deposit-IsLedger context now payment deposit db l
Call-IsLedger (work_order_moved context now wo target db) l =
    let (a, b, c) = transition_status-SameMoney context now wo target db in
    IsLedger-of_same db _ a b c l

-- If the database is a ledger, it still is one after any sequence of calls of
-- createInvoiceFromWorkOrder with the stock that it takes, issueInvoice, recordPayment,
-- recordPaymentTenders, refundPayment, applyDeposit and transitionStatus, by any callers and
-- however each call ends, where a new invoice gets an id that no payment or refund refers to and
-- the tenders of one call add up to less than 2^53.
pub Calls-IsLedger : {db db' : Db} → Calls db db' → IsLedger db → IsLedger db'
Calls-IsLedger done l = l
Calls-IsLedger (then call rest) l = Calls-IsLedger rest (Call-IsLedger call l)
