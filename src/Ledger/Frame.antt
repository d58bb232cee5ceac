-- ===== src/Ledger/Frame.antt =====
-- What the calls that follow a payment leave alone: the three tables of the ledger.
use shop_os.Common.{ℕ, ◌≡◌, arith, find_first, Option-cases, ◌==◌, inl, inr, refl}
use shop_os.Result.{WorkOrderStatus}
use shop_os.Db.{Db, InvoiceStatus}
use shop_os.Invoices.{close_if_paid}
use shop_os.Tenancy.{TenantContext}
use shop_os.WorkOrders.Service.{
  transition_body, release_active_reservations, transition_status, owned_work_order,
}
use shop_os.Db.Keeps.{Keeps}
use shop_os.Ledger.Invariant.{IsLedger, IsLedger-of_same}
use shop_os.WorkOrders.Transition.{prerequisites_read_only}

-- A transition of a work order leaves the invoices, the payments and the refunds alone.
abbrev pub SameMoney : Db → Db → Type 0
SameMoney db db' =
    (db'.invoices ≡ db.invoices) × (db'.payments ≡ db.payments) × (db'.refunds ≡ db.refunds)

transition_body-SameMoney :
    (context : TenantContext) (now wo : ℕ) (target : WorkOrderStatus) (db : Db)
    → SameMoney db (transition_body context now wo target db).1
unfolding transition_body release_active_reservations
transition_body-SameMoney context now wo target db =
    elim (Option-cases (find_first (owned_work_order context.organization_id wo) db.work_orders)) [
      | inl missing ↦ ground arith
      | inr (w, found) ↦
          ground (arith, prerequisites_read_only context.organization_id w.id target db)
    ]

pub transition_status-SameMoney :
    (context : TenantContext) (now wo : ℕ) (target : WorkOrderStatus) (db : Db)
    → SameMoney db (transition_status context now wo target db).1
unfolding transition_status
transition_status-SameMoney context now wo target db =
    ground (arith, transition_body-SameMoney context now wo target db)

close_if_paid-SameMoney :
    (context : TenantContext) (now invoice : ℕ) (status : InvoiceStatus) (db : Db)
    → SameMoney db (close_if_paid context now invoice status db).1
unfolding close_if_paid
close_if_paid-SameMoney context now invoice InvoiceStatus.paid db =
    elim (Option-cases (find_first (λ i. i.id == invoice) db.invoices)) [
      | inl missing ↦ ground arith
      | inr (i, found) ↦
          ground (
            arith,
            transition_status-SameMoney context now i.work_order_id WorkOrderStatus.closed db,
          )
    ]
close_if_paid-SameMoney context now invoice _ db = (refl, refl, refl)

pub close_if_paid-IsLedger :
    (context : TenantContext) (now invoice : ℕ) (status : InvoiceStatus)
    → Keeps IsLedger (close_if_paid context now invoice status)
close_if_paid-IsLedger context now invoice status db l =
    let (i, p, r) = close_if_paid-SameMoney context now invoice status db in
    IsLedger-of_same db _ i p r l
