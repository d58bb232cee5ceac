-- ===== src/Ledger/Payment.antt =====
-- `recordPayment` keeps the ledger, and moves the paid amount of its invoice by the payment.
use shop_os.Common.{
  ℕ, ◌≡◌, some, arith, find_first, update_where, ℤ, ◌+ℤ◌, ◌++◌, ◌∷◌, [], Option-cases, append-nil,
  ◌==◌, inl, int_laws, inr, refl, Option, none, sym, or_default, ◌∙◌,
}
use shop_os.Result.{ok, err-ne-ok, err, invoice_failed, InvoiceReason}
use shop_os.Db.{
  to_bigint, ◌>>◌, Db, Invoice, InvoiceStatus, Payment, Action, pure, transaction, ◌>>=◌,
}
use shop_os.Invoices.{
  find_payable, owned_invoice, payment_body, create_payment, Tender, payment_row, with_paid,
  status_at, record_payment, close_if_paid,
}
use shop_os.Tenancy.{TenantContext, assert_tenant_access, own_organization, payments_record}
use shop_os.Db.Keyed.{by_id, find, find_of_own_key}
use shop_os.CashDrawer.{resolve_drawer_for_payment, value_of}
use shop_os.Ledger.Invariant.{
  invoice_id_of, Settles, own_part, status_at-StatusAgrees, IsLedger, Settles-IsLedger,
}
use shop_os.Db.Keeps.{>>=-Keeps, transaction-Keeps, demand-Keeps, then_pure-Keeps}
use shop_os.Ledger.Frame.{close_if_paid-IsLedger}

module _ (context : TenantContext) (received payment invoice : ℕ) (t : Tender) (db db' : Db)
    (status : InvoiceStatus) (i : Invoice)
    (found : find_first (owned_invoice context.organization_id invoice) db.invoices ≡ some i)
    (done : payment_body context received payment invoice t db ≡ (ok status, db')) where
  abbrev new_row : Payment
  new_row =
      payment_row context received payment i
        (resolve_drawer_for_payment context.organization_id i.location_id (some context.actor_id)
          db)
        (value_of t.amount_minor) t

  abbrev new_paid : ℤ
  new_paid = i.paid_minor +ℤ value_of t.amount_minor

  payment_tables :
      (db'.invoices
        ≡ update_where
            (by_id invoice_id_of i.id)
            (with_paid new_paid (status_at i.total_minor new_paid))
            db.invoices)
      × (db'.payments ≡ db.payments ++ (new_row ∷ []))
      × (db'.refunds ≡ db.refunds)
  unfolding payment_body find_payable create_payment to_bigint
  payment_tables = ground arith

  payment_body-Settles :
      Settles i (new_row ∷ []) [] new_paid (status_at i.total_minor new_paid) db db'
  payment_body-Settles =
      let (a, b, c) = payment_tables in
      record {
        invoices = a;
        payments = b;
        refunds = rw append-nil c;
        payments_here = (refl, tt);
        refunds_here = tt;
        paid_eq = rw (own_part i.id (value_of t.amount_minor)) (omega int_laws);
        status_agrees = status_at-StatusAgrees i new_paid;
      }

-- the row that a search by id and organization finds is the row of its id
pub find_of_payable :
    (org k : ℕ) (db : Db) (i : Invoice)
    → IsLedger db
    → find_first (owned_invoice org k) db.invoices ≡ some i
    → find invoice_id_of i.id db.invoices ≡ some i
find_of_payable org k db i l h =
    find_of_own_key invoice_id_of k (λ x. x.organization_id == org) db.invoices i l.keyed h

payment_body_missing :
    (context : TenantContext) (received payment invoice : ℕ) (t : Tender) (db : Db)
    → find_first (owned_invoice context.organization_id invoice) db.invoices ≡ none
    → payment_body context received payment invoice t db
      ≡ (err (invoice_failed InvoiceReason.invoice_not_found), db)
unfolding payment_body find_payable
payment_body_missing context received payment invoice t db missing = ground arith

payment_body-IsLedger :
    (context : TenantContext) (received payment invoice : ℕ) (t : Tender) (db db' : Db)
    (status : InvoiceStatus)
    → IsLedger db
    → payment_body context received payment invoice t db ≡ (ok status, db')
    → IsLedger db'
payment_body-IsLedger context received payment invoice t db db' status l done =
    elim (Option-cases (find_first (owned_invoice context.organization_id invoice) db.invoices)) [
      | inl missing ↦ absurd (
          err-ne-ok
            (sym (payment_body_missing context received payment invoice t db missing) ∙ done))
      | inr (i, found) ↦
          Settles-IsLedger db db' i _ _ _ _ l
            (find_of_payable context.organization_id invoice db i l found)
            (payment_body-Settles context received payment invoice t db db' status i found done)
    ]

-- If the database is a ledger, it still is one after a call of recordPayment, however the call
-- ends: invoices keep unique ids, the paid amount of every invoice is what its payments brought in
-- less its refunds, an invoice that is PAID is covered and one that is PARTIALLY_PAID is not. The
-- transition of the work order that follows a full payment is included.
pub record_payment-IsLedger :
    (context : TenantContext) (now payment invoice : ℕ) (t : Tender) (received_at : Option ℕ)
    (db : Db)
    → IsLedger db
    → IsLedger (record_payment context now payment invoice t received_at db).1
unfolding record_payment
record_payment-IsLedger context now payment invoice t received_at =
    demand-Keeps IsLedger (assert_tenant_access context (own_organization context) payments_record)
      (transaction (payment_body context (or_default received_at now) payment invoice t) >>= after)
      (>>=-Keeps IsLedger
        (transaction (payment_body context (or_default received_at now) payment invoice t)) after
        (transaction-Keeps IsLedger
          (payment_body context (or_default received_at now) payment invoice t)
          (payment_body-IsLedger context (or_default received_at now) payment invoice t))
        (λ status.
          then_pure-Keeps IsLedger (close_if_paid context now invoice status) status
            (close_if_paid-IsLedger context now invoice status)))
  where
    after : InvoiceStatus → Action InvoiceStatus
    after status = close_if_paid context now invoice status >> pure status
