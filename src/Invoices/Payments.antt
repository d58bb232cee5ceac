-- ===== src/Invoices/Payments.antt =====
-- `recordPayment` and `recordPaymentTenders` of src/modules/invoices/invoice-service.ts.
use shop_os.Common.{
  ℕ, suc, Bool, true, false, not, ◌||◌, Option, none, some, List, [], ◌∷◌, ◌++◌, ◌==◌, ltb,
  if◌then◌else◌, find_first, update_where, or_default, length, any, ℤ, pos, ◌+ℤ◌, ◌-ℤ◌, ltb_ℤ,
  leb_ℤ, pos_part, Number, int, other, is_safe_integer, number_add,
}
use shop_os.Result.{
  Result, ok, err, closed, invoice_failed, range_error, invalid_tenders, payment_exceeds_balance,
  invoice_voided,
}
use shop_os.Result
use shop_os.Tenancy.{TenantContext, payments_record, assert_tenant_access, own_organization}
use shop_os.Db.{
  Text, Db, Invoice, InvoiceStatus, Payment, PaymentMethod, ActivityKind, OutboxKind, Action, pure,
  query, demand, or_throw, ◌>>=◌, ◌>>◌, modify, reject_if, transaction, attempt, log_activity,
  send_outbox, to_bigint,
}
use shop_os.CashDrawer.{resolve_drawer_for_payment}
use shop_os.WorkOrders.Service.{transition_status}
use shop_os.Invoices.Issue.{is_draft, owned_invoice}

abbrev pub is_void : InvoiceStatus → Bool
is_void InvoiceStatus.void = true
is_void _ = false

-- the status after a payment
abbrev pub status_at : (total paid : ℤ) → InvoiceStatus
status_at total paid = if leb_ℤ total paid then InvoiceStatus.paid else InvoiceStatus.partially_paid

-- the columns that a payment writes
abbrev pub with_paid : ℤ → InvoiceStatus → Invoice → Invoice
with_paid paid status i = record i { paid_minor = paid; status = status }

-- `invoice.update` by id
abbrev pub set_paid : (invoice_id : ℕ) → ℤ → InvoiceStatus → Db → Db
set_paid invoice paid status db = record db {
  invoices = update_where (λ i. i.id == invoice) (with_paid paid status) db.invoices;
}

-- an invoice of the organization that can be paid
unfoldable pub find_payable : (organization_id invoice_id : ℕ) → Action Invoice
find_payable org invoice = do
  found ← query (λ db. find_first (owned_invoice org invoice) db.invoices)
  i ← or_throw found (invoice_failed Result.InvoiceReason.invoice_not_found)
  reject_if (is_draft i.status) (invoice_failed Result.InvoiceReason.invoice_not_issued)
  reject_if (is_void i.status) (invoice_failed invoice_voided)
  pure i

pub record Tender : Type 0 where
  pub amount_minor : Number
  pub method : PaymentMethod
  pub reference : Option Text

-- the row of a payment on an invoice
abbrev pub payment_row :
    TenantContext
    → (received_at payment_id : ℕ) → Invoice
    → (drawer : Option ℕ) → ℤ
    → Tender
    → Payment
payment_row context received_at payment i drawer amount tender = record {
  id = payment;
  organization_id = context.organization_id;
  location_id = i.location_id;
  invoice_id = some i.id;
  amount_minor = amount;
  currency = i.currency;
  method = tender.method;
  reference = tender.reference;
  processor_charge_id = none;
  drawer_session_id = drawer;
  received_at = received_at;
  recorded_by_user_id = context.actor_id;
}

-- `payment.create`, its activity event and its receipt through the outbox
unfoldable pub create_payment : TenantContext → Invoice → Payment → Action (Unit {0})
create_payment context i p = do
  modify (λ db. record db { payments = db.payments ++ (p ∷ []) })
  log_activity (record {
    organization_id = context.organization_id;
    location_id = i.location_id;
    work_order_id = i.work_order_id;
    actor_user_id = context.actor_id;
    kind = ActivityKind.payment_recorded p.amount_minor p.method;
  })
  send_outbox (record {
    organization_id = context.organization_id;
    kind = OutboxKind.payment_recorded;
    aggregate_id = p.id;
    invoice_id = some i.id;
    work_order_id = i.work_order_id;
    location_id = i.location_id;
  })

-- the transaction of `recordPayment`
unfoldable pub payment_body :
    TenantContext → (received_at payment_id invoice_id : ℕ) → Tender → Action InvoiceStatus
payment_body context received_at payment invoice tender = do
  i ← find_payable context.organization_id invoice
  amount ← demand (to_bigint tender.amount_minor)
  reject_if (ltb_ℤ (i.total_minor -ℤ i.paid_minor) amount) (invoice_failed payment_exceeds_balance)
  drawer ←
      query
        (resolve_drawer_for_payment context.organization_id i.location_id (some context.actor_id))
  create_payment context i (payment_row context received_at payment i drawer amount tender)
  let new_paid = i.paid_minor +ℤ amount
  modify (set_paid i.id new_paid (status_at i.total_minor new_paid))
  pure (status_at i.total_minor new_paid)

-- a fully paid invoice closes its work order, if that can be closed
unfoldable pub close_if_paid :
    TenantContext → (now invoice_id : ℕ) → InvoiceStatus → Action (Unit {0})
close_if_paid context now invoice InvoiceStatus.paid = do
  found ← query (λ db. find_first (λ i. i.id == invoice) db.invoices)
  elim found [
    | none ↦ pure tt
    | some i ↦ attempt (transition_status context now i.work_order_id closed)
  ]
close_if_paid context now invoice _ = pure tt

unfoldable pub record_payment :
    TenantContext
    → (now payment_id invoice_id : ℕ) → Tender
    → (received_at : Option ℕ) → Action InvoiceStatus
record_payment context now payment invoice tender received_at = do
  demand (assert_tenant_access context (own_organization context) payments_record)
  status ← transaction (payment_body context (or_default received_at now) payment invoice tender)
  close_if_paid context now invoice status
  pure status

-- `!Number.isSafeInteger(x) || x <= 0`
abbrev pub is_unusable : Number → Bool
is_unusable other = true
is_unusable (int z) = not (is_safe_integer (int z)) || leb_ℤ z (pos 0)

abbrev pub units_of : Number → ℕ
units_of other = 0
units_of (int z) = pos_part z

-- the `reduce` over checked tenders, on doubles
unfoldable pub tender_total : ℕ → List Tender → ℕ
tender_total sum [] = sum
tender_total sum (t ∷ ts) = tender_total (number_add sum (units_of t.amount_minor)) ts

-- one payment for each tender, with the ids in order
unfoldable pub create_payments :
    TenantContext
    → (received_at : ℕ) → (payment_ids : ℕ → ℕ) → Invoice
    → (drawer : Option ℕ) → (index : ℕ) → List Tender
    → Action (Unit {0})
create_payments context received_at ids i drawer index [] = pure tt
create_payments context received_at ids i drawer index (t ∷ ts) = do
  create_payment context i
      (payment_row context received_at (ids index) i drawer (pos (units_of t.amount_minor)) t)
  create_payments context received_at ids i drawer (suc index) ts

-- the transaction of `recordPaymentTenders`
unfoldable pub tenders_body :
    TenantContext
    → (received_at : ℕ) → (payment_ids : ℕ → ℕ) → (invoice_id : ℕ) → List Tender
    → Action InvoiceStatus
tenders_body context received_at ids invoice tenders = do
  i ← find_payable context.organization_id invoice
  let total = pos (tender_total 0 tenders)
  reject_if (ltb_ℤ (i.total_minor -ℤ i.paid_minor) total) (invoice_failed payment_exceeds_balance)
  drawer ←
      query
        (resolve_drawer_for_payment context.organization_id i.location_id (some context.actor_id))
  create_payments context received_at ids i drawer 0 tenders
  let new_paid = i.paid_minor +ℤ total
  modify (set_paid i.id new_paid (status_at i.total_minor new_paid))
  pure (status_at i.total_minor new_paid)

unfoldable pub record_payment_tenders :
    TenantContext
    → (now : ℕ) → (payment_ids : ℕ → ℕ) → (invoice_id : ℕ) → List Tender
    → (received_at : Option ℕ) → Action InvoiceStatus
record_payment_tenders context now ids invoice tenders received_at = do
  demand (assert_tenant_access context (own_organization context) payments_record)
  reject_if (length tenders == 0 || ltb 10 (length tenders)) (invoice_failed invalid_tenders)
  reject_if (any (λ t. is_unusable t.amount_minor) tenders) (invoice_failed invalid_tenders)
  status ← transaction (tenders_body context (or_default received_at now) ids invoice tenders)
  close_if_paid context now invoice status
  pure status
