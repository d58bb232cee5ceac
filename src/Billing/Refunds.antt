-- ===== src/Billing/Refunds.antt =====
-- `refundPayment` and `listRefundablePayments` of src/modules/billing/refund-service.ts. The payment
-- processor is a parameter: `none` where no adapter is connected or it cannot refund, and else the
-- reference of the refund of an amount on a charge, or `none` where the processor refuses.
use mathlib.Core.Option
use shop_os.Common.{
  ℕ, Bool, true, false, ◌&&◌, ◌||◌, Option, none, some, List, [], ◌∷◌, ◌++◌, ◌==◌, if◌then◌else◌,
  filter, find_first, ℤ, pos, ◌+ℤ◌, ◌-ℤ◌, ltb_ℤ, leb_ℤ, Number, int, to_number,
}
use shop_os.Common.Text.{trim, truthy}
use shop_os.Result.{
  Result, ok, err, refund_failed, payment_not_found, refund_exceeds_payment,
  processor_refund_failed, processor_unavailable,
}
use shop_os.Result
use shop_os.Tenancy.{TenantContext, payments_record, assert_tenant_access, own_organization}
use shop_os.Db.{
  Text, Db, Invoice, InvoiceStatus, Payment, Refund, ActivityKind, AuditKind, Action, pure, query,
  demand, or_throw, ◌>>=◌, ◌>>◌, modify, reject_if, transaction, log_activity, log_audit,
}
use shop_os.Invoices.{set_paid, is_unusable}

abbrev pub Processor : Type 0
Processor = Option (Text → ℤ → Option Text)

-- `payment.refunds`
abbrev pub refunds_of : (payment_id : ℕ) → Db → List Refund
refunds_of payment db = filter (λ r. r.payment_id == payment) db.refunds

-- `refunds.reduce((sum, refund) => sum + refund.amountMinor, 0n)`
unfoldable pub sum_refunds : ℤ → List Refund → ℤ
sum_refunds sum [] = sum
sum_refunds sum (r ∷ rs) = sum_refunds (sum +ℤ r.amount_minor) rs

-- what is left to refund of a payment
abbrev pub refundable : Payment → Db → ℤ
refundable p db = p.amount_minor -ℤ sum_refunds (pos 0) (refunds_of p.id db)

-- `BigInt(input.amountMinor ?? Number(refundable))`, of an amount that has been checked
abbrev pub requested_amount : Option Number → ℤ → ℤ
requested_amount (some (int z)) rest = z
requested_amount (some Number.other) rest = pos 0
requested_amount none rest = to_number rest

-- the refund through the processor: its reference, and whether one was made
unfoldable pub refund_at_processor : Processor → Payment → ℤ → Result (Option Text × Bool)
refund_at_processor processor p amount = elim (truthy p.processor_charge_id) [
  | none ↦ ok (none, false)
  | some charge ↦ elim processor [
    | none ↦ err (refund_failed processor_unavailable)
    | some create_refund ↦ elim (create_refund charge amount) [
      | none ↦ err (refund_failed processor_refund_failed)
      | some reference ↦ ok (some reference, true)
    ]
  ]
]

-- the status by the net position
abbrev pub status_after_refund : (total paid : ℤ) → InvoiceStatus
status_after_refund total paid =
    if leb_ℤ total paid
    then InvoiceStatus.paid
    else if ltb_ℤ (pos 0) paid
    then InvoiceStatus.partially_paid
    else InvoiceStatus.issued

abbrev pub refund_row :
    TenantContext → (now refund_id : ℕ) → Payment → ℤ → (reason reference : Option Text) → Refund
refund_row context now refund p amount reason reference = record {
  id = refund;
  organization_id = context.organization_id;
  location_id = p.location_id;
  invoice_id = p.invoice_id;
  payment_id = p.id;
  amount_minor = amount;
  currency = p.currency;
  reason = Option.map trim (truthy reason);
  provider_ref = truthy reference;
  refunded_at = now;
  recorded_by_user_id = context.actor_id;
}

-- `payment.invoiceId ? invoice.findUnique(...) : null`
abbrev pub invoice_of : Payment → Db → Option Invoice
invoice_of p db = elim p.invoice_id [
  | none ↦ none
  | some k ↦ find_first (λ i. i.id == k) db.invoices
]

-- The invoice's paid amount is taken down by the refund.
unfoldable pub take_down : Option Invoice → ℤ → Action (Unit {0})
take_down none amount = pure tt
take_down (some i) amount =
    let new_paid = i.paid_minor -ℤ amount in
    modify (set_paid i.id new_paid (status_after_refund i.total_minor new_paid))

-- The activity stands on the work order of the payment's invoice, which a foreign key keeps.
unfoldable pub log_refund : TenantContext → Payment → Option Invoice → ℤ → Bool → Action (Unit {0})
log_refund context p none amount through = pure tt
log_refund context p (some i) amount through = log_activity (record {
  organization_id = context.organization_id;
  location_id = p.location_id;
  work_order_id = i.work_order_id;
  actor_user_id = context.actor_id;
  kind = ActivityKind.payment_refunded amount p.method through;
})

-- the transaction of `refundPayment`
unfoldable pub refund_body :
    TenantContext
    → (now refund_id : ℕ) → Payment
    → ℤ
    → (reason reference : Option Text) → Bool
    → Action Bool
refund_body context now refund p amount reason reference through = do
  modify (λ db. record db {
    refunds = db.refunds ++ (refund_row context now refund p amount reason reference ∷ []);
  })
  invoice ← query (invoice_of p)
  take_down invoice amount
  log_refund context p invoice amount through
  log_audit (record {
    organization_id = context.organization_id;
    location_id = some p.location_id;
    actor_user_id = context.actor_id;
    entity_id = p.id;
    request_id = context.request_id;
    kind = AuditKind.payment_refunded (Option.map (λ i. i.paid_minor) invoice) amount through;
  })
  pure through

-- `input.amountMinor !== undefined && (…)`
abbrev pub is_bad_request : Option Number → Bool
is_bad_request none = false
is_bad_request (some n) = is_unusable n

unfoldable pub refund_payment :
    Processor
    → TenantContext
    → (now refund_id payment_id : ℕ) → Option Number
    → (reason : Option Text) → Action Bool
refund_payment processor context now refund payment requested reason = do
  demand (assert_tenant_access context (own_organization context) payments_record)
  reject_if (is_bad_request requested) (refund_failed Result.RefundReason.invalid_amount)
  found ← query (λ db.
      find_first (λ p. p.id == payment && p.organization_id == context.organization_id) db.payments)
  p ← or_throw found (refund_failed payment_not_found)
  rest ← query (refundable p)
  let amount = requested_amount requested rest
  reject_if (leb_ℤ amount (pos 0) || ltb_ℤ rest amount) (refund_failed refund_exceeds_payment)
  done ← demand (refund_at_processor processor p amount)
  transaction (refund_body context now refund p amount reason done.0 done.1)
