-- ===== src/Billing/Deposits.antt =====
-- `recordDeposit` and `applyDeposit` of src/modules/billing/deposit-service.ts.
use mathlib.Core.Option
use shop_os.Common.{
  ℕ, Bool, not, ◌&&◌, Option, none, some, [], ◌∷◌, ◌++◌, ◌==◌, find_first, is_some, update_where,
  count_where, ◌+ℤ◌, ◌-ℤ◌, ltb_ℤ, Number,
}
use shop_os.Common.Text.{trim, to_upper_case, truthy}
use shop_os.Result.{
  deposit_failed, deposit_not_found, deposit_already_applied, deposit_exceeds_balance,
}
use shop_os.Result
use shop_os.Tenancy.{TenantContext, payments_record, assert_tenant_access, own_organization}
use shop_os.Db.{
  Text, Invoice, Payment, PaymentMethod, Deposit, WorkOrder, ActivityKind, Action, pure, query,
  demand, or_throw, ◌>>=◌, ◌>>◌, modify, reject_if, transaction, log_activity,
}
use shop_os.WorkOrders.Service.{owned_work_order}
use shop_os.CashDrawer.{resolve_drawer_for_payment, value_of}
use shop_os.Invoices.{is_draft, is_void, set_paid, status_at, is_unusable}

pub record DepositInput : Type 0 where
  pub work_order_id : ℕ
  pub amount_minor : Number
  pub currency : Text
  pub method : PaymentMethod
  pub reference : Option Text
  pub note : Option Text

abbrev pub deposit_row : TenantContext → (now deposit_id : ℕ) → WorkOrder → DepositInput → Deposit
deposit_row context now deposit w input = record {
  id = deposit;
  organization_id = context.organization_id;
  location_id = w.location_id;
  work_order_id = w.id;
  amount_minor = value_of input.amount_minor;
  currency = to_upper_case (trim input.currency);
  method = input.method;
  reference = Option.map trim (truthy input.reference);
  received_at = now;
  recorded_by_user_id = context.actor_id;
  note = Option.map trim (truthy input.note);
  applied_invoice_id = none;
  applied_at = none;
}

-- the transaction of `recordDeposit`
unfoldable pub deposit_body : TenantContext → (now deposit_id : ℕ) → DepositInput → Action ℕ
deposit_body context now deposit input = do
  found ← query (λ db.
      find_first (owned_work_order context.organization_id input.work_order_id) db.work_orders)
  w ← or_throw found (deposit_failed Result.DepositReason.work_order_not_found)
  modify
      (λ db. record db { deposits = db.deposits ++ (deposit_row context now deposit w input ∷ []) })
  log_activity (record {
    organization_id = context.organization_id;
    location_id = w.location_id;
    work_order_id = w.id;
    actor_user_id = context.actor_id;
    kind = ActivityKind.deposit_recorded (value_of input.amount_minor) input.method;
  })
  pure deposit

unfoldable pub record_deposit : TenantContext → (now deposit_id : ℕ) → DepositInput → Action ℕ
record_deposit context now deposit input = do
  demand (assert_tenant_access context (own_organization context) payments_record)
  reject_if (is_unusable input.amount_minor) (deposit_failed Result.DepositReason.invalid_amount)
  transaction (deposit_body context now deposit input)

-- "deposit"
abbrev pub deposit_word : Text
deposit_word = 100 ∷ 101 ∷ 112 ∷ 111 ∷ 115 ∷ 105 ∷ 116 ∷ []

abbrev pub deposit_reference : Option Text → Text
deposit_reference none = deposit_word
deposit_reference (some text) = deposit_word ++ (32 ∷ text)

abbrev pub deposit_payment :
    TenantContext → (payment_id : ℕ) → Deposit → Invoice → (drawer : Option ℕ) → Payment
deposit_payment context payment d i drawer = record {
  id = payment;
  organization_id = context.organization_id;
  location_id = i.location_id;
  invoice_id = some i.id;
  amount_minor = d.amount_minor;
  currency = i.currency;
  method = d.method;
  reference = some (deposit_reference (truthy d.reference));
  processor_charge_id = none;
  drawer_session_id = drawer;
  received_at = d.received_at;
  recorded_by_user_id = context.actor_id;
}

abbrev pub is_claimable : (deposit_id : ℕ) → Deposit → Bool
is_claimable deposit d = d.id == deposit && not (is_some d.applied_invoice_id)

-- the transaction of `applyDeposit`
unfoldable pub apply_body : TenantContext → (now payment_id deposit_id : ℕ) → Action ℕ
apply_body context now payment deposit = do
  found ← query (λ db.
      find_first (λ d. d.id == deposit && d.organization_id == context.organization_id) db.deposits)
  d ← or_throw found (deposit_failed deposit_not_found)
  reject_if (is_some d.applied_invoice_id) (deposit_failed deposit_already_applied)
  owed ← query (λ db.
      find_first
        (λ i. i.work_order_id == d.work_order_id && i.organization_id == context.organization_id)
        db.invoices)
  i ← or_throw owed (deposit_failed Result.DepositReason.invoice_not_found)
  reject_if (is_draft i.status) (deposit_failed Result.DepositReason.invoice_not_issued)
  reject_if (is_void i.status) (deposit_failed Result.DepositReason.invoice_not_issued)
  reject_if (ltb_ℤ (i.total_minor -ℤ i.paid_minor) d.amount_minor)
      (deposit_failed deposit_exceeds_balance)
  count ← query (λ db. count_where (is_claimable d.id) db.deposits)
  modify (λ db. record db {
    deposits =
        update_where (is_claimable d.id)
          (λ x. record x { applied_invoice_id = some i.id; applied_at = some now }) db.deposits;
  })
  reject_if (not (count == 1)) (deposit_failed deposit_already_applied)
  drawer ←
      query
        (resolve_drawer_for_payment context.organization_id i.location_id (some context.actor_id))
  modify (λ db. record db {
    payments = db.payments ++ (deposit_payment context payment d i drawer ∷ []);
  })
  let new_paid = i.paid_minor +ℤ d.amount_minor
  modify (set_paid i.id new_paid (status_at i.total_minor new_paid))
  log_activity (record {
    organization_id = context.organization_id;
    location_id = i.location_id;
    work_order_id = d.work_order_id;
    actor_user_id = context.actor_id;
    kind = ActivityKind.deposit_applied d.amount_minor;
  })
  pure i.id

unfoldable pub apply_deposit : TenantContext → (now payment_id deposit_id : ℕ) → Action ℕ
apply_deposit context now payment deposit = do
  demand (assert_tenant_access context (own_organization context) payments_record)
  transaction (apply_body context now payment deposit)
