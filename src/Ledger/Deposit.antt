-- ===== src/Ledger/Deposit.antt =====
-- `applyDeposit` keeps the ledger: the deposit becomes a payment on the invoice.
use shop_os.Ledger.Invariant.{
  IsLedger, Settles-IsLedger, invoice_id_of, own_part, status_at-StatusAgrees,
}
use shop_os.Tenancy.{TenantContext, assert_tenant_access, own_organization, payments_record}
use shop_os.Billing.{apply_deposit, apply_body, deposit_payment}
use shop_os.Common.{
  ℕ, ◌≡◌, find_first, Option-cases, ◌==◌, ◌&&◌, inl, some, ◌∷◌, [], arith, ℤ, Option, inr, ◌+ℤ◌,
  update_where, append-nil, int_laws, ◌++◌, refl,
}
use shop_os.Db.{Db, Deposit, Invoice, transaction}
use shop_os.Db.Keeps.{demand-Keeps, transaction-Keeps}
use shop_os.Result.{ok}
use shop_os.Invoices.{status_at, with_paid}
use shop_os.Db.Keyed.{find_of_found, by_id}
use shop_os.CashDrawer.{resolve_drawer_for_payment}

module _ (context : TenantContext) (now payment deposit : ℕ) (db db' : Db) (invoice : ℕ) where
  -- the rows that a successful call worked on
  abbrev Applied : Deposit → Invoice → Type 0
  Applied d i =
      (find_first
          (λ i. i.work_order_id == d.work_order_id && i.organization_id == context.organization_id)
          db.invoices
        ≡ some i)
      × ((new_paid : ℤ) × (drawer : Option ℕ) × (new_paid ≡ i.paid_minor +ℤ d.amount_minor)
          × (db'.invoices
              ≡ update_where (by_id invoice_id_of i.id)
                  (with_paid new_paid (status_at i.total_minor new_paid)) db.invoices)
          × (db'.payments ≡ db.payments ++ (deposit_payment context payment d i drawer ∷ []))
          × (db'.refunds ≡ db.refunds))

  apply_body-writes :
      apply_body context now payment deposit db ≡ (ok invoice, db')
      → (d : Deposit) × (i : Invoice) × Applied d i
  unfolding apply_body resolve_drawer_for_payment
  apply_body-writes done =
      elim (Option-cases (
        find_first (λ d. d.id == deposit && d.organization_id == context.organization_id)
          db.deposits)) [
            | inl missing ↦ absurd (ground arith)
            | inr (d, found) ↦
                elim (Option-cases (
                  find_first
                    (λ i.
                      i.work_order_id == d.work_order_id
                      && i.organization_id == context.organization_id)
                    db.invoices)) [
                      | inl unowed ↦ absurd (ground arith)
                      | inr (i, owed) ↦ (
                        d,
                        i,
                        (
                          owed,
                          (
                            i.paid_minor +ℤ d.amount_minor,
                            resolve_drawer_for_payment context.organization_id i.location_id
                                (some context.actor_id) db,
                            refl,
                            ground arith,
                            ground arith,
                            ground arith,
                          ),
                        ),
                      )
                    ]
          ]

  apply_body-IsLedger :
      IsLedger db → apply_body context now payment deposit db ≡ (ok invoice, db') → IsLedger db'
  apply_body-IsLedger l done =
      let (d, i, (owed, (paid, drawer, paid_eq, a, b, c))) = apply_body-writes done in
      Settles-IsLedger db db' i (deposit_payment context payment d i drawer ∷ []) [] paid
        (status_at i.total_minor paid) l (find_of_found invoice_id_of _ db.invoices i l.keyed owed)
        (record {
          invoices = a;
          payments = b;
          refunds = rw append-nil c;
          payments_here = (refl, tt);
          refunds_here = tt;
          paid_eq = rw (paid_eq, own_part i.id d.amount_minor) (omega int_laws);
          status_agrees = status_at-StatusAgrees i paid;
        })

-- If the database is a ledger, it still is one after a call of applyDeposit, however the call
-- ends.
pub apply_deposit-IsLedger :
    (context : TenantContext) (now payment deposit : ℕ) (db : Db)
    → IsLedger db
    → IsLedger (apply_deposit context now payment deposit db).1
unfolding apply_deposit
apply_deposit-IsLedger context now payment deposit =
    demand-Keeps IsLedger (assert_tenant_access context (own_organization context) payments_record)
      (transaction (apply_body context now payment deposit))
      (transaction-Keeps IsLedger (apply_body context now payment deposit)
        (apply_body-IsLedger context now payment deposit))
