-- ===== src/Ledger/Tenders.antt =====
-- `recordPaymentTenders` keeps the ledger: the tenders add up to what the invoice is credited with.
use shop_os.Ledger.Payment.{find_of_payable}
use shop_os.Common.{
  ℕ, suc, ◌+◌, ◌<◌, ◌≡◌, refl, sym, ◌∙◌, Option, some, List, [], ◌∷◌, ◌++◌, arith, find_first,
  update_where, ℤ, pos, ◌+ℤ◌, int_laws, append-nil, All, safe_limit, number_add_exact, append_assoc,
  none, Option-cases, inl, length, inr, ◌==◌, ◌||◌, ltb, any, or_default,
}
use shop_os.Result.{ok, err, invoice_failed, InvoiceReason, err-ne-ok, invalid_tenders}
use shop_os.Tenancy.{TenantContext, assert_tenant_access, own_organization, payments_record}
use shop_os.Db.{
  Db, Invoice, InvoiceStatus, Payment, Action, reject_if, ◌>>◌, pure, transaction, ◌>>=◌,
}
use shop_os.Db.Keyed.{by_id}
use shop_os.Invoices.{
  Tender, with_paid, payment_row, create_payment, create_payments, tenders_body, tender_total,
  units_of, find_payable, owned_invoice, status_at, record_payment_tenders, is_unusable,
  close_if_paid,
}
use shop_os.Ledger.Invariant.{
  Settles, invoice_id_of, own_part, paid_on, status_at-StatusAgrees, IsLedger, Settles-IsLedger,
}
use shop_os.CashDrawer.{resolve_drawer_for_payment}
use shop_os.Ledger.Payment.{find_of_payable}
use shop_os.Db.Keeps.{demand-Keeps, reject_if-Keeps, >>=-Keeps, transaction-Keeps, then_pure-Keeps}
use shop_os.Ledger.Frame.{close_if_paid-IsLedger}

-- the exact sum of the tenders
abbrev pub tender_sum : List Tender → ℕ
tender_sum [] = 0
tender_sum (t ∷ ts) = units_of t.amount_minor + tender_sum ts

-- While the sum stays a safe integer the doubles add up exactly.
tender_total_exact :
    (sum : ℕ) (ts : List Tender)
    → sum + tender_sum ts < safe_limit
    → tender_total sum ts ≡ sum + tender_sum ts
unfolding tender_total
tender_total_exact sum [] h = omega arith
tender_total_exact sum (t ∷ ts) h =
    rw (number_add_exact sum (units_of t.amount_minor) (omega arith))
      (tender_total_exact (sum + units_of t.amount_minor) ts (omega arith) ∙ omega arith)

module _ (context : TenantContext) (received : ℕ) (ids : ℕ → ℕ) (i : Invoice)
    (drawer : Option ℕ) where
  -- the rows of the payments, in order
  abbrev tender_rows : ℕ → List Tender → List Payment
  tender_rows index [] = []
  tender_rows index (t ∷ ts) =
      payment_row context received (ids index) i drawer (pos (units_of t.amount_minor)) t
      ∷ tender_rows (suc index) ts

  tender_rows-here :
      (index : ℕ) (ts : List Tender) → All (λ p. p.invoice_id ≡ some i.id) (tender_rows index ts)
  tender_rows-here index [] = tt
  tender_rows-here index (t ∷ ts) = (refl, tender_rows-here (suc index) ts)

  paid_on-tender_rows :
      (index : ℕ) (ts : List Tender) → paid_on i.id (tender_rows index ts) ≡ pos (tender_sum ts)
  paid_on-tender_rows index [] = refl
  paid_on-tender_rows index (t ∷ ts) =
      rw (own_part i.id (pos (units_of t.amount_minor)), paid_on-tender_rows (suc index) ts)
        (omega int_laws)

  create_payments-tables :
      (index : ℕ) (ts : List Tender) (db : Db)
      → ((create_payments context received ids i drawer index ts db).0 ≡ ok tt)
        × ((create_payments context received ids i drawer index ts db).1.invoices ≡ db.invoices)
        × ((create_payments context received ids i drawer index ts db).1.payments
            ≡ db.payments ++ tender_rows index ts)
        × ((create_payments context received ids i drawer index ts db).1.refunds ≡ db.refunds)
  unfolding create_payments create_payment
  create_payments-tables index [] db = (refl, refl, sym (append-nil db.payments), refl)
  create_payments-tables index (t ∷ ts) db =
      let row =
        payment_row context received (ids index) i drawer (pos (units_of t.amount_minor)) t in
      let (done, a, b, c) =
        create_payments-tables (suc index) ts (create_payment context i row db).1 in
      (done, a, b ∙ append_assoc db.payments (row ∷ []) (tender_rows (suc index) ts), c)

module _ (context : TenantContext) (received : ℕ) (ids : ℕ → ℕ) (invoice : ℕ)
    (tenders : List Tender) (db db' : Db) (status : InvoiceStatus) (i : Invoice)
    (found : find_first (owned_invoice context.organization_id invoice) db.invoices ≡ some i)
    (done : tenders_body context received ids invoice tenders db ≡ (ok status, db')) where
  abbrev drawer_at : Option ℕ
  drawer_at =
      resolve_drawer_for_payment context.organization_id i.location_id (some context.actor_id) db

  abbrev total_paid : ℤ
  total_paid = i.paid_minor +ℤ pos (tender_total 0 tenders)

  tender_tables :
      (db'.invoices
        ≡ update_where
            (by_id invoice_id_of i.id)
            (with_paid total_paid (status_at i.total_minor total_paid))
            db.invoices)
      × (db'.payments ≡ db.payments ++ tender_rows context received ids i drawer_at 0 tenders)
      × (db'.refunds ≡ db.refunds)
  unfolding tenders_body find_payable
  tender_tables =
      ground (arith, create_payments-tables context received ids i drawer_at 0 tenders db)

  tenders_body-Settles :
      tender_sum tenders < safe_limit
      → Settles i
          (tender_rows context received ids i drawer_at 0 tenders)
          []
          total_paid
          (status_at i.total_minor total_paid)
          db
          db'
  tenders_body-Settles small =
      let (a, b, c) = tender_tables in
      record {
        invoices = a;
        payments = b;
        refunds = rw append-nil c;
        payments_here = tender_rows-here context received ids i drawer_at 0 tenders;
        refunds_here = tt;
        paid_eq =
            rw
              (
                paid_on-tender_rows context received ids i drawer_at 0 tenders,
                tender_total_exact 0 tenders (omega arith),
              )
              (omega int_laws);
        status_agrees = status_at-StatusAgrees i total_paid;
      }

tenders_body_missing :
    (context : TenantContext) (received : ℕ) (ids : ℕ → ℕ) (invoice : ℕ) (tenders : List Tender)
    (db : Db)
    → find_first (owned_invoice context.organization_id invoice) db.invoices ≡ none
    → tenders_body context received ids invoice tenders db
      ≡ (err (invoice_failed InvoiceReason.invoice_not_found), db)
unfolding tenders_body find_payable
tenders_body_missing context received ids invoice tenders db missing = ground arith

tenders_body-IsLedger :
    (context : TenantContext) (received : ℕ) (ids : ℕ → ℕ) (invoice : ℕ) (tenders : List Tender)
    → tender_sum tenders < safe_limit
    → (db db' : Db) (status : InvoiceStatus) → IsLedger db
    → tenders_body context received ids invoice tenders db ≡ (ok status, db')
    → IsLedger db'
tenders_body-IsLedger context received ids invoice tenders small db db' status l done =
    elim (Option-cases (find_first (owned_invoice context.organization_id invoice) db.invoices)) [
      | inl missing ↦ absurd (
          err-ne-ok
            (sym (tenders_body_missing context received ids invoice tenders db missing) ∙ done))
      | inr (i, found) ↦
          Settles-IsLedger db db' i _ _ _ _ l
            (find_of_payable context.organization_id invoice db i l found)
            (tenders_body-Settles context received ids invoice tenders db db' status i found done
              small)
    ]

-- If the database is a ledger and the tenders add up to less than 2^53, it still is a ledger after
-- a call of recordPaymentTenders, however the call ends.
pub record_payment_tenders-IsLedger :
    (context : TenantContext) (now : ℕ) (ids : ℕ → ℕ) (invoice : ℕ) (tenders : List Tender)
    (received_at : Option ℕ) (db : Db)
    → tender_sum tenders < safe_limit
    → IsLedger db
    → IsLedger (record_payment_tenders context now ids invoice tenders received_at db).1
unfolding record_payment_tenders
record_payment_tenders-IsLedger context now ids invoice tenders received_at db small =
    demand-Keeps IsLedger (assert_tenant_access context (own_organization context) payments_record)
      (many_or_none >> (unusable >> (transaction body >>= after)))
      (reject_if-Keeps IsLedger (length tenders == 0 || ltb 10 (length tenders))
        (invoice_failed invalid_tenders) (unusable >> (transaction body >>= after))
        (reject_if-Keeps IsLedger (any (λ t. is_unusable t.amount_minor) tenders)
          (invoice_failed invalid_tenders) (transaction body >>= after)
          (>>=-Keeps IsLedger (transaction body) after
            (transaction-Keeps IsLedger body (
              tenders_body-IsLedger context (or_default received_at now) ids invoice tenders small))
            (λ status.
              then_pure-Keeps IsLedger (close_if_paid context now invoice status) status
                (close_if_paid-IsLedger context now invoice status)))))
      db
  where
    many_or_none : Action (Unit {0})
    many_or_none =
        reject_if (length tenders == 0 || ltb 10 (length tenders)) (invoice_failed invalid_tenders)

    unusable : Action (Unit {0})
    unusable =
        reject_if (any (λ t. is_unusable t.amount_minor) tenders) (invoice_failed invalid_tenders)

    body : Action InvoiceStatus
    body = tenders_body context (or_default received_at now) ids invoice tenders

    after : InvoiceStatus → Action InvoiceStatus
    after status = close_if_paid context now invoice status >> pure status
