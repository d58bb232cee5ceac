-- ===== src/Ledger/Refund.antt =====
-- `refundPayment` keeps the ledger, and never gives back more than was paid.
use shop_os.Common.{
  ℕ, ◌≡◌, Bool, Option, none, some, [], ◌∷◌, ◌++◌, arith, update_where, ℤ, ◌-ℤ◌, Option-cases,
  append-nil, if◌then◌else◌, inl, int_laws, same_id, inr, pos, ==→eq, find_first-holds, Bool-cases,
  subst, sym, ◌==◌,
}
use shop_os.Tenancy.{TenantContext}
use shop_os.Db.{Db, Text, Invoice, Payment, Refund}
use shop_os.Db.Keyed.{by_id, find}
use shop_os.Invoices.{with_paid}
use shop_os.Billing.{
  refund_body, refund_row, invoice_of, take_down, log_refund, status_after_refund,
}
use shop_os.Ledger.Invariant.{
  invoice_id_of, StatusAgrees, IsLedger, Settles, refunded_on-append, own_part, Settles-IsLedger,
}

module _ (context : TenantContext) (now refund : ℕ) (p : Payment) (amount : ℤ)
    (reason reference : Option Text) (through : Bool) (db : Db) where
  abbrev after : Db
  after = (refund_body context now refund p amount reason reference through db).1

  abbrev row : Refund
  row = refund_row context now refund p amount reason reference

  -- with an invoice, the refund settles on it
  refund_tables :
      (i : Invoice)
      → invoice_of p db ≡ some i
      → (after.invoices
          ≡ update_where
              (by_id invoice_id_of i.id)
              (with_paid
                (i.paid_minor -ℤ amount)
                (status_after_refund i.total_minor (i.paid_minor -ℤ amount)))
              db.invoices)
        × (after.payments ≡ db.payments)
        × (after.refunds ≡ db.refunds ++ (row ∷ []))
  unfolding refund_body take_down log_refund
  refund_tables i h = ground arith

  -- without one, only the refund is recorded
  refund_tables_none :
      invoice_of p db ≡ none
      → (after.invoices ≡ db.invoices)
        × (after.payments ≡ db.payments)
        × (after.refunds ≡ db.refunds ++ (row ∷ []))
  unfolding refund_body take_down log_refund
  refund_tables_none h = ground arith

  status_after-StatusAgrees :
      (i : Invoice) (paid : ℤ)
      → StatusAgrees (with_paid paid (status_after_refund i.total_minor paid) i)
  status_after-StatusAgrees i paid = ground arith

  refund-Settles :
      (i : Invoice)
      → p.invoice_id ≡ some i.id
      → invoice_of p db ≡ some i
      → Settles i []
          (row ∷ [])
          (i.paid_minor -ℤ amount)
          (status_after_refund i.total_minor (i.paid_minor -ℤ amount))
          db
          after
  refund-Settles i link h =
      let (a, b, c) = refund_tables i h in
      record {
        invoices = a;
        payments = rw append-nil b;
        refunds = c;
        payments_here = tt;
        refunds_here = (link, tt);
        paid_eq = rw (link, own_part i.id amount) (omega int_laws);
        status_agrees = status_after-StatusAgrees i (i.paid_minor -ℤ amount);
      }

  -- a refund that stands on no invoice of the table changes the sum of none
  no_part :
      (k : ℕ) (i : Invoice)
      → invoice_of p db ≡ none
      → find invoice_id_of k db.invoices ≡ some i
      → (if same_id p.invoice_id (some k) then amount else pos 0) ≡ pos 0
  no_part k i h e = elim (Option-cases p.invoice_id) [
    | inl none_there ↦ ground arith
    | inr (j, link) ↦ elim (Bool-cases (j == k)) [
      | inl same ↦ let eq = ==→eq j k same in ground arith
      | inr other ↦ ground arith
    ]
  ]

  refund_none-IsLedger : invoice_of p db ≡ none → IsLedger db → IsLedger after
  refund_none-IsLedger h l =
      let (a, b, c) = refund_tables_none h in
      record {
        keyed = rw a l.keyed;
        balanced = λ k i e.
            let old : find invoice_id_of k db.invoices ≡ some i = rw a at e in
            rw
              (
                b,
                c,
                refunded_on-append k db.refunds (row ∷ []),
                no_part k i h old,
                l.balanced k i old,
              )
              (omega int_laws);
        agrees = λ k i e. l.agrees k i (rw a at e);
      }

  invoice_of-linked :
      (i : Invoice)
      → invoice_of p db ≡ some i
      → (p.invoice_id ≡ some i.id) × (find invoice_id_of i.id db.invoices ≡ some i)
  invoice_of-linked i h = elim (Option-cases p.invoice_id) [
    | inl e ↦ cc
    | inr (k, e) ↦
        let found : find invoice_id_of k db.invoices ≡ some i = ground arith in
        let same : i.id ≡ k =
          ==→eq i.id k (find_first-holds (by_id invoice_id_of k) db.invoices i found) in
        (rw same e, subst (λ j. find invoice_id_of j db.invoices ≡ some i) (sym same) found)
  ]

  pub refund_body-IsLedger : IsLedger db → IsLedger after
  refund_body-IsLedger l = elim (Option-cases (invoice_of p db)) [
    | inl missing ↦ refund_none-IsLedger missing l
    | inr (i, h) ↦
        let (link, found) = invoice_of-linked i h in
        Settles-IsLedger db after i _ _ _ _ l found (refund-Settles i link h)
  ]

  pub refund_body-rows : (after.payments ≡ db.payments) × (after.refunds ≡ db.refunds ++ (row ∷ []))
  refund_body-rows = elim (Option-cases (invoice_of p db)) [
    | inl missing ↦ let (_, kept, added) = refund_tables_none missing in (kept, added)
    | inr (i, h) ↦ let (_, kept, added) = refund_tables i h in (kept, added)
  ]
