-- ===== src/Ledger/Create.antt =====
-- `createInvoiceFromWorkOrder` keeps the ledger: a new invoice starts with nothing paid.
use shop_os.Ledger.Invariant.{invoice_id_of, paid_on, refunded_on, IsLedger, StatusAgrees}
use shop_os.Common.{
  ℕ, Bool, List, any, ◌≡◌, false, pos, none, ◌∷◌, arith, ◌++◌, [], Option-cases, refl, find_first,
  inl, inr, some, subst, ◌⊎◌, Bool-cases, sym, int_laws, ◌==◌, ==→eq,
}
use shop_os.Db.{Invoice, Text, Db, InvoiceStatus}
use shop_os.Tenancy.{TenantContext, assert_tenant_access, own_organization, invoices_issue}
use shop_os.Invoices.{
  create_body, invoice_clashes, insert_invoice, new_invoice, create_invoice_from_work_order,
}
use shop_os.Db.Keyed.{find, append-IsKeyed}
use shop_os.Result.{ok, Result, err, Result-cases}
use shop_os.WorkOrders.Service.{owned_work_order}

-- no payment and no refund stands on the id of a new invoice, which a foreign key keeps
abbrev pub Unreferenced : ℕ → Db → Type 0
Unreferenced k db = (paid_on k db.payments ≡ pos 0) × (refunded_on k db.refunds ≡ pos 0)

module _ (later : Text → Text → Bool) (beyond : Text → Text) (context : TenantContext)
    (invoice wo : ℕ) (db db' : Db) (row : Invoice) where
  create_body-writes :
      create_body later beyond context invoice wo db ≡ (ok row, db')
      → (any (invoice_clashes row) db.invoices ≡ false)
        × (row.id ≡ invoice)
        × (row.paid_minor ≡ pos 0)
        × (row.status ≡ InvoiceStatus.draft)
        × (db'.invoices ≡ db.invoices ++ (row ∷ []))
        × (db'.payments ≡ db.payments)
        × (db'.refunds ≡ db.refunds)
  unfolding create_body insert_invoice new_invoice
  create_body-writes done =
      elim (Option-cases
        (find_first (owned_work_order context.organization_id wo) db.work_orders)) [
          | inl missing ↦ ground arith
          | inr (w, found) ↦ ground arith
        ]

fresh_id :
    (row : Invoice) (xs : List Invoice)
    → any (invoice_clashes row) xs ≡ false
    → find invoice_id_of row.id xs ≡ none
fresh_id row [] h = refl
fresh_id row (x ∷ xs) h = ground (arith, fresh_id row xs)

appended_row :
    (xs : List Invoice) (row : Invoice) (k : ℕ) (x : Invoice)
    → find invoice_id_of k (xs ++ (row ∷ [])) ≡ some x
    → (find invoice_id_of k xs ≡ some x) ⊎ ((x ≡ row) × (k ≡ row.id))
appended_row [] row k x h = elim (Bool-cases (row.id == k)) [
  | inl here ↦ let e = ==→eq row.id k here in inr (ground arith, sym e)
  | inr elsewhere ↦ ground arith
]
appended_row (y ∷ ys) row k x h = elim (Bool-cases (y.id == k)) [
  | inl here ↦ inl (ground arith)
  | inr elsewhere ↦ elim (appended_row ys row k x (ground arith)) [
    | inl found ↦ inl (ground arith)
    | inr there ↦ inr there
  ]
]

-- An unpaid draft whose id nothing refers to joins the ledger.
append-IsLedger :
    (db db' : Db) (row : Invoice)
    → IsLedger db
    → Unreferenced row.id db
    → find invoice_id_of row.id db.invoices ≡ none
    → row.paid_minor ≡ pos 0
    → row.status ≡ InvoiceStatus.draft
    → db'.invoices ≡ db.invoices ++ (row ∷ [])
    → db'.payments ≡ db.payments
    → db'.refunds ≡ db.refunds
    → IsLedger db'
append-IsLedger db db' row l (no_payment, no_refund) fresh unpaid drafted a b c = record {
  keyed = rw a (append-IsKeyed invoice_id_of db.invoices row l.keyed fresh);
  balanced = λ k x h. elim (appended_row db.invoices row k x (rw a at h)) [
    | inl found ↦ rw (b, c) (l.balanced k x found)
    | inr (same, here) ↦ rw (same, here, b, c, no_payment, no_refund, unpaid) (omega int_laws)
  ];
  agrees = λ k x h. elim (appended_row db.invoices row k x (rw a at h)) [
    | inl found ↦ l.agrees k x found
    | inr (same, here) ↦ subst StatusAgrees (sym same) (draft-StatusAgrees row drafted)
  ];
}
  where
    draft-StatusAgrees : (i : Invoice) → i.status ≡ InvoiceStatus.draft → StatusAgrees i
    draft-StatusAgrees i e = ground arith

-- If the database is a ledger and no payment or refund refers to the id of the new invoice, it
-- still is a ledger after a call of createInvoiceFromWorkOrder, however the call ends.
pub create_invoice-IsLedger :
    (later : Text → Text → Bool) (beyond : Text → Text) (context : TenantContext) (invoice wo : ℕ)
    (db : Db)
    → Unreferenced invoice db
    → IsLedger db
    → IsLedger (create_invoice_from_work_order later beyond context invoice wo db).1
unfolding create_invoice_from_work_order
create_invoice-IsLedger later beyond context invoice wo db unreferenced l =
    elim (Result-cases (assert_tenant_access context (own_organization context) invoices_issue)) [
      | inr (e, denied) ↦ rw denied l
      | inl (_, allowed) ↦
          rw allowed (at_transaction (create_body later beyond context invoice wo db) refl)
    ]
  where
    created :
        (row : Invoice) (db' : Db)
        → create_body later beyond context invoice wo db ≡ (ok row, db')
        → IsLedger db'
    created row db' done =
        let (unique, id_eq, unpaid, drafted, a, b, c) =
          create_body-writes later beyond context invoice wo db db' row done in
        append-IsLedger db db' row l (subst (λ k. Unreferenced k db) (sym id_eq) unreferenced)
          (fresh_id row db.invoices unique) unpaid drafted a b c

    at_transaction :
        (x : Result Invoice × Db)
        → create_body later beyond context invoice wo db ≡ x
        → IsLedger
            (elim x.0 as (λ r. Result Invoice × Db) [ ok a ↦ (ok a, x.1) | err e ↦ (err e, db) ]).1
    at_transaction (ok row, db') e = created row db' e
    at_transaction (err e', db') e = l
