-- ===== src/Ledger/Issue.antt =====
-- `issueInvoice` keeps the ledger.
use shop_os.Ledger.Invariant.{IsLedger, invoice_id_of, StatusAgrees, IsLedger-of_same}
use shop_os.Tenancy.{TenantContext, assert_tenant_access, own_organization, invoices_issue}
use shop_os.Common.{
  none, some, ℕ, List, Bool, ◌≡◌, update_where, Option-cases, arith, some, ◌&&◌, find_first, inl,
  ◌⊎◌, ◌==◌, inr, Bool-cases, refl, subst, sym,
}
use shop_os.Db.{Db, Invoice, Action, query, ◌>>=◌, transaction, pure, attempt}
use shop_os.Invoices.{issue_body, as_issued, owned_invoice, is_draft, issue_invoice}
use shop_os.Db.Keyed.{find, update_any-IsKeyed, find-update_any}
use shop_os.Result.{ok, invoiced}
use shop_os.Db.Keeps.{Keeps, demand-Keeps, >>=-Keeps, transaction-Keeps}
use shop_os.Ledger.Frame.{transition_status-SameMoney, SameMoney}
use shop_os.WorkOrders.Service.{transition_status}

module _ (context : TenantContext) (now invoice : ℕ) where
  abbrev is_issuable : Invoice → Bool
  is_issuable i = owned_invoice context.organization_id invoice i && is_draft i.status

  issue_body-writes :
      (db db' : Db) (u : Unit {0})
      → issue_body context now invoice db ≡ (ok u, db')
      → (db'.invoices ≡ update_where is_issuable (as_issued now) db.invoices)
        × (db'.payments ≡ db.payments)
        × (db'.refunds ≡ db.refunds)
  unfolding issue_body
  issue_body-writes db db' u done =
      elim (Option-cases (
        find_first (λ i. i.id == invoice) (update_where is_issuable (as_issued now) db.invoices))) [
          | inl missing ↦ ground arith
          | inr (i, found) ↦ ground arith
        ]

  as_issued-StatusAgrees : (i : Invoice) → StatusAgrees (as_issued now i)
  as_issued-StatusAgrees i = ground arith

  issued_row :
      (xs : List Invoice) (k : ℕ) (x : Invoice)
      → find invoice_id_of k (update_where is_issuable (as_issued now) xs) ≡ some x
      → (y : Invoice) × (find invoice_id_of k xs ≡ some y) × ((x ≡ y) ⊎ (x ≡ as_issued now y))
  issued_row xs k x h =
      let old = find-update_any invoice_id_of is_issuable (as_issued now) k xs (λ y. refl) in
      elim (Option-cases (find invoice_id_of k xs)) [
        | inl missing ↦ absurd (ground arith)
        | inr (y, found) ↦ elim (Bool-cases (is_issuable y)) [
          | inl drafted ↦ (y, found, inr (ground arith))
          | inr other ↦ (y, found, inl (ground arith))
        ]
      ]

  issue_body-IsLedger :
      (db db' : Db) (u : Unit {0})
      → IsLedger db
      → issue_body context now invoice db ≡ (ok u, db')
      → IsLedger db'
  issue_body-IsLedger db db' u l done =
      let (a, b, c) = issue_body-writes db db' u done in
      record {
        keyed = rw a (
            update_any-IsKeyed invoice_id_of is_issuable (as_issued now) db.invoices (λ y. refl)
              l.keyed);
        balanced = λ k x h.
            let (y, found, which) = issued_row db.invoices k x (rw a at h) in
            elim which [
              | inl same ↦ rw (same, b, c) (l.balanced k y found)
              | inr same ↦ rw (same, b, c) (l.balanced k y found)
            ];
        agrees = λ k x h.
            let (y, found, which) = issued_row db.invoices k x (rw a at h) in
            elim which [
              | inl same ↦ subst StatusAgrees (sym same) (l.agrees k y found)
              | inr same ↦ subst StatusAgrees (sym same) (as_issued-StatusAgrees y)
            ];
      }

  abbrev after_issue : Unit {0} → Action (Unit {0})
  after_issue _ = query (λ db. find_first (λ i. i.id == invoice) db.invoices) >>= λ found.
      elim found [
        | none ↦ pure tt
        | some i ↦ attempt (transition_status context now i.work_order_id invoiced)
      ]

  after_issue-SameMoney : (u : Unit {0}) (db : Db) → SameMoney db (after_issue u db).1
  after_issue-SameMoney u db = elim (Option-cases (find_first (λ i. i.id == invoice) db.invoices)) [
    | inl missing ↦ ground arith
    | inr (i, found) ↦
        ground (arith, transition_status-SameMoney context now i.work_order_id invoiced db)
  ]

  after_issue-IsLedger : (u : Unit {0}) → Keeps IsLedger (after_issue u)
  after_issue-IsLedger u db l =
      let (a, b, c) = after_issue-SameMoney u db in IsLedger-of_same db _ a b c l

-- If the database is a ledger, it still is one after a call of issueInvoice, however the call
-- ends, the transition of the work order included.
pub issue_invoice-IsLedger :
    (context : TenantContext) (now invoice : ℕ) (db : Db)
    → IsLedger db
    → IsLedger (issue_invoice context now invoice db).1
unfolding issue_invoice
issue_invoice-IsLedger context now invoice =
    demand-Keeps IsLedger (assert_tenant_access context (own_organization context) invoices_issue)
      (transaction (issue_body context now invoice) >>= after_issue context now invoice)
      (>>=-Keeps IsLedger (transaction (issue_body context now invoice))
        (after_issue context now invoice)
        (transaction-Keeps IsLedger (issue_body context now invoice)
          (issue_body-IsLedger context now invoice))
        (after_issue-IsLedger context now invoice))
