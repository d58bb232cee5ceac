-- ===== src/Invoices/Issue.antt =====
-- `issueInvoice` of src/modules/invoices/invoice-service.ts.
use shop_os.Common.{
  ℕ, Bool, true, false, not, ◌&&◌, none, some, ◌==◌, find_first, update_where, count_where, is_some,
}
use shop_os.Result.{invoiced, invoice_failed, invoice_not_found, invoice_not_issued}
use shop_os.Result
use shop_os.Tenancy.{TenantContext, invoices_issue, assert_tenant_access, own_organization}
use shop_os.Db.{
  Invoice, InvoiceStatus, AuditKind, OutboxKind, Action, pure, query, demand, ◌>>=◌, ◌>>◌, modify,
  reject_if, transaction, attempt, log_audit, send_outbox,
}
use shop_os.WorkOrders.Service.{transition_status}

abbrev pub is_draft : InvoiceStatus → Bool
is_draft InvoiceStatus.draft = true
is_draft _ = false

-- `where: { id, organizationId }`
abbrev pub owned_invoice : (organization_id invoice_id : ℕ) → Invoice → Bool
owned_invoice org invoice i = i.id == invoice && i.organization_id == org

-- the columns that issuing writes
abbrev pub as_issued : ℕ → Invoice → Invoice
as_issued now i = record i { status = InvoiceStatus.issued; issued_at = some now }

-- the transaction of `issueInvoice`
unfoldable pub issue_body : TenantContext → (now invoice_id : ℕ) → Action (Unit {0})
issue_body context now invoice = do
  count ← query (λ db.
      count_where (λ i. owned_invoice context.organization_id invoice i && is_draft i.status)
        db.invoices)
  modify (λ db. record db {
    invoices =
        update_where (λ i. owned_invoice context.organization_id invoice i && is_draft i.status)
          (as_issued now) db.invoices;
  })
  found ← query (λ db. find_first (owned_invoice context.organization_id invoice) db.invoices)
  reject_if (not (count == 1) && not (is_some found))
      (invoice_failed Result.InvoiceReason.invoice_not_found)
  reject_if (not (count == 1)) (invoice_failed Result.InvoiceReason.invoice_not_issued)
  log_audit (record {
    organization_id = context.organization_id;
    location_id = none;
    actor_user_id = context.actor_id;
    entity_id = invoice;
    request_id = context.request_id;
    kind = AuditKind.invoice_issued;
  })
  issued ← query (λ db. find_first (λ i. i.id == invoice) db.invoices)
  elim issued [
    | none ↦ pure tt
    | some i ↦ send_outbox (record {
      organization_id = context.organization_id;
      kind = OutboxKind.invoice_issued;
      aggregate_id = invoice;
      invoice_id = some invoice;
      work_order_id = i.work_order_id;
      location_id = i.location_id;
    })
  ]

unfoldable pub issue_invoice : TenantContext → (now invoice_id : ℕ) → Action (Unit {0})
issue_invoice context now invoice = do
  demand (assert_tenant_access context (own_organization context) invoices_issue)
  transaction (issue_body context now invoice)
  found ← query (λ db. find_first (λ i. i.id == invoice) db.invoices)
  elim found [
    | none ↦ pure tt
    | some i ↦ attempt (transition_status context now i.work_order_id invoiced)
  ]
