-- ===== src/Invoices/Create.antt =====
-- `createInvoiceFromWorkOrder` and `issueInvoice` of src/modules/invoices/invoice-service.ts.
use mathlib.Core.Option
use shop_os.Common.{
  ℕ, ◌+◌, Bool, true, false, not, ◌&&◌, ◌||◌, Option, none, some, List, [], ◌∷◌, ◌++◌, ◌==◌, ltb,
  if◌then◌else◌, any, filter, find_first, or_default, holds, ℤ, pos, ◌+ℤ◌,
}
use shop_os.Common.Text.{same_text}
use shop_os.Result.{
  WorkOrderStatus, completed, authorized, in_progress, invoiced, invoice_failed, unique_violation,
  Failure, work_order_not_completed, invoice_already_exists, invoice_not_found, invoice_not_issued,
}
use shop_os.Result
use shop_os.Tenancy.{TenantContext, invoices_issue, assert_tenant_access, own_organization}
use shop_os.Db.{
  Text, Db, WorkOrder, EstimateRevision, EstimateLine, LineContent, Invoice, InvoiceLine,
  InvoiceStatus, ActivityKind, Action, pure, query, demand, or_throw, ◌>>=◌, ◌>>◌, modify,
  reject_if, transaction, log_activity,
}
use shop_os.WorkOrders.Service.{
  is_baseline, is_presented, is_approved, owned_work_order, has_pending_change_order,
}
use shop_os.Invoices.Numbering.{generate_invoice_number}

-- the states in which a work order can be invoiced
abbrev pub can_invoice : WorkOrderStatus → Bool
can_invoice completed = true
can_invoice authorized = true
can_invoice in_progress = true
can_invoice _ = false

-- a stable sort in ascending order of a key, as `orderBy` does it
module _ {A : Type 0} (key : A → ℕ) where
  unfoldable pub insert_by : A → List A → List A
  insert_by a [] = a ∷ []
  insert_by a (b ∷ bs) = if ltb (key b) (key a) then b ∷ insert_by a bs else a ∷ b ∷ bs

  unfoldable pub sort_by : List A → List A
  sort_by [] = []
  sort_by (a ∷ as') = insert_by a (sort_by as')

-- `findFirst` with `revisionNumber` descending
unfoldable pub latest_revision : List EstimateRevision → Option EstimateRevision
latest_revision [] = none
latest_revision (r ∷ rs) = elim (latest_revision rs) [
  | none ↦ some r
  | some s ↦ some (if ltb r.revision_number s.revision_number then s else r)
]

abbrev pub presented_of :
    (organization_id work_order_id : ℕ) → (baseline : Bool) → EstimateRevision → Bool
presented_of org wo wants_baseline r =
    r.work_order_id == wo
    && r.organization_id == org
    && (if wants_baseline then is_baseline r.document_kind else not (is_baseline r.document_kind))
    && is_presented r.status

unfoldable pub baseline_of : (organization_id work_order_id : ℕ) → Db → Option EstimateRevision
baseline_of org wo db = latest_revision (filter (presented_of org wo true) db.estimate_revisions)

unfoldable pub change_orders_of : (organization_id work_order_id : ℕ) → Db → List EstimateRevision
change_orders_of org wo db =
    sort_by (λ r. r.change_order_number) (filter (presented_of org wo false) db.estimate_revisions)

-- the lines of a revision, by position
unfoldable pub lines_of : Db → EstimateRevision → List EstimateLine
lines_of db r =
    sort_by (λ l. l.position) (filter (λ l. l.estimate_revision_id == r.id) db.estimate_lines)

unfoldable pub lines_of_all : Db → List EstimateRevision → List EstimateLine
lines_of_all db [] = []
lines_of_all db (r ∷ rs) = lines_of db r ++ lines_of_all db rs

-- `approved`: the first decision on the line approves it, or it needs none
abbrev pub is_line_approved : Db → EstimateLine → Bool
is_line_approved db l =
    holds (λ d. is_approved d.decision)
      (find_first (λ d. d.estimate_line_id == l.id) db.authorization_decisions)
    || not l.authorization_required

unfoldable pub source_lines : (organization_id work_order_id : ℕ) → Db → List EstimateLine
source_lines org wo db =
    lines_of_all db
      ((elim (baseline_of org wo db) [ none ↦ [] | some b ↦ b ∷ [] ]) ++ change_orders_of org wo db)

unfoldable pub selected_lines : (organization_id work_order_id : ℕ) → Db → List EstimateLine
selected_lines org wo db =
    let all_lines =
      holds (λ o. o.all_lines_policy) (find_first (λ o. o.id == org) db.organizations) in
    if all_lines
    then source_lines org wo db
    else filter (is_line_approved db) (source_lines org wo db)

-- a column summed over lines, as the loop over `selectedLines` does it
unfoldable pub sum_lines : (LineContent → ℤ) → ℤ → List EstimateLine → ℤ
sum_lines column sum [] = sum
sum_lines column sum (l ∷ ls) = sum_lines column (sum +ℤ column l.content) ls

-- the snapshot of the lines, numbered from `position + 1`
unfoldable pub snapshot :
    (organization_id invoice_id position : ℕ) → List EstimateLine → List InvoiceLine
snapshot org invoice position [] = []
snapshot org invoice position (l ∷ ls) =
    record {
      organization_id = org;
      invoice_id = invoice;
      source_estimate_line_id = l.id;
      content = l.content;
      position = position + 1;
    }
    ∷ snapshot org invoice (position + 1) ls

-- the unique indexes of the table of invoices
abbrev pub invoice_clashes : Invoice → Invoice → Bool
invoice_clashes i j =
    i.id == j.id
    || (i.organization_id == j.organization_id
        && i.location_id == j.location_id
        && (same_text i.number j.number || i.work_order_id == j.work_order_id))

-- `invoice.create`
unfoldable pub insert_invoice : Invoice → Action (Unit {0})
insert_invoice i = do
  clash ← query (λ db. any (invoice_clashes i) db.invoices)
  reject_if clash unique_violation
  modify (λ db. record db { invoices = db.invoices ++ (i ∷ []) })

-- `count ? count : undefined`: zero counts as missing
abbrev pub truthy_count : Option ℕ → Option ℕ
truthy_count none = none
truthy_count (some n) = if n == 0 then none else some n

unfoldable pub new_invoice :
    (number : Text) → (invoice_id organization_id : ℕ) → WorkOrder → Db → Invoice
new_invoice number invoice org w db =
    let lines = selected_lines org w.id db in
    let baseline = baseline_of org w.id db in
    let organization = find_first (λ o. o.id == org) db.organizations in
    record {
      id = invoice;
      organization_id = org;
      location_id = w.location_id;
      work_order_id = w.id;
      number = number;
      status = InvoiceStatus.draft;
      currency = or_default (Option.map (λ r. r.currency) baseline) (85 ∷ 83 ∷ 68 ∷ []);
      subtotal_minor = sum_lines (λ c. c.gross_minor) (pos 0) lines;
      discount_minor = sum_lines (λ c. c.discount_minor) (pos 0) lines;
      tax_minor = sum_lines (λ c. c.tax_minor) (pos 0) lines;
      tax_inclusive = or_default (Option.map (λ r. r.tax_inclusive) baseline) false;
      total_minor = sum_lines (λ c. c.total_minor) (pos 0) lines;
      paid_minor = pos 0;
      issued_at = none;
      warranty_months =
          truthy_count (elim organization [ none ↦ none | some o ↦ o.default_warranty_months ]);
      warranty_miles =
          truthy_count (elim organization [ none ↦ none | some o ↦ o.default_warranty_miles ]);
    }

-- the transaction of `createInvoiceFromWorkOrder`
unfoldable pub create_body :
    (later : Text → Text → Bool) (beyond : Text → Text)
    → TenantContext
    → (invoice_id work_order_id : ℕ) → Action Invoice
create_body later beyond context invoice wo = do
  found ← query (λ db. find_first (owned_work_order context.organization_id wo) db.work_orders)
  w ← or_throw found (invoice_failed Result.InvoiceReason.work_order_not_found)
  reject_if (not (can_invoice w.status)) (invoice_failed work_order_not_completed)
  pending ← query (has_pending_change_order context.organization_id w.id)
  reject_if pending (invoice_failed Result.InvoiceReason.change_order_pending)
  existing ← query (λ db.
      any (λ i. i.work_order_id == w.id && i.organization_id == context.organization_id)
        db.invoices)
  reject_if existing (invoice_failed invoice_already_exists)
  number ← query (generate_invoice_number later beyond context.organization_id w.location_id)
  row ← query (new_invoice number invoice context.organization_id w)
  insert_invoice row
  lines ← query (selected_lines context.organization_id w.id)
  modify (λ db. record db {
    invoice_lines = db.invoice_lines ++ snapshot context.organization_id invoice 0 lines;
  })
  all_lines ← query (λ db.
      holds (λ o. o.all_lines_policy)
        (find_first (λ o. o.id == context.organization_id) db.organizations))
  log_activity (record {
    organization_id = context.organization_id;
    location_id = w.location_id;
    work_order_id = w.id;
    actor_user_id = context.actor_id;
    kind = ActivityKind.invoice_created number w.number (not all_lines);
  })
  pure row

unfoldable pub create_invoice_from_work_order :
    (later : Text → Text → Bool) (beyond : Text → Text)
    → TenantContext
    → (invoice_id work_order_id : ℕ) → Action Invoice
create_invoice_from_work_order later beyond context invoice wo = do
  demand (assert_tenant_access context (own_organization context) invoices_issue)
  transaction (create_body later beyond context invoice wo)
