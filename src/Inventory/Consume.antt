-- ===== src/Inventory/Consume.antt =====
-- `autoConsumeStockForInvoice`: what a new invoice takes from the shelf.
use shop_os.Common.{
  [], ◌∷◌, ℕ, ℤ, List, if◌then◌else◌, ◌+◌, Bool, leb_ℤ, ◌/◌, any, ltb, ◌-ℤ◌, ◌==◌, find_first,
  ltb_ℤ, pos, ◌&&◌, filter, not, holds, some, none, false, suc, ◌+ℤ◌, Option,
}
use shop_os.Result.{ok, err, Result}
use shop_os.Db.{
  transaction, ◌>>◌, ◌>>=◌, Action, Invoice, InvoiceLine, Reservation, ActivityKind, InventoryItem,
  InventoryMovement, demand, pure, query, log_activity, when, modify, stock_corrected,
  issued_to_job, transaction, stock_short,
}
use shop_os.Tenancy.{TenantContext, assert_tenant_access, own_organization, invoices_issue}
use shop_os.Inventory.Items.{owned_item, update_item, record_stock_movement, movement_row}
use shop_os.Inventory.Holds.{update_reservation, as_consumed, sum_quantities}
use shop_os.WorkOrders.Service.{is_active}

-- what became of a line
pub data LineOutcome : Type 0 where
  untouched consumed_line skipped_line : LineOutcome

-- `Math.max(1, Math.round(quantityMilli / 1000))`
abbrev pub invoiced_quantity : ℕ → ℕ
invoiced_quantity milli = let whole = (milli + 500) / 1000 in if ltb whole 1 then 1 else whole

abbrev pub min_ℤ : ℤ → ℤ → ℤ
min_ℤ a b = if leb_ℤ a b then a else b

-- what an invoice that takes `taken` of a hold makes of its row
abbrev pub after_take : (now : ℕ) → (taken : ℤ) → Reservation → Reservation → Reservation
after_take now taken h r =
    if ltb_ℤ taken h.quantity
    then record r { quantity = h.quantity -ℤ taken }
    else as_consumed now r

-- Holds are consumed in order; the last one may be shrunk.
unfoldable pub take_holds : (now : ℕ) → (to_take : ℤ) → List Reservation → Action (Unit {0})
take_holds now to_take [] = pure tt
take_holds now to_take (h ∷ hs) =
    let taken = min_ℤ h.quantity to_take in
    let rest = take_holds now (to_take -ℤ taken) hs in
    if leb_ℤ to_take (pos 0)
    then pure tt
    else (modify (update_reservation h.id (after_take now taken h)) >> rest)

-- the holds of a job on an item
abbrev pub holds_for_line : (organization_id item_id work_order_id : ℕ) → Reservation → Bool
holds_for_line org item wo r =
    r.organization_id == org
    && r.inventory_item_id == item
    && r.work_order_id == wo
    && is_active r.status

-- the event of a line on the invoice's work order
abbrev pub log_stock : TenantContext → Invoice → ActivityKind → Action (Unit {0})
log_stock context invoice kind = log_activity (record {
  organization_id = context.organization_id;
  location_id = invoice.location_id;
  work_order_id = invoice.work_order_id;
  actor_user_id = context.actor_id;
  kind = kind;
})

-- the line takes its quantity
unfoldable pub take_line :
    TenantContext
    → (now : ℕ) → Invoice
    → InvoiceLine
    → InventoryItem
    → List Reservation
    → (quantity : ℤ) → Action LineOutcome
take_line context now invoice line i holds_here quantity = do
  take_holds now quantity holds_here
  let shelf_take = min_ℤ quantity i.quantity_on_hand
  when (ltb_ℤ (pos 0) shelf_take) (update_item i.id (i.quantity_on_hand -ℤ shelf_take) (λ x. x))
  when (ltb_ℤ i.quantity_on_hand quantity) (
      log_stock context invoice
        (stock_corrected i.part_number quantity invoice.number i.quantity_on_hand))
  record_stock_movement (
      movement_row context i.id (pos 0 -ℤ quantity) issued_to_job (some invoice.location_id)
        (some invoice.work_order_id) (some (line.invoice_id, line.position)))
  pure consumed_line

-- a movement that the line made before
abbrev pub is_of_line : (organization_id : ℕ) → InvoiceLine → InventoryMovement → Bool
is_of_line org line m = m.organization_id == org && (elim m.invoice_line [
  | none ↦ false
  | some (invoice, position) ↦ invoice == line.invoice_id && position == line.position
])

-- the transaction of one line
unfoldable pub consume_line :
    TenantContext → (now : ℕ) → Invoice → InvoiceLine → (item_id : ℕ) → Action LineOutcome
consume_line context now invoice line item = do
  existing ← query (λ db. any (is_of_line context.organization_id line) db.inventory_movements)
  found ← query (λ db. find_first (owned_item context.organization_id item) db.inventory_items)
  holds_here ← query (λ db.
      filter (holds_for_line context.organization_id item invoice.work_order_id) db.reservations)
  let quantity = pos (invoiced_quantity line.content.quantity_milli)
  let held = sum_quantities holds_here
  if existing then pure untouched else elim found [
    | none ↦ pure untouched
    | some i ↦
        let short = ltb_ℤ (held +ℤ i.quantity_on_hand) quantity in
        if short
        then (log_stock context invoice
              (stock_short i.part_number quantity invoice.number i.quantity_on_hand held)
            >> pure skipped_line)
        else take_line context now invoice line i holds_here quantity
  ]

-- the numbers of lines consumed and skipped; a line whose transaction throws is skipped
abbrev pub add_outcome : Result LineOutcome → ℕ × ℕ → ℕ × ℕ
add_outcome (ok untouched) counts = counts
add_outcome (ok consumed_line) (done, skipped) = (suc done, skipped)
add_outcome (ok skipped_line) (done, skipped) = (done, suc skipped)
add_outcome (err _) (done, skipped) = (done, suc skipped)

-- a line that names no item is passed over
unfoldable pub consume_linked :
    TenantContext → (now : ℕ) → Invoice → InvoiceLine → (item_id : Option ℕ) → Action LineOutcome
consume_linked context now invoice line none = pure untouched
consume_linked context now invoice line (some item) =
    transaction (consume_line context now invoice line item)

-- the lines one after the other
unfoldable pub consume_lines :
    TenantContext → (now : ℕ) → Invoice → (counts : ℕ × ℕ) → List InvoiceLine → Action (ℕ × ℕ)
consume_lines context now invoice counts [] db = pure counts db
consume_lines context now invoice counts (line ∷ lines) db =
    let (outcome, db') =
      consume_linked context now invoice line line.content.inventory_item_id db in
    consume_lines context now invoice (add_outcome outcome counts) lines db'

unfoldable pub auto_consume_stock_for_invoice :
    TenantContext → (now invoice_id : ℕ) → Action (ℕ × ℕ)
auto_consume_stock_for_invoice context now invoice = do
  demand (assert_tenant_access context (own_organization context) invoices_issue)
  org ← query (λ db. find_first (λ o. o.id == context.organization_id) db.organizations)
  found ← query (λ db.
      find_first (λ i. i.id == invoice && i.organization_id == context.organization_id) db.invoices)
  lines ← query (λ db.
      filter (λ l. l.organization_id == context.organization_id && l.invoice_id == invoice)
        db.invoice_lines)
  if not (holds (λ o. o.auto_issue_stock_on_invoice) org)
      then pure (0, 0)
      else elim found [ none ↦ pure (0, 0) | some i ↦ consume_lines context now i (0, 0) lines ]
