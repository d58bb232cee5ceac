-- ===== src/Stock/Consuming.antt =====
-- `autoConsumeStockForInvoice` as a whole.
use shop_os.Common.{
  ℕ, pos, ◌+ℤ◌, List, [], ◌∷◌, ◌≡◌, refl, some, none, Option, Bool, if◌then◌else◌, true, false, any,
  ◌==◌, inl, inr, Option-cases, Bool-cases, arith, ltb_ℤ, ◌∙◌, sym, find_first, filter, subst, ◌&&◌,
  not, holds,
}
use shop_os.Db.{Db, Reservation, InventoryItem, Invoice, InvoiceLine, pure}
use shop_os.Result.{ok, Result-cases, Result}
use shop_os.Inventory.{
  take_line, consume_line, consume_lines, is_of_line, LineOutcome, invoiced_quantity, owned_item,
  holds_for_line, sum_quantities, auto_consume_stock_for_invoice, consume_linked, add_outcome,
}
use shop_os.Stock.Accounts.{IsShelf, IsStocked, IsStocked-of_found}
use shop_os.Ledger.Frame.{SameMoney}
use shop_os.Tenancy.{TenantContext, assert_tenant_access, own_organization, invoices_issue}
use shop_os.Stock.Consumed.{OnePerLine, take_line_writes, shelf_after_take, count-append_first}
use shop_os.Result.{Result-cases, Result}
use shop_os.Db.Keeps.{KeepsOk, transaction-Keeps, Keeps}

-- what the consumption of a line keeps
abbrev pub Consumes : Db → Db → Type 0
Consumes first db = IsShelf db × OnePerLine db × SameMoney first db

take_line-Consumes :
    (context : TenantContext) (now : ℕ) (invoice : Invoice) (line : InvoiceLine) (i : InventoryItem)
    (hs : List Reservation) (q : ℕ) (first db db' : Db) (out : LineOutcome)
    → any (is_of_line context.organization_id line) db.inventory_movements ≡ false
    → IsStocked i
    → Consumes first db
    → take_line context now invoice line i hs (pos q) db ≡ (ok out, db')
    → Consumes first db'
take_line-Consumes context now invoice line i hs q first db db' out fresh stocked
      (shelf, one, money) h =
    let (items, movements, (a, b, c)) =
      take_line_writes context now invoice line i hs q db db' out h in
    (
      rw items (shelf_after_take i (pos q) db.inventory_items stocked shelf),
      λ org other. rw movements (
          count-append_first context.organization_id org line other _ db.inventory_movements fresh
            refl refl (one org other)),
      (a ∙ money.0, b ∙ money.1, c ∙ money.2),
    )

-- the tables that the consumption of a line is about
abbrev SameTables : Db → Db → Type 0
SameTables db db' =
    (db'.inventory_items ≡ db.inventory_items)
    × (db'.inventory_movements ≡ db.inventory_movements)
    × SameMoney db db'

unchanged-Consumes :
    (first db db' : Db) → SameTables db db' → Consumes first db → Consumes first db'
unchanged-Consumes first db db' (items, movements, (a, b, c)) k = rw (items, movements, a, b, c) k

-- the call returned, and kept what the consumption of a line keeps
abbrev Ends : Db → Result (ℕ × ℕ) × Db → Type 0
Ends first (r, db) = Consumes first db × ((total : ℕ × ℕ) × (r ≡ ok total))

module _ (context : TenantContext) (now : ℕ) (invoice : Invoice) (first : Db) where
  consume_line-Consumes :
      (line : InvoiceLine) (item : ℕ)
      → KeepsOk (Consumes first) (consume_line context now invoice line item)
  unfolding consume_line
  consume_line-Consumes line item db db' out k h =
      let org = context.organization_id in
      let q = invoiced_quantity line.content.quantity_milli in
      elim (Bool-cases (any (is_of_line org line) db.inventory_movements)) [
        | inl before ↦ unchanged-Consumes first db db' (ground (arith, before, h)) k
        | inr fresh ↦ elim (Option-cases (find_first (owned_item org item) db.inventory_items)) [
          | inl missing ↦ unchanged-Consumes first db db' (ground (arith, fresh, missing, h)) k
          | inr (i, found) ↦
              let hs = filter (holds_for_line org item invoice.work_order_id) db.reservations in
              elim (Bool-cases (ltb_ℤ (sum_quantities hs +ℤ i.quantity_on_hand) (pos q))) [
                | inl short ↦
                    unchanged-Consumes first db db' (ground (arith, fresh, found, short, h)) k
                | inr enough ↦
                    take_line-Consumes context now invoice line i hs q first db db' out fresh
                      (IsStocked-of_found (owned_item org item) db.inventory_items i k.0.1 found) k
                      (ground (arith, fresh, found, enough, h))
              ]
        ]
      ]

  consume_linked-Consumes :
      (line : InvoiceLine) (item : Option ℕ)
      → Keeps (Consumes first) (consume_linked context now invoice line item)
  unfolding consume_linked
  consume_linked-Consumes line none = λ db k. k
  consume_linked-Consumes line (some item) =
      transaction-Keeps (Consumes first) (consume_line context now invoice line item)
        (consume_line-Consumes line item)

  -- It returns, whatever becomes of the lines.
  consume_lines-Consumes :
      (counts : ℕ × ℕ) (lines : List InvoiceLine) (db : Db)
      → Consumes first db
      → Ends first (consume_lines context now invoice counts lines db)
  unfolding consume_lines
  consume_lines-Consumes counts [] db k = (k, (counts, refl))
  consume_lines-Consumes counts (line ∷ lines) db k =
      let item = line.content.inventory_item_id in
      let (outcome, db') = consume_linked context now invoice line item db in
      consume_lines-Consumes (add_outcome outcome counts) lines db'
        (consume_linked-Consumes line item db k)

-- If the items of the database have different ids and quantities from 0 to 2^31 - 1 and no
-- invoice line has two movements, then the same holds after autoConsumeStockForInvoice, which
-- leaves the invoices, the payments and the refunds alone; and when the caller may issue
-- invoices, the call returns, whatever becomes of the lines.
pub auto_consume-Consumes :
    (context : TenantContext) (now invoice : ℕ) (db : Db)
    → IsShelf db
    → OnePerLine db
    → Consumes db (auto_consume_stock_for_invoice context now invoice db).1
      × (assert_tenant_access context (own_organization context) invoices_issue ≡ ok tt
          → (total : ℕ × ℕ) × ((auto_consume_stock_for_invoice context now invoice db).0
              ≡ ok total))
unfolding auto_consume_stock_for_invoice
auto_consume-Consumes context now invoice db shelf one =
    let start : Consumes db db = (shelf, one, (refl, refl, refl)) in
    elim (Result-cases (assert_tenant_access context (own_organization context) invoices_issue)) [
      | inr (e, denied) ↦
          let same : (auto_consume_stock_for_invoice context now invoice db).1 ≡ db =
            ground (arith, denied) in
          (subst (Consumes db) (sym same) start, λ granted. cc)
      | inl (u, granted) ↦ let (k, total) = ends u granted start in (k, λ _. total)
    ]
  where
    choose :
        (off : Bool) (found : Option Invoice) (lines : List InvoiceLine)
        → Consumes db db
        → Ends db (
            (if off then pure (0, 0) else elim found [
              | none ↦ pure (0, 0)
              | some i ↦ consume_lines context now i (0, 0) lines
            ])
              db)
    choose true found lines start = (start, ((0, 0), refl))
    choose false none lines start = (start, ((0, 0), refl))
    choose false (some i) lines start =
        consume_lines-Consumes context now i db (0, 0) lines db start

    ends :
        (u : Unit {0})
        → assert_tenant_access context (own_organization context) invoices_issue ≡ ok u
        → Consumes db db
        → Ends db (auto_consume_stock_for_invoice context now invoice db)
    ends u granted start =
        let lines =
          filter (λ l. l.organization_id == context.organization_id && l.invoice_id == invoice)
            db.invoice_lines in
        let off = not (
          holds (λ o. o.auto_issue_stock_on_invoice)
            (find_first (λ o. o.id == context.organization_id) db.organizations)) in
        let found =
          find_first (λ i. i.id == invoice && i.organization_id == context.organization_id)
            db.invoices in
        let whole : auto_consume_stock_for_invoice context now invoice db
            ≡ (if off then pure (0, 0) else elim found [
              | none ↦ pure (0, 0)
              | some i ↦ consume_lines context now i (0, 0) lines
            ])
                db =
          rw granted refl in
        subst (Ends db) (sym whole) (choose off found lines start)
