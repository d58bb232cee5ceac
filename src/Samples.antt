-- ===== src/Samples.antt =====
-- The shop that the tests run on: one location, one work order, one invoice, two tills.
use shop_os.Common.{ℕ, true, false, none, some, [], ◌∷◌, pos, int}
use shop_os.Result.{WorkOrderStatus}
use shop_os.Tenancy.{TenantContext, work_orders_write, invoices_issue, payments_record}
use shop_os.Db.{
  Db, empty_db, Text, Organization, Location, WorkOrder, Invoice, InvoiceStatus, Payment, cash,
  Deposit, CashDrawerSession, Reservation, active, InventoryItem, InvoiceLine,
}
use shop_os.Invoices.{Tender}
use shop_os.Money.{part}

-- "USD"
abbrev pub usd : Text
usd = 85 ∷ 83 ∷ 68 ∷ []

abbrev pub clerk : TenantContext
clerk = record {
  actor_id = 1;
  organization_id = 1;
  membership_id = 1;
  request_id = 1;
  selected_location_id = none;
  organization_wide_location_access = true;
  allowed_location_ids = [];
  permissions = work_orders_write ∷ invoices_issue ∷ payments_record ∷ [];
}

abbrev pub shop : Organization
shop = record {
  id = 1;
  all_lines_policy = true;
  default_warranty_months = some 12;
  default_warranty_miles = none;
  invoice_number_prefix = 73 ∷ [];
  quality_check_required = false;
  auto_issue_stock_on_invoice = true;
}

abbrev garage : Location
garage = record { id = 2; organization_id = 1; invoice_number_prefix = none }

abbrev pub job : WorkOrderStatus → WorkOrder
job s = record {
  id = 5;
  organization_id = 1;
  location_id = 2;
  number = 87 ∷ [];
  status = s;
  qc_passed = false;
  qc_note = none;
  qc_passed_by_user_id = none;
  qc_passed_at = none;
  completed_at = none;
}

abbrev pub bill : InvoiceStatus → ℕ → Invoice
bill s paid = record {
  id = 7;
  organization_id = 1;
  location_id = 2;
  work_order_id = 5;
  number = 73 ∷ [];
  status = s;
  currency = usd;
  subtotal_minor = pos 10_000;
  discount_minor = pos 0;
  tax_minor = pos 0;
  tax_inclusive = false;
  total_minor = pos 10_000;
  paid_minor = pos paid;
  issued_at = some 3;
  warranty_months = some 12;
  warranty_miles = none;
}

abbrev pub cash_tender : ℕ → Tender
cash_tender amount = record { amount_minor = int (pos amount); method = cash; reference = none }

abbrev paid_in : ℕ → Payment
paid_in amount = record {
  id = 9;
  organization_id = 1;
  location_id = 2;
  invoice_id = some 7;
  amount_minor = pos amount;
  currency = usd;
  method = cash;
  reference = none;
  processor_charge_id = none;
  drawer_session_id = some 4;
  received_at = 20;
  recorded_by_user_id = 1;
}

abbrev till : CashDrawerSession
till = record {
  id = 4;
  organization_id = 1;
  location_id = 2;
  currency = usd;
  opening_float_minor = pos 1_000;
  is_open = true;
  owner_user_id = some 1;
  label = none;
  method_totals = [];
  counted_cash_minor = none;
  expected_cash_minor = none;
  over_short_minor = none;
  opened_by_user_id = 1;
  opened_at = 10;
  closed_by_user_id = none;
  closed_at = none;
  note = none;
}

abbrev advance : Deposit
advance = record {
  id = 6;
  organization_id = 1;
  location_id = 2;
  work_order_id = 5;
  amount_minor = pos 2_500;
  currency = usd;
  method = cash;
  reference = none;
  received_at = 15;
  recorded_by_user_id = 1;
  note = none;
  applied_invoice_id = none;
  applied_at = none;
}

abbrev reserved_part : Reservation
reserved_part = record {
  id = 8;
  organization_id = 1;
  inventory_item_id = 3;
  work_order_id = 5;
  estimate_line_id = none;
  quantity = pos 2;
  status = active;
  created_by_id = some 1;
  released_at = none;
  consumed_at = none;
}

-- the job is invoiced, nothing is paid yet, and a deposit waits
abbrev pub desk : Db
desk = record empty_db {
  organizations = shop ∷ [];
  locations = garage ∷ [];
  work_orders = job WorkOrderStatus.invoiced ∷ [];
  invoices = bill InvoiceStatus.issued 0 ∷ [];
  deposits = advance ∷ [];
  drawer_sessions = till ∷ [];
}

-- 40.00 of the bill is paid in cash
abbrev pub paid_desk : Db
paid_desk = record desk {
  invoices = bill InvoiceStatus.partially_paid 4_000 ∷ [];
  payments = paid_in 4_000 ∷ [];
}

-- the job is still a draft, and holds a part
abbrev pub workshop : Db
workshop = record empty_db {
  organizations = shop ∷ [];
  locations = garage ∷ [];
  work_orders = job WorkOrderStatus.draft ∷ [];
  reservations = reserved_part ∷ [];
}

-- the bill is still a draft
abbrev pub drafted_desk : Db
drafted_desk = record desk {
  work_orders = job WorkOrderStatus.completed ∷ [];
  invoices = bill InvoiceStatus.draft 0 ∷ [];
}

abbrev filters : ℕ → InventoryItem
filters on_hand = record {
  id = 3;
  organization_id = 1;
  location_id = none;
  part_number = 70 ∷ [];
  name = 70 ∷ 76 ∷ [];
  quantity_on_hand = pos on_hand;
  reorder_point = pos 0;
  unit_cost_minor = pos 250;
  currency = usd;
  details = record {
    oe_number = none;
    brand = none;
    category_id = none;
    uom_group = none;
    unit_of_measure = none;
    uom_factor_milli = none;
    condition = none;
    has_core = false;
    core_value_minor = none;
    consumable = false;
    non_saleable = false;
    bin_location = none;
  };
}

-- a line that bills three of them
abbrev three_filters : InvoiceLine
three_filters = record {
  organization_id = 1;
  invoice_id = 7;
  source_estimate_line_id = 11;
  position = 0;
  content = record {
    kind = part;
    description = 70 ∷ [];
    quantity_milli = 3_000;
    unit_price_minor = pos 500;
    gross_minor = pos 1_500;
    discount_minor = pos 0;
    taxable = false;
    tax_rate_basis_points = 0;
    tax_minor = pos 0;
    tax_inclusive = false;
    tax_components = [];
    total_minor = pos 1_500;
    inventory_item_id = some 3;
  };
}

-- the job holds two of the filters on the shelf
abbrev pub stock_room : ℕ → Db
stock_room on_hand = record workshop { inventory_items = filters on_hand ∷ [] }

-- the bill of the job has the line
abbrev pub billed_room : ℕ → Db
billed_room on_hand = record (stock_room on_hand) {
  invoices = bill InvoiceStatus.draft 0 ∷ [];
  invoice_lines = three_filters ∷ [];
}
