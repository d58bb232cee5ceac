-- ===== src/Inventory/Receipts.antt =====
-- New items: `createItem` and `receiveIntoStock`.
use mathlib.Core.Option
use shop_os.Common.{
  [], ◌∷◌, ℕ, ℤ, Bool, Number, or_default, false, ltb, pos, ◌+ℤ◌, ◌==◌, length, ltb_ℤ, ◌&&◌, ◌||◌,
  any, find_first, is_some, negsuc, same_id, ◌++◌, holds, not,
}
use shop_os.Db.{
  ◌>>◌, ◌>>=◌, InventoryItem, ItemDetails, Text, Action, WorkOrder, demand, reject_if, query,
  to_bigint, modify, received, transaction, pure,
}
use mathlib.Core.Option.{Option, none, some}
use shop_os.Tenancy.{TenantContext, assert_tenant_access, own_organization, work_orders_write}
use shop_os.Common.Text.{trim, truthy, same_text}
use shop_os.Inventory.Items.{
  find_job, integer_of, store_int, record_stock_movement, update_item, is_bad_quantity,
  movement_row, job_location, job_id, is_bad_count,
}
use shop_os.Result.{
  column_overflow, inventory_failed, unique_violation, invalid_part_number, invalid_quantity,
  invalid_name, duplicate_part_number,
}

-- the primary key, and the unique index, in which missing locations differ from each other
abbrev pub item_clashes : InventoryItem → InventoryItem → Bool
item_clashes i j =
    i.id == j.id
    || (i.organization_id == j.organization_id
        && is_some i.location_id
        && same_id i.location_id j.location_id
        && same_text i.part_number j.part_number)

-- `inventoryItem.create`
unfoldable pub insert_item : InventoryItem → Action (Unit {0})
insert_item i = do
  store_int i.quantity_on_hand
  store_int i.reorder_point
  clash ← query (λ db. any (item_clashes i) db.inventory_items)
  reject_if clash unique_violation
  modify (λ db. record db { inventory_items = db.inventory_items ++ (i ∷ []) })

-- "USD", the column's default
abbrev pub default_currency : Text
default_currency = 85 ∷ 83 ∷ 68 ∷ []

pub record CreateItemInput : Type 0 where
  pub part_number : Text
  pub name : Text
  pub location_id : Option ℕ
  pub details : ItemDetails
  pub quantity_on_hand : Option Number
  pub reorder_point : Option Number
  pub unit_cost_minor : Option Number
  pub currency : Option Text

-- `...(text ? { column: text.trim() } : {})`
abbrev pub trimmed : Option Text → Option Text
trimmed t = Option.map trim (truthy t)

abbrev pub stored_details : ItemDetails → ItemDetails
stored_details d = record {
  oe_number = trimmed d.oe_number;
  brand = trimmed d.brand;
  category_id = d.category_id;
  uom_group = trimmed d.uom_group;
  unit_of_measure = trimmed d.unit_of_measure;
  uom_factor_milli = d.uom_factor_milli;
  condition = d.condition;
  has_core = d.has_core;
  core_value_minor = d.core_value_minor;
  consumable = d.consumable;
  non_saleable = d.non_saleable;
  bin_location = trimmed d.bin_location;
}

-- a number that the input may leave out, with the column's default of 0
abbrev pub count_or_zero : Option Number → ℤ
count_or_zero none = pos 0
count_or_zero (some n) = integer_of n

abbrev pub item_row : TenantContext → (item_id : ℕ) → CreateItemInput → InventoryItem
item_row context item input = record {
  id = item;
  organization_id = context.organization_id;
  location_id = input.location_id;
  part_number = trim input.part_number;
  name = trim input.name;
  quantity_on_hand = count_or_zero input.quantity_on_hand;
  reorder_point = count_or_zero input.reorder_point;
  unit_cost_minor = count_or_zero input.unit_cost_minor;
  currency = or_default (truthy input.currency) default_currency;
  details = stored_details input.details;
}

abbrev pub length_outside : (low high : ℕ) → Text → Bool
length_outside low high t = ltb (length t) low || ltb high (length t)

-- an item with the part number at the location, or in the stock of the organization
abbrev pub same_part :
    (organization_id : ℕ) → (location_id : Option ℕ) → Text → InventoryItem → Bool
same_part org location part i =
    i.organization_id == org && same_text i.part_number part && same_id i.location_id location

unfoldable pub create_item : TenantContext → (item_id : ℕ) → CreateItemInput → Action ℕ
create_item context item input = do
  demand (
      assert_tenant_access context
        (record { organization_id = context.organization_id; location_id = input.location_id })
        work_orders_write)
  reject_if (length_outside 1 120 (trim input.part_number)) (inventory_failed invalid_part_number)
  reject_if (length_outside 2 220 (trim input.name)) (inventory_failed invalid_name)
  reject_if
      (holds is_bad_count input.quantity_on_hand
        || holds is_bad_count input.reorder_point
        || holds is_bad_count input.unit_cost_minor)
      (inventory_failed invalid_quantity)
  reject_if (is_some input.details.core_value_minor && not input.details.has_core)
      (inventory_failed invalid_quantity)
  existing ← query (λ db.
      any (same_part context.organization_id input.location_id (trim input.part_number))
        db.inventory_items)
  reject_if existing (inventory_failed duplicate_part_number)
  insert_item (item_row context item input)
  pure item

pub record ReceiveInput : Type 0 where
  pub part_number : Text
  pub name : Text
  pub quantity : Number
  pub unit_cost_minor : Number
  pub currency : Option Text
  pub bin_location : Option Text
  pub work_order_id : Option ℕ

-- A `BigInt` column holds 64 bits with a sign.
unfoldable pub store_bigint : ℤ → Action (Unit {0})
store_bigint z =
    reject_if
      (ltb_ℤ z (negsuc 9_223_372_036_854_775_807) || ltb_ℤ (pos 9_223_372_036_854_775_807) z)
      column_overflow

abbrev pub no_details : Option Text → ItemDetails
no_details bin = record {
  oe_number = none;
  brand = none;
  category_id = none;
  uom_group = none;
  unit_of_measure = none;
  uom_factor_milli = none;
  condition = none;
  has_core = false;
  core_value_minor = none;
  consumable = false;
  non_saleable = false;
  bin_location = trimmed bin;
}

-- the row of a part that was not in stock
abbrev pub received_item : TenantContext → (item_id : ℕ) → (cost : ℤ) → ReceiveInput → InventoryItem
received_item context item cost input = record {
  id = item;
  organization_id = context.organization_id;
  location_id = none;
  part_number = trim input.part_number;
  name = trim input.name;
  quantity_on_hand = integer_of input.quantity;
  reorder_point = pos 0;
  unit_cost_minor = cost;
  currency = or_default (truthy input.currency) default_currency;
  details = no_details input.bin_location;
}

abbrev pub with_cost : ℤ → Option Text → InventoryItem → InventoryItem
with_cost cost currency i = record i {
  unit_cost_minor = cost;
  currency = or_default (truthy currency) i.currency;
}

-- a part that is in stock
unfoldable pub receive_more :
    TenantContext → InventoryItem → Option WorkOrder → ReceiveInput → Action (ℕ × ℤ)
receive_more context i job input = do
  let next = i.quantity_on_hand +ℤ integer_of input.quantity
  cost ← demand (to_bigint input.unit_cost_minor)
  store_bigint cost
  update_item i.id next (with_cost cost input.currency)
  record_stock_movement (
      movement_row context i.id (integer_of input.quantity) received (job_location job) (job_id job)
        none)
  pure (i.id, next)

-- a part that is new
unfoldable pub receive_new :
    TenantContext → (item_id : ℕ) → Option WorkOrder → ReceiveInput → Action (ℕ × ℤ)
receive_new context item job input = do
  cost ← demand (to_bigint input.unit_cost_minor)
  store_bigint cost
  insert_item (received_item context item cost input)
  record_stock_movement (
      movement_row context item (integer_of input.quantity) received (job_location job) (job_id job)
        none)
  pure (item, integer_of input.quantity)

-- the part in the stock of the organization, at whichever location
abbrev pub is_part : (organization_id : ℕ) → ReceiveInput → InventoryItem → Bool
is_part org input i = i.organization_id == org && same_text i.part_number (trim input.part_number)

unfoldable pub receive_found :
    TenantContext
    → (item_id : ℕ) → ReceiveInput
    → Option WorkOrder
    → Option InventoryItem
    → Action (ℕ × ℤ)
receive_found context item input job (some i) = receive_more context i job input
receive_found context item input job none = receive_new context item job input

-- the transaction of `receiveIntoStock`
unfoldable pub receive_body : TenantContext → (item_id : ℕ) → ReceiveInput → Action (ℕ × ℤ)
receive_body context item input = do
  job ← find_job context input.work_order_id
  existing ← query (λ db. find_first (is_part context.organization_id input) db.inventory_items)
  receive_found context item input job existing

unfoldable pub receive_into_stock : TenantContext → (item_id : ℕ) → ReceiveInput → Action (ℕ × ℤ)
receive_into_stock context item input = do
  demand (assert_tenant_access context (own_organization context) work_orders_write)
  reject_if (is_bad_quantity input.quantity) (inventory_failed invalid_quantity)
  transaction (receive_body context item input)
