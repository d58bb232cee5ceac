-- ===== src/Stock/Calls.antt =====
-- Each service call on the stock: it keeps the shelf, and the movements that it records account for
-- what it changes.
use shop_os.Common.{
  ℕ, ℤ, pos, some, none, Number, Option, Option-cases, find_first, inl, inr, ◌-ℤ◌, ◌≡◌, false, ◌≤ℤ◌,
  Bool-cases, int, arith, other, ◌⊎◌, holds, subst, sym,
}
use shop_os.Db.{Db, InventoryMovement, InventoryItem}
use shop_os.Db.Keeps.{Keeps, KeepsOk, >>=-KeepsOk, KeepsOk-of_Keeps, guarded-Keeps}
use shop_os.Stock.Accounts.{Accounts, IsShelf, Accounts-trans}
use shop_os.Stock.Shift.{shift_stock-Accounts}
use shop_os.Inventory.{
  adjust_stock, issue_stock, find_job, issue_stock_body, shift_stock, is_bad_delta, is_bad_quantity,
  integer_of, create_item, receive_into_stock, CreateItemInput, receive_body, ReceiveInput,
  count_or_zero, insert_item, item_row, is_bad_count,
}
use shop_os.Tenancy.{TenantContext, assert_tenant_access, own_organization, work_orders_write}
use shop_os.WorkOrders.Service.{owned_work_order}
use shop_os.Result.{inventory_failed, invalid_quantity}
use shop_os.Stock.Receive.{receive_found-Accounts, insert_item-cases, with_item_kept, with_item}

-- what holds of a database that calls have made of the first one
abbrev pub Kept : Db → Db → Type 0
Kept first db = Accounts first db × IsShelf db

Kept-then : (a b c : Db) → Kept a b → (IsShelf b → Accounts b c × IsShelf c) → Kept a c
Kept-then a b c (accounts, shelf) step =
    let (accounts', shelf') = step shelf in (Accounts-trans a b c accounts accounts', shelf')

-- a quantity that the services accept
good_quantity : (n : Number) → is_bad_quantity n ≡ false → pos 0 ≤ℤ integer_of n
good_quantity other h = cc
good_quantity (int z) h = ground (arith, h)

good_count : (n : Option Number) → holds is_bad_count n ≡ false → pos 0 ≤ℤ count_or_zero n
good_count none h = omega arith
good_count (some other) h = cc
good_count (some (int z)) h = ground (arith, h)

module _ (context : TenantContext) (first : Db) where
  pub shift_stock-Kept :
      (item : ℕ) (delta : ℤ) (m : InventoryMovement)
      → KeepsOk (Kept first) (shift_stock context item delta m)
  shift_stock-Kept item delta m db db' left k h =
      Kept-then first db db' k (λ s. shift_stock-Accounts context item delta m db db' left s h)

  pub adjust_stock-Kept :
      (item : ℕ) (delta : Number) → Keeps (Kept first) (adjust_stock context item delta)
  unfolding adjust_stock
  adjust_stock-Kept item delta =
      guarded-Keeps (Kept first)
        (assert_tenant_access context (own_organization context) work_orders_write)
        (is_bad_delta delta) (inventory_failed invalid_quantity) _
        (λ _. shift_stock-Kept item (integer_of delta) _)

  find_job-Kept : (wo : Option ℕ) → Keeps (Kept first) (find_job context wo)
  unfolding find_job
  find_job-Kept none db k = k
  find_job-Kept (some wo) db k =
      elim (Option-cases
        (find_first (owned_work_order context.organization_id wo) db.work_orders)) [
          | inl missing ↦ rw missing k
          | inr (w, found) ↦ rw found k
        ]

  pub issue_stock-Kept :
      (item : ℕ) (quantity : Number) (wo : Option ℕ)
      → Keeps (Kept first) (issue_stock context item quantity wo)
  unfolding issue_stock issue_stock_body
  issue_stock-Kept item quantity wo =
      guarded-Keeps (Kept first)
        (assert_tenant_access context (own_organization context) work_orders_write)
        (is_bad_quantity quantity) (inventory_failed invalid_quantity)
        (issue_stock_body context item (integer_of quantity) wo)
        (λ _.
          >>=-KeepsOk (Kept first) (find_job context wo) _
            (KeepsOk-of_Keeps (Kept first) (find_job context wo) (find_job-Kept wo))
            (λ job. shift_stock-Kept item (pos 0 -ℤ integer_of quantity) _))

  pub receive_into_stock-Kept :
      (item : ℕ) (input : ReceiveInput) → Keeps (Kept first) (receive_into_stock context item input)
  unfolding receive_into_stock receive_body
  receive_into_stock-Kept item input =
      guarded-Keeps (Kept first)
        (assert_tenant_access context (own_organization context) work_orders_write)
        (is_bad_quantity input.quantity) (inventory_failed invalid_quantity)
        (receive_body context item input)
        (λ good.
          >>=-KeepsOk (Kept first) (find_job context input.work_order_id) _
            (KeepsOk-of_Keeps (Kept first) (find_job context input.work_order_id)
              (find_job-Kept input.work_order_id))
            (λ job mid db' out k h. Kept-then first mid db' k (λ s.
              receive_found-Accounts context item job input mid db' out
                (good_quantity input.quantity good) s h)))

  insert_item-Kept :
      (i : InventoryItem) → pos 0 ≤ℤ i.quantity_on_hand → Keeps (Kept first) (insert_item i)
  insert_item-Kept i low db k = elim (insert_item-cases i db) [
    | inl same ↦ subst (Kept first) (sym same) k
    | inr (clash, high, at) ↦
        subst (Kept first) (sym at)
          (Kept-then first db (with_item i db) k (λ s. with_item_kept i db clash low high s))
  ]

  pub create_item-Kept :
      (item : ℕ) (input : CreateItemInput) → Keeps (Kept first) (create_item context item input)
  unfolding create_item
  create_item-Kept item input db k = elim (create_item-cases item input db) [
    | inl same ↦ subst (Kept first) (sym same) k
    | inr (low, at) ↦
        subst (Kept first) (sym at) (insert_item-Kept (item_row context item input) low db k)
  ]
    where
      create_item-cases :
          (item : ℕ) (input : CreateItemInput) (db : Db)
          → ((create_item context item input db).1 ≡ db)
            ⊎ ((pos 0 ≤ℤ count_or_zero input.quantity_on_hand)
                × ((create_item context item input db).1
                    ≡ (insert_item (item_row context item input) db).1))
      create_item-cases item input db =
          elim (Bool-cases (holds is_bad_count input.quantity_on_hand)) [
            | inl bad ↦ inl (ground (arith, bad))
            | inr good ↦
                let low = good_count input.quantity_on_hand good in
                let cases : ((create_item context item input db).1 ≡ db)
                    ⊎ ((create_item context item input db).1
                        ≡ (insert_item (item_row context item input) db).1) =
                  ground arith in
                elim cases [ inl same ↦ inl same | inr at ↦ inr (low, at) ]
          ]
