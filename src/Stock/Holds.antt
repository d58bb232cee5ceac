-- ===== src/Stock/Holds.antt =====
-- The calls on reservations, which issue from the shelf or leave it alone.
use shop_os.Common.{
  ℕ, pos, List, [], ◌∷◌, ◌≡◌, refl, some, none, Number, Option-cases, Option, arith, find_first,
  ◌-ℤ◌, inl, sym, ◌∙◌, inr, filter, length,
}
use shop_os.Db.{Db, Reservation, WorkOrder, pure, transaction, issued_to_job, modify}
use shop_os.Db.Keeps.{
  Keeps, KeepsOk, >>=-KeepsOk, KeepsOk-of_Keeps, demand-Keeps, transaction-Keeps,
}
use shop_os.Stock.Calls.{Kept, shift_stock-Kept}
use shop_os.Inventory.{
  issue_holds, reserve_stock, reserve_body, issue_all_body, issue_hold,
  issue_reservations_for_work_order, release_reservation, store_int, shift_stock, movement_row,
  update_reservation, as_consumed, holds_for,
}
use shop_os.Tenancy.{TenantContext, assert_tenant_access, own_organization, work_orders_write}
use shop_os.WorkOrders.Service.{release_active, owned_work_order}

module _ (context : TenantContext) (first : Db) where
  pub issue_hold-Kept :
      (now : ℕ) (w : WorkOrder) (r : Reservation)
      → KeepsOk (Kept first) (issue_hold context now w r)
  unfolding issue_hold
  issue_hold-Kept now w r =
      let delta = pos 0 -ℤ r.quantity in
      let m =
        movement_row context r.inventory_item_id delta issued_to_job (some w.location_id)
          (some w.id) none in
      >>=-KeepsOk (Kept first) (shift_stock context r.inventory_item_id delta m)
        (λ _. modify (update_reservation r.id (as_consumed now)))
        (shift_stock-Kept context first r.inventory_item_id delta m)
        (λ _.
          KeepsOk-of_Keeps (Kept first) (modify (update_reservation r.id (as_consumed now)))
            (λ _ k. k))

  pub issue_holds-Kept :
      (now : ℕ) (w : WorkOrder) (rs : List Reservation)
      → KeepsOk (Kept first) (issue_holds context now w rs)
  unfolding issue_holds
  issue_holds-Kept now w [] = KeepsOk-of_Keeps (Kept first) (pure tt) (λ _ k. k)
  issue_holds-Kept now w (r ∷ rs) =
      >>=-KeepsOk (Kept first) (issue_hold context now w r) (λ _. issue_holds context now w rs)
        (issue_hold-Kept now w r) (λ _. issue_holds-Kept now w rs)

  issue_all_body-Kept : (now wo : ℕ) → KeepsOk (Kept first) (issue_all_body context now wo)
  unfolding issue_all_body
  issue_all_body-Kept now wo db db' n k h =
      elim (Option-cases
        (find_first (owned_work_order context.organization_id wo) db.work_orders)) [
          | inl missing ↦ absurd (ground (arith, missing, h))
          | inr (w, found) ↦
              let rs = filter (holds_for context.organization_id w.id) db.reservations in
              >>=-KeepsOk (Kept first) (issue_holds context now w rs) (λ _. pure (length rs))
                (issue_holds-Kept now w rs)
                (λ _. KeepsOk-of_Keeps (Kept first) (pure (length rs)) (λ _ k. k)) db db' n k
                (sym (rw found refl) ∙ h)
        ]

  pub issue_reservations-Kept :
      (now wo : ℕ) → Keeps (Kept first) (issue_reservations_for_work_order context now wo)
  unfolding issue_reservations_for_work_order
  issue_reservations-Kept now wo =
      demand-Keeps (Kept first)
        (assert_tenant_access context (own_organization context) work_orders_write)
        (transaction (issue_all_body context now wo))
        (transaction-Keeps (Kept first) (issue_all_body context now wo)
          (issue_all_body-Kept now wo))

  -- A call that leaves the items and their movements alone.
  unchanged-Kept :
      (db db' : Db)
      → db'.inventory_items ≡ db.inventory_items
      → db'.inventory_movements ≡ db.inventory_movements
      → Kept first db
      → Kept first db'
  unchanged-Kept db db' items movements k = rw (items, movements) k

  pub reserve_stock-Kept :
      (reservation item wo : ℕ) (quantity : Number) (line : Option ℕ)
      → Keeps (Kept first) (reserve_stock context reservation item wo quantity line)
  unfolding reserve_stock reserve_body store_int
  reserve_stock-Kept reservation item wo quantity line db k =
      let same : ((reserve_stock context reservation item wo quantity line db).1.inventory_items
            ≡ db.inventory_items)
          × ((reserve_stock context reservation item wo quantity line db).1.inventory_movements
              ≡ db.inventory_movements) =
        ground arith in
      unchanged-Kept db (reserve_stock context reservation item wo quantity line db).1 same.0 same.1
        k

  pub release_reservation-Kept :
      (now reservation : ℕ) → Keeps (Kept first) (release_reservation context now reservation)
  unfolding release_reservation release_active
  release_reservation-Kept now reservation db k =
      let same : ((release_reservation context now reservation db).1.inventory_items
            ≡ db.inventory_items)
          × ((release_reservation context now reservation db).1.inventory_movements
              ≡ db.inventory_movements) =
        ground arith in
      unchanged-Kept db (release_reservation context now reservation db).1 same.0 same.1 k
