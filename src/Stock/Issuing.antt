-- ===== src/Stock/Issuing.antt =====
-- `issueReservationsForWorkOrder` takes from the shelf exactly what the work order held.
use shop_os.Common.{
  ℕ, ℤ, pos, ◌+ℤ◌, List, [], ◌∷◌, ◌++◌, ◌≡◌, refl, some, none, ◌==◌, inl, inr, Option-cases,
  Bool-cases, filter, update_where, ◌-ℤ◌, arith, ◌∙◌, sym, ap, eq_of_parts, int_laws, length,
  pos_part, neg_part, find_first, subst,
}
use shop_os.Db.{
  Db, Reservation, InventoryItem, InventoryMovement, WorkOrder, ◌>>=◌, issued_to_job, modify, pure,
}
use shop_os.Result.{ok}
use shop_os.Inventory.{
  sum_quantities, issue_hold, holds_for, issue_holds, as_consumed, movement_row, shift_stock,
  update_reservation, issue_reservations_for_work_order, issue_all_body,
}
use shop_os.Stock.Settled.{filter-Listed, consume_all, consume_all-settles}
use shop_os.Stock.Accounts.{
  IsShelf, moved, Accounts-refl, owned_item-id, moved-append, item_id_of, owned_work_order-id,
}
use shop_os.Stock.Shift.{shift_stock_ok}
use shop_os.Stock.Holds.{issue_hold-Kept, issue_holds-Kept}
use shop_os.Tenancy.{TenantContext}
use shop_os.Db.Keeps.{>>=-ok, then_pure-ok}
use shop_os.Db.Keyed.{find}
use shop_os.WorkOrders.Service.{owned_work_order}

-- the quantity of an item in a list of reservations
abbrev held_of : (item_id : ℕ) → List Reservation → ℤ
held_of item rs = sum_quantities (filter (λ r. r.inventory_item_id == item) rs)

-- One hold issued: its movement takes what it held.
issued_moves :
    (k : ℕ) (m : InventoryMovement) (r : Reservation) (rs : List Reservation)
    (ms : List InventoryMovement) (after : ℤ)
    → m.inventory_item_id ≡ r.inventory_item_id
    → m.delta ≡ pos 0 -ℤ r.quantity
    → moved k (ms ++ (m ∷ [])) ≡ after +ℤ held_of k rs
    → moved k ms ≡ after +ℤ held_of k (r ∷ rs)
unfolding sum_quantities
issued_moves k m r rs ms after item delta moves =
    let sum = sym (moved-append k ms (m ∷ [])) ∙ moves in
    elim (Bool-cases (r.inventory_item_id == k)) [
      | inl own ↦
          let step : moved k (m ∷ []) ≡ (pos 0 -ℤ r.quantity) +ℤ pos 0 =
            rw (item, own, delta) refl in
          rw own (
            eq_of_parts _ _ (
              omega
                (int_laws, ap pos_part step, ap neg_part step, ap pos_part sum, ap neg_part sum)))
      | inr other ↦
          let step : moved k (m ∷ []) ≡ pos 0 +ℤ pos 0 = rw (item, other) refl in
          rw other (
            eq_of_parts _ _ (
              omega
                (int_laws, ap pos_part step, ap neg_part step, ap pos_part sum, ap neg_part sum)))
    ]

module _ (context : TenantContext) (now : ℕ) (w : WorkOrder) where
  issue_hold_ok :
      (r : Reservation) (db db' : Db) (u : Unit {0})
      → IsShelf db
      → issue_hold context now w r db ≡ (ok u, db')
      → (m : InventoryMovement) × (m.inventory_item_id ≡ r.inventory_item_id)
        × (m.delta ≡ pos 0 -ℤ r.quantity)
        × (db'.inventory_movements ≡ db.inventory_movements ++ (m ∷ []))
        × (db'.reservations ≡ update_where (λ x. x.id == r.id) (as_consumed now) db.reservations)
  unfolding issue_hold
  issue_hold_ok r db db' u s h =
      let delta = pos 0 -ℤ r.quantity in
      let row =
        movement_row context r.inventory_item_id delta issued_to_job (some w.location_id)
          (some w.id) none in
      let (left, mid, shifted, rest) =
        >>=-ok (shift_stock context r.inventory_item_id delta row)
          (λ _. modify (update_reservation r.id (as_consumed now))) db db' u h in
      let (i, found, sum, (_, f, keep, there, own, low, high, same)) =
        shift_stock_ok context r.inventory_item_id delta row db mid left s shifted in
      (
        record row { inventory_item_id = i.id; delta = delta },
        owned_item-id _ _ db.inventory_items i found,
        refl,
        sym (ap (λ x. x.1.inventory_movements) rest) ∙ ap (λ d. d.inventory_movements) same,
        sym (ap (λ x. x.1.reservations) rest)
            ∙ ap (λ d. update_where (λ x. x.id == r.id) (as_consumed now) d.reservations) same,
      )

  issue_holds_ok :
      (rs : List Reservation) (db db' : Db) (u : Unit {0})
      → IsShelf db
      → issue_holds context now w rs db ≡ (ok u, db')
      → (db'.reservations ≡ consume_all now rs db.reservations)
        × ((k : ℕ)
            → moved k db.inventory_movements ≡ moved k db'.inventory_movements +ℤ held_of k rs)
  unfolding issue_holds sum_quantities
  issue_holds_ok [] db db' u s h = (
    sym (ap (λ x. x.1.reservations) h),
    λ k. ap (λ x. moved k x.1.inventory_movements) h ∙ eq_of_parts _ _ (omega int_laws),
  )
  issue_holds_ok (r ∷ rs) db db' u s h =
      let (u', mid, first, rest) =
        >>=-ok (issue_hold context now w r) (λ _. issue_holds context now w rs) db db' u h in
      let (m, item, delta, movements, reservations) = issue_hold_ok r db mid u' s first in
      let shelf = (issue_hold-Kept context db now w r db mid u' (Accounts-refl db, s) first).1 in
      let (reservations', moves) = issue_holds_ok rs mid db' u shelf rest in
      (
        reservations' ∙ rw reservations refl,
        λ k.
            issued_moves k m r rs db.inventory_movements _ item delta
              (sym (ap (moved k) movements) ∙ moves k),
      )

-- what the work order holds
abbrev holds_of : TenantContext → (work_order_id : ℕ) → Db → List Reservation
holds_of context wo db = filter (holds_for context.organization_id wo) db.reservations

-- What the call does when it returns.
abbrev pub Settles : TenantContext → (work_order_id : ℕ) → Db → Db → ℕ → Type 0
Settles context wo db db' n =
    (n ≡ length (holds_of context wo db))
    × (holds_of context wo db' ≡ [])
    × ((k : ℕ) (i : InventoryItem)
        → find item_id_of k db.inventory_items ≡ some i
        → (i' : InventoryItem) × (find item_id_of k db'.inventory_items ≡ some i')
          × (i'.quantity_on_hand +ℤ held_of k (holds_of context wo db) ≡ i.quantity_on_hand))

issue_holds-Settles :
    (context : TenantContext) (now : ℕ) (w : WorkOrder) (db db' : Db) (u : Unit {0})
    → IsShelf db
    → issue_holds context now w (holds_of context w.id db) db ≡ (ok u, db')
    → Settles context w.id db db' (length (holds_of context w.id db))
issue_holds-Settles context now w db db' u s h =
    let rs = holds_of context w.id db in
    let org = context.organization_id in
    let (accounts, _) = issue_holds-Kept context db now w rs db db' u (Accounts-refl db, s) h in
    let (reservations, moves) = issue_holds_ok context now w rs db db' u s h in
    (
      refl,
      rw reservations (
          consume_all-settles org w.id now rs db.reservations
            (filter-Listed org w.id db.reservations)),
      λ k i found.
          let (i', found', sum) = accounts k i found in
          (
            i',
            found',
            eq_of_parts _ _ (
                omega (
                  int_laws,
                  ap pos_part sum,
                  ap neg_part sum,
                  ap pos_part (moves k),
                  ap neg_part (moves k),
                )),
          ),
    )

-- If the items of the database have different ids and quantities from 0 to 2^31 - 1 and
-- issueReservationsForWorkOrder returns, then the number returned is that of the active
-- reservations of the work order, none of them is active any more, and every item is still
-- there, its quantity on hand less by exactly what they held of it.
pub issue_reservations-Settles :
    (context : TenantContext) (now wo : ℕ) (db db' : Db) (n : ℕ)
    → IsShelf db
    → issue_reservations_for_work_order context now wo db ≡ (ok n, db')
    → Settles context wo db db' n
unfolding issue_reservations_for_work_order issue_all_body
issue_reservations-Settles context now wo db db' n s h =
    elim (Option-cases (find_first (owned_work_order context.organization_id wo) db.work_orders)) [
      | inl missing ↦ ground (arith, missing, h)
      | inr (w, found) ↦
          let same = owned_work_order-id context.organization_id wo db.work_orders w found in
          let rs = holds_of context w.id db in
          let body : (issue_holds context now w rs >>= (λ _. pure (length rs))) db ≡ (ok n, db') =
            ground (arith, found, h) in
          let (u, first, count) =
            then_pure-ok (issue_holds context now w rs) (length rs) n db db' body in
          subst (λ j. Settles context j db db' n) same
            (subst (Settles context w.id db db') count
              (issue_holds-Settles context now w db db' u s first))
    ]
