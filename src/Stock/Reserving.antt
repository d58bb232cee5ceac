-- ===== src/Stock/Reserving.antt =====
-- `reserveStock` never promises more than the shelf holds.
use shop_os.Common.{
  ℕ, ℤ, pos, ◌+ℤ◌, ◌≤ℤ◌, List, [], ◌∷◌, ◌++◌, ◌≡◌, refl, some, Option, Bool, if◌then◌else◌, Number,
  filter, Bool-cases, find_first, inl, int_laws, ◌-ℤ◌, inr, ltb_ℤ, false, Option-cases, arith,
  subst, ap, pos_part, true, neg_part, ◌∙◌, eq_of_parts, ltb-false,
}
use shop_os.Db.{Db, Reservation, InventoryItem}
use shop_os.Result.{ok}
use shop_os.Inventory.{
  reserve_stock, reserve_body, sum_quantities, sum_active_reservations, reservation_row, store_int,
  integer_of, owned_item, holds_item,
}
use shop_os.Tenancy.{TenantContext}
use shop_os.WorkOrders.Service.{owned_work_order}
use shop_os.Stock.Accounts.{owned_item-id, owned_work_order-id}

sum_quantities-append :
    (p : Reservation → Bool) (r : Reservation) (rs : List Reservation)
    → sum_quantities (filter p (rs ++ (r ∷ [])))
      ≡ sum_quantities (filter p rs) +ℤ (if p r then r.quantity else pos 0)
unfolding sum_quantities
sum_quantities-append p r [] = elim (Bool-cases (p r)) [
  | inl counted ↦ rw counted (omega int_laws)
  | inr passed ↦ rw passed (omega int_laws)
]
sum_quantities-append p r (x ∷ xs) = elim (Bool-cases (p x)) [
  | inl counted ↦ rw (counted, sum_quantities-append p r xs) (omega int_laws)
  | inr passed ↦ rw (passed, sum_quantities-append p r xs) refl
]

left_over :
    (on_hand reserved n left : ℤ)
    → left ≡ on_hand -ℤ reserved -ℤ n
    → pos 0 ≤ℤ left
    → (reserved +ℤ n ≤ℤ on_hand) × (left ≡ on_hand -ℤ (reserved +ℤ n))
left_over on_hand reserved n left sum low = (
  omega (int_laws, low, ap pos_part sum, ap neg_part sum),
  eq_of_parts _ _ (omega (int_laws, ap pos_part sum, ap neg_part sum)),
)

module _ (context : TenantContext) (reservation item wo : ℕ) (n : Number) (line : Option ℕ) where
  -- what the call does when it returns, at the ids of the rows that it found
  abbrev Writes : Db → Db → ℤ → InventoryItem → (item_id work_order_id : ℕ) → Type 0
  Writes db db' left i item_id work_order_id =
      (db'.inventory_items ≡ db.inventory_items)
      × (db'.reservations
          ≡ db.reservations
            ++ (reservation_row context reservation item_id work_order_id line (integer_of n) ∷ []))
      × (left
          ≡ i.quantity_on_hand
            -ℤ sum_active_reservations context.organization_id item_id db
            -ℤ integer_of n)
      × (ltb_ℤ left (pos 0) ≡ false)

  reserve_stock-Writes :
      (db db' : Db) (left : ℤ)
      → reserve_stock context reservation item wo n line db ≡ (ok left, db')
      → (i : InventoryItem) × (find_first
            (owned_item context.organization_id item)
            db.inventory_items
          ≡ some i)
        × Writes db db' left i item wo
  unfolding reserve_stock reserve_body store_int
  reserve_stock-Writes db db' left h =
      elim (Option-cases
        (find_first (owned_item context.organization_id item) db.inventory_items)) [
          | inl missing ↦ ground (arith, missing, h)
          | inr (i, found) ↦
              elim (Option-cases
                (find_first (owned_work_order context.organization_id wo) db.work_orders)) [
                  | inl missing ↦ ground (arith, missing, found, h)
                  | inr (w, job) ↦
                      let wrote : Writes db db' left i i.id w.id = ground (arith, found, job, h) in
                      (
                        i,
                        found,
                        subst (λ j. Writes db db' left i j wo)
                            (owned_item-id _ item db.inventory_items i found)
                            (subst (Writes db db' left i i.id)
                              (owned_work_order-id _ wo db.work_orders w job) wrote),
                      )
                ]
        ]

  -- If reserveStock returns, the item is in the caller's organization, the active reservations
  -- on it have grown by exactly the quantity asked for, they add up to at most the quantity on
  -- hand, and the number returned is what is left of it.
  pub reserve_stock-fits :
      (db db' : Db) (left : ℤ)
      → reserve_stock context reservation item wo n line db ≡ (ok left, db')
      → (i : InventoryItem) × (find_first
            (owned_item context.organization_id item)
            db'.inventory_items
          ≡ some i)
        × (sum_active_reservations context.organization_id item db'
            ≡ sum_active_reservations context.organization_id item db +ℤ integer_of n)
        × (sum_active_reservations context.organization_id item db' ≤ℤ i.quantity_on_hand)
        × (left ≡ i.quantity_on_hand -ℤ sum_active_reservations context.organization_id item db')
  unfolding sum_active_reservations
  reserve_stock-fits db db' left h =
      let org = context.organization_id in
      let (i, found, (items, rows, sum, low)) = reserve_stock-Writes db db' left h in
      let row = reservation_row context reservation item wo line (integer_of n) in
      let counts : holds_item org item row ≡ true = ground arith in
      let grown : sum_active_reservations org item db'
          ≡ sum_active_reservations org item db +ℤ integer_of n =
        rw rows
          (sum_quantities-append (holds_item org item) row db.reservations ∙ rw counts refl) in
      let rest =
        left_over i.quantity_on_hand (sum_active_reservations org item db) (integer_of n) left sum
          (ltb-false _ _ low) in
      (i, rw items found, grown, rw grown rest.0, rw grown rest.1)
