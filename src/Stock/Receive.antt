-- ===== src/Stock/Receive.antt =====
-- New items, and stock that comes in.
use shop_os.Common.{
  ℕ, ℤ, pos, ◌+ℤ◌, ◌≤ℤ◌, List, [], ◌∷◌, ◌++◌, ◌≡◌, refl, some, ◌==◌, arith, int_laws, none, inl,
  inr, Bool-cases, ltb_ℤ, any, false, ==→eq, All-append, Option, ltb-false, find_first-append, ap,
  ◌∙◌, find_first, Option-cases, sym, ◌⊎◌,
}
use shop_os.Db.{Db, InventoryItem, WorkOrder, to_bigint, received}
use shop_os.Result.{ok, Result-cases, Failure, Result, err}
use shop_os.Db.Keyed.{find, append-IsKeyed, find_of_found}
use shop_os.Stock.Accounts.{
  Accounts, IsShelf, IsStocked, item_id_of, moved, moved-append_other, IsStocked-of_found,
}
use shop_os.Stock.Shift.{Restocks-Accounts, restocked}
use shop_os.Inventory.{
  receive_more, receive_new, insert_item, record_stock_movement, store_int, update_item,
  item_clashes, store_bigint, ReceiveInput, integer_of, movement_row, received_item, job_location,
  job_id, with_cost, receive_found, is_part,
}
use shop_os.Tenancy.{TenantContext}

-- the database with one item more
abbrev pub with_item : InventoryItem → Db → Db
with_item i db = record db { inventory_items = db.inventory_items ++ (i ∷ []) }

-- What `inventoryItem.create` does when it returns.
insert_item_ok :
    (i : InventoryItem) (db db' : Db) (u : Unit {0})
    → insert_item i db ≡ (ok u, db')
    → (any (item_clashes i) db.inventory_items ≡ false)
      × (i.quantity_on_hand ≤ℤ pos 2_147_483_647)
      × (db' ≡ with_item i db)
unfolding insert_item store_int
insert_item_ok i db db' u h =
    let no_clash : any (item_clashes i) db.inventory_items ≡ false = ground (arith, h) in
    let fits : ltb_ℤ (pos 2_147_483_647) i.quantity_on_hand ≡ false = ground (arith, h) in
    (no_clash, ltb-false _ _ fits, ground (arith, h))

insert_item_err :
    (i : InventoryItem) (db db' : Db) (e : Failure) → insert_item i db ≡ (err e, db') → db' ≡ db
unfolding insert_item store_int
insert_item_err i db db' e h = ground (arith, h)

-- A row that clashes with none has an id that none has.
no_clash-find :
    (i : InventoryItem) (xs : List InventoryItem)
    → any (item_clashes i) xs ≡ false
    → find item_id_of i.id xs ≡ none
no_clash-find i [] h = refl
no_clash-find i (x ∷ xs) h = ground (arith, no_clash-find i xs)

-- An insert keeps the shelf, whether or not a movement goes with it.
with_item-IsShelf :
    (i : InventoryItem) (db : Db)
    → any (item_clashes i) db.inventory_items ≡ false
    → IsStocked i
    → IsShelf db
    → IsShelf (with_item i db)
with_item-IsShelf i db h low (keyed, stocked) = (
  append-IsKeyed item_id_of db.inventory_items i keyed (no_clash-find i db.inventory_items h),
  All-append IsStocked db.inventory_items (i ∷ []) stocked (low, tt),
)

-- The items that were there before account for themselves.
with_item-Accounts :
    (i : InventoryItem) (db db' : Db)
    → any (item_clashes i) db.inventory_items ≡ false
    → db'.inventory_items ≡ db.inventory_items ++ (i ∷ [])
    → ((k : ℕ)
        → (i.id == k) ≡ false
        → moved k db'.inventory_movements ≡ moved k db.inventory_movements)
    → Accounts db db'
with_item-Accounts i db db' clash items movements k j found = elim (Bool-cases (i.id == k)) [
  | inl same ↦ ground (arith, found, no_clash-find i db.inventory_items clash, ==→eq i.id k same)
  | inr other ↦ (
    j,
    rw items (find_first-append _ db.inventory_items (i ∷ []) j found),
    rw (movements k other) refl,
  )
]

-- What `receive_more` does when it returns.
receive_more-Accounts :
    (context : TenantContext) (i : InventoryItem) (job : Option WorkOrder) (input : ReceiveInput)
    (db db' : Db) (out : ℕ × ℤ)
    → find item_id_of i.id db.inventory_items ≡ some i
    → IsStocked i
    → pos 0 ≤ℤ integer_of input.quantity
    → IsShelf db
    → receive_more context i job input db ≡ (ok out, db')
    → Accounts db db' × IsShelf db'
unfolding receive_more update_item record_stock_movement store_int store_bigint
receive_more-Accounts context i job input db db' out found (low, high) some_more s h =
    elim (Result-cases (to_bigint input.unit_cost_minor)) [
      | inl (cost, good) ↦
          let next = i.quantity_on_hand +ℤ integer_of input.quantity in
          let fits : ltb_ℤ (pos 2_147_483_647) next ≡ false = ground (arith, good, h) in
          let m =
            movement_row context i.id (integer_of input.quantity) received (job_location job)
              (job_id job) none in
          let same : db' ≡ restocked i next (with_cost cost input.currency) m db =
            ground (arith, good, h) in
          Restocks-Accounts m db db'
            (
              i,
              with_cost cost input.currency,
              λ x. refl,
              found,
              refl,
              omega (int_laws, low, some_more),
              ltb-false _ _ fits,
              same,
            )
            s
      | inr (e, bad) ↦ ground (arith, bad, h)
    ]

receive_new-Accounts :
    (context : TenantContext) (item : ℕ) (job : Option WorkOrder) (input : ReceiveInput)
    (db db' : Db) (out : ℕ × ℤ)
    → pos 0 ≤ℤ integer_of input.quantity
    → IsShelf db
    → receive_new context item job input db ≡ (ok out, db')
    → Accounts db db' × IsShelf db'
unfolding receive_new record_stock_movement store_int store_bigint
receive_new-Accounts context item job input db db' out some_more s h =
    elim (Result-cases (to_bigint input.unit_cost_minor)) [
      | inl (cost, good) ↦
          let i = received_item context item cost input in
          elim (Result-cases ((insert_item i db).0)) [
            | inl (u, inserted) ↦
                let (clash, high, at) =
                  insert_item_ok i db (insert_item i db).1 u
                    (ap (λ r. (r, (insert_item i db).1)) inserted) in
                let whole : insert_item i db ≡ (ok u, with_item i db) =
                  ap (λ r. (r, (insert_item i db).1)) inserted ∙ ap (λ d. (ok u, d)) at in
                let m =
                  movement_row context item (integer_of input.quantity) received (job_location job)
                    (job_id job) none in
                let same : db' ≡ record (with_item i db) {
                  inventory_movements = db.inventory_movements ++ (m ∷ []);
                } =
                  ground (arith, good, whole, h) in
                (
                  with_item-Accounts i db db' clash (ap (λ d. d.inventory_items) same) (λ k other.
                      ap (λ d. moved k d.inventory_movements) same
                      ∙ moved-append_other k m db.inventory_movements other),
                  rw same (with_item-IsShelf i db clash (some_more, high) s),
                )
            | inr (e, refused) ↦ ground (arith, good, refused, h)
          ]
      | inr (e, bad) ↦ ground (arith, bad, h)
    ]

pub receive_found-Accounts :
    (context : TenantContext) (item : ℕ) (job : Option WorkOrder) (input : ReceiveInput)
    (db db' : Db) (out : ℕ × ℤ)
    → pos 0 ≤ℤ integer_of input.quantity
    → IsShelf db
    → receive_found context item input job
        (find_first (is_part context.organization_id input) db.inventory_items)
        db
      ≡ (ok out, db')
    → Accounts db db' × IsShelf db'
unfolding receive_found
receive_found-Accounts context item job input db db' out some_more (keyed, stocked) h =
    elim (Option-cases (find_first (is_part context.organization_id input) db.inventory_items)) [
      | inl missing ↦
          receive_new-Accounts context item job input db db' out some_more (keyed, stocked)
            (sym (rw missing refl) ∙ h)
      | inr (i, found) ↦
          receive_more-Accounts context i job input db db' out
            (find_of_found item_id_of _ db.inventory_items i keyed found)
            (IsStocked-of_found _ db.inventory_items i stocked found) some_more (keyed, stocked)
            (sym (rw found refl) ∙ h)
    ]

-- `inventoryItem.create` changes nothing, or adds the row.
pub insert_item-cases :
    (i : InventoryItem) (db : Db)
    → ((insert_item i db).1 ≡ db)
      ⊎ ((any (item_clashes i) db.inventory_items ≡ false)
          × (i.quantity_on_hand ≤ℤ pos 2_147_483_647)
          × ((insert_item i db).1 ≡ with_item i db))
insert_item-cases i db = go (insert_item i db) refl
  where
    go :
        (x : Result (Unit {0}) × Db)
        → insert_item i db ≡ x
        → (x.1 ≡ db)
          ⊎ ((any (item_clashes i) db.inventory_items ≡ false)
              × (i.quantity_on_hand ≤ℤ pos 2_147_483_647)
              × (x.1 ≡ with_item i db))
    go (ok u, db') h = inr (insert_item_ok i db db' u h)
    go (err e, db') h = inl (insert_item_err i db db' e h)

-- An insert keeps the shelf and changes no quantity.
pub with_item_kept :
    (i : InventoryItem) (db : Db)
    → any (item_clashes i) db.inventory_items ≡ false
    → pos 0 ≤ℤ i.quantity_on_hand
    → i.quantity_on_hand ≤ℤ pos 2_147_483_647
    → IsShelf db
    → Accounts db (with_item i db) × IsShelf (with_item i db)
with_item_kept i db clash low high s = (
  with_item-Accounts i db (with_item i db) clash refl (λ k _. refl),
  with_item-IsShelf i db clash (low, high) s,
)
