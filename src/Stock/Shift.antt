-- ===== src/Stock/Shift.antt =====
-- One change of a quantity beside its movement, as adjusting, issuing and receiving make it.
use shop_os.Common.{
  ℕ, ℤ, pos, ◌+ℤ◌, ◌≤ℤ◌, List, [], ◌∷◌, ◌++◌, ◌≡◌, some, ◌==◌, arith, int_laws, update_where, inl,
  inr, Bool-cases, ==→eq, false, some-injective, sym, ◌∙◌, ap, true, find_first, Option-cases,
  ltb_ℤ, refl, ltb-false,
}
use shop_os.Db.{Db, InventoryItem, InventoryMovement}
use shop_os.Db.Keyed.{find, find-update, update-IsKeyed, find_of_found}
use shop_os.Stock.Accounts.{
  Accounts, item_id_of, moved, moved-append, IsShelf, All-update_where, moved-append_other,
}
use shop_os.Inventory.{
  with_stock, shift_stock, update_item, record_stock_movement, store_int, owned_item,
}
use shop_os.Tenancy.{TenantContext}
use shop_os.Result.{ok}

-- the database after the quantity of `i` became `next` beside the movement `m`
abbrev pub restocked :
    InventoryItem → ℤ → (InventoryItem → InventoryItem) → InventoryMovement → Db → Db
restocked i next f m db = record db {
  inventory_items =
      update_where (λ x. x.id == i.id) (λ x. with_stock next (f x)) db.inventory_items;
  inventory_movements = db.inventory_movements ++ (m ∷ []);
}

-- What the database is after a change that returned, and what is then known of the item.
abbrev Restocks : (m : InventoryMovement) → Db → Db → Type 0
Restocks m db db' =
    (i : InventoryItem) × (f : InventoryItem → InventoryItem) × ((x : InventoryItem)
      → item_id_of (f x) ≡ item_id_of x)
    × (find item_id_of i.id db.inventory_items ≡ some i)
    × (m.inventory_item_id ≡ i.id)
    × (pos 0 ≤ℤ i.quantity_on_hand +ℤ m.delta)
    × (i.quantity_on_hand +ℤ m.delta ≤ℤ pos 2_147_483_647)
    × (db' ≡ restocked i (i.quantity_on_hand +ℤ m.delta) f m db)

-- A movement counts for its own item only.
moved-append_own :
    (k : ℕ) (m : InventoryMovement) (ms : List InventoryMovement) (a b : ℤ)
    → m.inventory_item_id ≡ k
    → a ≡ b
    → (a +ℤ m.delta) +ℤ moved k ms ≡ b +ℤ moved k (ms ++ (m ∷ []))
moved-append_own k m ms a b own same =
    let counts : (m.inventory_item_id == k) ≡ true = ground (arith, own) in
    rw (moved-append k ms (m ∷ []), counts, same) (omega int_laws)

restocked-Accounts :
    (i : InventoryItem) (f : InventoryItem → InventoryItem) (m : InventoryMovement) (db : Db)
    → ((x : InventoryItem) → item_id_of (f x) ≡ item_id_of x)
    → find item_id_of i.id db.inventory_items ≡ some i
    → m.inventory_item_id ≡ i.id
    → Accounts db (restocked i (i.quantity_on_hand +ℤ m.delta) f m db)
restocked-Accounts i f m db keep found own k j found_j =
    let set : InventoryItem → InventoryItem =
      λ x. with_stock (i.quantity_on_hand +ℤ m.delta) (f x) in
    let seen = find-update item_id_of i.id k set db.inventory_items keep in
    elim (Bool-cases (k == i.id)) [
      | inl same ↦
          let e = ==→eq k i.id same in
          let is_i : i ≡ j = some-injective (sym found ∙ rw (← e) found_j) in
          (
            set j,
            seen ∙ rw (found_j, same),
            moved-append_own k m db.inventory_movements _ _ (own ∙ sym e)
                (ap (λ x. x.quantity_on_hand) is_i),
          )
      | inr other ↦ (
        j,
        seen ∙ rw (found_j, other),
        rw (moved-append_other k m db.inventory_movements (ground (arith, own))) refl,
      )
    ]

restocked-IsShelf :
    (i : InventoryItem) (next : ℤ) (f : InventoryItem → InventoryItem) (m : InventoryMovement)
    (db : Db)
    → ((x : InventoryItem) → item_id_of (f x) ≡ item_id_of x)
    → pos 0 ≤ℤ next
    → next ≤ℤ pos 2_147_483_647
    → IsShelf db
    → IsShelf (restocked i next f m db)
restocked-IsShelf i next f m db keep low high (keyed, stocked) =
    let set : InventoryItem → InventoryItem = λ x. with_stock next (f x) in
    (
      update-IsKeyed item_id_of i.id set db.inventory_items keep keyed,
      All-update_where _ set db.inventory_items (λ x _. (low, high)) stocked,
    )

-- A change beside its movement keeps the shelf, and the movements account for it.
pub Restocks-Accounts :
    (m : InventoryMovement) (db db' : Db)
    → Restocks m db db'
    → IsShelf db
    → Accounts db db' × IsShelf db'
Restocks-Accounts m db db' (i, f, keep, found, own, low, high, same) s =
    rw same
      (restocked-Accounts i f m db keep found own, restocked-IsShelf i _ f m db keep low high s)

-- What `shift_stock` does when it returns.
pub shift_stock_ok :
    (context : TenantContext) (item : ℕ) (delta : ℤ) (m : InventoryMovement) (db db' : Db)
    (left : ℤ)
    → IsShelf db
    → shift_stock context item delta m db ≡ (ok left, db')
    → (i : InventoryItem) × (find_first (owned_item context.organization_id item) db.inventory_items
        ≡ some i)
      × (left ≡ i.quantity_on_hand +ℤ delta)
      × Restocks (record m { inventory_item_id = i.id; delta = delta }) db db'
unfolding shift_stock update_item record_stock_movement store_int
shift_stock_ok context item delta m db db' left (keyed, s) h =
    elim (Option-cases (find_first (owned_item context.organization_id item) db.inventory_items)) [
      | inl missing ↦ ground arith
      | inr (i, found) ↦
          let there =
            find_of_found item_id_of (owned_item context.organization_id item) db.inventory_items i
              keyed found in
          let next = i.quantity_on_hand +ℤ delta in
          let bounds : (ltb_ℤ next (pos 0) ≡ false) × (ltb_ℤ (pos 2_147_483_647) next ≡ false) =
            ground (arith, found, h) in
          let same : (left ≡ next)
              × (db'
                  ≡ restocked i next (λ x. x) (record m { inventory_item_id = i.id; delta = delta })
                      db) =
            ground (arith, found, h) in
          (
            i,
            found,
            same.0,
            (
              i,
              λ x. x,
              λ x. refl,
              there,
              refl,
              ltb-false _ _ bounds.0,
              ltb-false _ _ bounds.1,
              same.1,
            ),
          )
    ]

-- It keeps the shelf, and its movement accounts for the change.
pub shift_stock-Accounts :
    (context : TenantContext) (item : ℕ) (delta : ℤ) (m : InventoryMovement) (db db' : Db)
    (left : ℤ)
    → IsShelf db
    → shift_stock context item delta m db ≡ (ok left, db')
    → Accounts db db' × IsShelf db'
shift_stock-Accounts context item delta m db db' left s h =
    let (i, found, sum, r) = shift_stock_ok context item delta m db db' left s h in
    Restocks-Accounts _ db db' r s
