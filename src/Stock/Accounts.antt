-- ===== src/Stock/Accounts.antt =====
-- The shelf, and the movements that account for what is on it.
use shop_os.Common.{
  ℕ, ℤ, pos, ◌+ℤ◌, ◌≤ℤ◌, List, [], ◌∷◌, ◌++◌, ◌≡◌, refl, some, if◌then◌else◌, ◌==◌, All, arith,
  int_laws, update_where, Bool, ap, pos_part, neg_part, false, find_first, Bool-cases, inl, subst,
  some-injective, sym, ◌∙◌, inr,
}
use shop_os.Db.{Db, InventoryItem, InventoryMovement, WorkOrder}
use shop_os.Db.Keyed.{find, IsKeyed}
use shop_os.Inventory.{owned_item}
use shop_os.WorkOrders.Service.{owned_work_order}

-- the sum of the movements of an item
abbrev pub moved : (item_id : ℕ) → List InventoryMovement → ℤ
moved item [] = pos 0
moved item (m ∷ ms) = (if m.inventory_item_id == item then m.delta else pos 0) +ℤ moved item ms

abbrev pub item_id_of : InventoryItem → ℕ
item_id_of i = i.id

-- Each item of the first database is still there, and its quantity has changed by the sum of the
-- movements recorded since.
abbrev pub Accounts : Db → Db → Type 0
Accounts db db' =
    (k : ℕ) (i : InventoryItem)
    → find item_id_of k db.inventory_items ≡ some i
    → (i' : InventoryItem) × (find item_id_of k db'.inventory_items ≡ some i')
      × (i'.quantity_on_hand +ℤ moved k db.inventory_movements
          ≡ i.quantity_on_hand +ℤ moved k db'.inventory_movements)

pub Accounts-refl : (db : Db) → Accounts db db
Accounts-refl db k i found = (i, found, refl)

pub Accounts-trans : (a b c : Db) → Accounts a b → Accounts b c → Accounts a c
Accounts-trans a b c ab bc k i found =
    let (j, found_j, e) = ab k i found in
    let (l, found_l, e') = bc k j found_j in
    (l, found_l, omega (int_laws, ap pos_part e, ap neg_part e, ap pos_part e', ap neg_part e'))

-- the quantities that a shelf can hold
abbrev pub IsStocked : InventoryItem → Type 0
IsStocked i = (pos 0 ≤ℤ i.quantity_on_hand) × (i.quantity_on_hand ≤ℤ pos 2_147_483_647)

-- No two items have the same id, and each quantity is one that a shelf can hold.
abbrev pub IsShelf : Db → Type 0
IsShelf db = IsKeyed item_id_of db.inventory_items × All IsStocked db.inventory_items

pub moved-append :
    (k : ℕ) (xs ys : List InventoryMovement) → moved k (xs ++ ys) ≡ moved k xs +ℤ moved k ys
moved-append k [] ys = omega int_laws
moved-append k (x ∷ xs) ys = rw (moved-append k xs ys) (omega int_laws)

pub All-update_where :
    (p : InventoryItem → Bool) (f : InventoryItem → InventoryItem) (xs : List InventoryItem)
    → ((x : InventoryItem) → IsStocked x → IsStocked (f x))
    → All IsStocked xs
    → All IsStocked (update_where p f xs)
All-update_where p f [] keep _ = tt
All-update_where p f (x ∷ xs) keep (s, ss) = ground (arith, keep x, All-update_where p f xs keep)

-- A movement of another item does not count.
pub moved-append_other :
    (k : ℕ) (m : InventoryMovement) (ms : List InventoryMovement)
    → (m.inventory_item_id == k) ≡ false
    → moved k (ms ++ (m ∷ [])) ≡ moved k ms
moved-append_other k m [] other = rw other (omega int_laws)
moved-append_other k m (x ∷ xs) other = rw (moved-append_other k m xs other) refl

pub IsStocked-of_found :
    (p : InventoryItem → Bool) (xs : List InventoryItem) (i : InventoryItem)
    → All IsStocked xs
    → find_first p xs ≡ some i
    → IsStocked i
IsStocked-of_found p [] i _ h = cc
IsStocked-of_found p (x ∷ xs) i (s, ss) h = elim (Bool-cases (p x)) [
  | inl here ↦ subst IsStocked {x = x} (some-injective (sym (rw here refl) ∙ h)) s
  | inr later ↦ IsStocked-of_found p xs i ss (sym (rw later refl) ∙ h)
]

-- What a search in one organization finds has the id that it asked for.
pub owned_item-id :
    (org item : ℕ) (xs : List InventoryItem) (i : InventoryItem)
    → find_first (owned_item org item) xs ≡ some i
    → i.id ≡ item
owned_item-id org item [] i h = cc
owned_item-id org item (x ∷ xs) i h = ground (arith, owned_item-id org item xs i, h)

pub owned_work_order-id :
    (org wo : ℕ) (xs : List WorkOrder) (w : WorkOrder)
    → find_first (owned_work_order org wo) xs ≡ some w
    → w.id ≡ wo
owned_work_order-id org wo [] w h = cc
owned_work_order-id org wo (x ∷ xs) w h = ground (arith, owned_work_order-id org wo xs w, h)
