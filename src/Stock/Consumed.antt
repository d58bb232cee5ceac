-- ===== src/Stock/Consumed.antt =====
-- What `autoConsumeStockForInvoice` keeps, however each line ends.
use shop_os.Common.{
  ℕ, ℤ, pos, ◌≤ℤ◌, List, [], ◌∷◌, ◌++◌, ◌≡◌, refl, some, Bool, if◌then◌else◌, true, false, All, any,
  ◌==◌, inl, inr, Bool-cases, count_where, leb_ℤ, ◌≤◌, ◌-ℤ◌, update_where, arith, ◌+◌, ltb_ℤ,
  leb→le, ltb→lt, int_laws,
}
use shop_os.Db.{
  Db, Reservation, InventoryItem, InventoryMovement, Invoice, InvoiceLine, issued_to_job,
}
use shop_os.Result.{ok}
use shop_os.Inventory.{
  take_holds, take_line, is_of_line, min_ℤ, update_reservation, after_take, update_item,
  record_stock_movement, store_int, LineOutcome, with_stock, movement_row,
}
use shop_os.Stock.Accounts.{IsStocked, item_id_of, All-update_where}
use shop_os.Ledger.Frame.{SameMoney}
use shop_os.Tenancy.{TenantContext}
use shop_os.Db.Keyed.{IsKeyed, update-IsKeyed}

-- the reservations after holds were taken
abbrev pub taken : (now : ℕ) → ℤ → List Reservation → List Reservation → List Reservation
taken now to_take [] rows = rows
taken now to_take (h ∷ hs) rows =
    let part = min_ℤ h.quantity to_take in
    let rest =
      taken now (to_take -ℤ part) hs
        (update_where (λ r. r.id == h.id) (after_take now part h) rows) in
    if leb_ℤ to_take (pos 0) then rows else rest

pub take_holds_writes :
    (now : ℕ) (to_take : ℤ) (hs : List Reservation) (db : Db)
    → take_holds now to_take hs db
      ≡ (ok tt, record db { reservations = taken now to_take hs db.reservations })
unfolding take_holds
take_holds_writes now to_take [] db = refl
take_holds_writes now to_take (h ∷ hs) db = elim (Bool-cases (leb_ℤ to_take (pos 0))) [
  | inl enough ↦ rw enough refl
  | inr more ↦
      let part = min_ℤ h.quantity to_take in
      rw more (
        take_holds_writes now (to_take -ℤ part) hs
          (update_reservation h.id (after_take now part h) db))
]

-- Each invoice line has at most one movement.
abbrev pub OnePerLine : Db → Type 0
OnePerLine db =
    (org : ℕ) (line : InvoiceLine) → count_where (is_of_line org line) db.inventory_movements ≤ 1

-- A line that has no movement gets its first one.
none_before :
    (org org' : ℕ) (line line' : InvoiceLine) (ms : List InventoryMovement)
    → org ≡ org'
    → line.invoice_id ≡ line'.invoice_id
    → line.position ≡ line'.position
    → any (is_of_line org line) ms ≡ false
    → count_where (is_of_line org' line') ms ≡ 0
none_before org org' line line' [] a b c fresh = refl
none_before org org' line line' (m ∷ ms) a b c fresh =
    ground (arith, none_before org org' line line' ms a b c)

count_where-append :
    (p : InventoryMovement → Bool) (ms : List InventoryMovement) (m : InventoryMovement)
    → count_where p (ms ++ (m ∷ [])) ≡ count_where p ms + (if p m then 1 else 0)
count_where-append p [] m = ground arith
count_where-append p (x ∷ xs) m = omega (arith, count_where-append p xs m)

pub count-append_first :
    (org org' : ℕ) (line line' : InvoiceLine) (m : InventoryMovement) (ms : List InventoryMovement)
    → any (is_of_line org line) ms ≡ false
    → m.organization_id ≡ org
    → m.invoice_line ≡ some (line.invoice_id, line.position)
    → count_where (is_of_line org' line') ms ≤ 1
    → count_where (is_of_line org' line') (ms ++ (m ∷ [])) ≤ 1
count-append_first org org' line line' m ms fresh o l one =
    let sum = count_where-append (is_of_line org' line') ms m in
    elim (Bool-cases (is_of_line org' line' m)) [
      | inr other ↦ rw (sum, other) (omega (arith, one))
      | inl own ↦
          let same : (org ≡ org')
              × (line.invoice_id ≡ line'.invoice_id)
              × (line.position ≡ line'.position) =
            ground (arith, o, l, own) in
          let zero = none_before org org' line line' ms same.0 same.1 same.2 fresh in
          rw (sum, own, zero) (omega arith)
    ]

-- What a line that is taken writes.
pub take_line_writes :
    (context : TenantContext) (now : ℕ) (invoice : Invoice) (line : InvoiceLine) (i : InventoryItem)
    (hs : List Reservation) (q : ℕ) (db db' : Db) (out : LineOutcome)
    → take_line context now invoice line i hs (pos q) db ≡ (ok out, db')
    → (db'.inventory_items ≡ (
        if ltb_ℤ (pos 0) (min_ℤ (pos q) i.quantity_on_hand)
        then update_where
            (λ x. x.id == i.id)
            (with_stock (i.quantity_on_hand -ℤ min_ℤ (pos q) i.quantity_on_hand))
            db.inventory_items
        else db.inventory_items))
      × (db'.inventory_movements
          ≡ db.inventory_movements
            ++ (movement_row context i.id
                  (pos 0 -ℤ pos q)
                  issued_to_job
                  (some invoice.location_id)
                  (some invoice.work_order_id)
                  (some (line.invoice_id, line.position))
                ∷ []))
      × SameMoney db db'
unfolding take_line update_item record_stock_movement store_int
take_line_writes context now invoice line i hs q db db' out h =
    ground (arith, take_holds_writes now (pos q) hs db, h)

-- What is taken of the shelf is at most what is there.
take_within :
    (on_hand q : ℤ)
    → pos 0 ≤ℤ on_hand
    → ltb_ℤ (pos 0) (min_ℤ q on_hand) ≡ true
    → (pos 0 ≤ℤ on_hand -ℤ min_ℤ q on_hand) × (on_hand -ℤ min_ℤ q on_hand ≤ℤ on_hand)
take_within on_hand q low some_more = elim (Bool-cases (leb_ℤ q on_hand)) [
  | inl fits ↦
      let le = leb→le _ _ fits in
      let positive : ltb_ℤ (pos 0) q ≡ true = ground (arith, fits, some_more) in
      rw fits (omega (int_laws, le), omega (int_laws, ltb→lt _ _ positive))
  | inr short ↦ rw short (omega (int_laws, low), omega (int_laws, low))
]

pub shelf_after_take :
    (i : InventoryItem) (q : ℤ) (xs : List InventoryItem)
    → IsStocked i
    → IsKeyed item_id_of xs × All IsStocked xs
    → (let after =
          if ltb_ℤ (pos 0) (min_ℤ q i.quantity_on_hand)
          then update_where
              (λ x. x.id == i.id)
              (with_stock (i.quantity_on_hand -ℤ min_ℤ q i.quantity_on_hand))
              xs
          else xs in
        IsKeyed item_id_of after × All IsStocked after)
shelf_after_take i q xs (low, high) (keyed, stocked) =
    elim (Bool-cases (ltb_ℤ (pos 0) (min_ℤ q i.quantity_on_hand))) [
      | inr nothing ↦ rw nothing (keyed, stocked)
      | inl some_more ↦
          let set = with_stock (i.quantity_on_hand -ℤ min_ℤ q i.quantity_on_hand) in
          let (low', high') = take_within i.quantity_on_hand q low some_more in
          rw some_more (
            update-IsKeyed item_id_of i.id set xs (λ x. refl) keyed,
            All-update_where (λ x. x.id == i.id) set xs (λ x _. (low', omega (arith, high, high')))
                stocked,
          )
    ]
