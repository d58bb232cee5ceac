-- ===== src/Outbox/Order.antt =====
-- Selecting the rows that are due: what a property of rows, a search by id and a length become.
use shop_os.Common.{
  ℕ, Bool, true, List, [], ◌∷◌, ◌≡◌, All, filter, length, ◌≤◌, ◌==◌, some, none, refl,
  if◌then◌else◌, arith, Bool-cases, inl, inr, leb, suc, ◌∙◌, ap, ==→eq, some-injective, sym, subst,
  false,
}
use shop_os.Db.Keyed.{find, IsKeyed}
use shop_os.Outbox.Queue.{OutboxRow}
use shop_os.Outbox.Dispatch.{take, insert_by_time, order_by_time, is_among}
use Prim.Native.Nat.{zero}

abbrev pub row_id : OutboxRow → ℕ
row_id row = row.id

module _ (P : OutboxRow → Type 0) where
  pub All-filter :
      (p : OutboxRow → Bool) (rows : List OutboxRow)
      → All (λ row. p row ≡ true → P row) rows
      → All P (filter p rows)
  All-filter p [] _ = tt
  All-filter p (row ∷ rows) (holds, rest) = elim (Bool-cases (p row)) [
    | inl kept ↦ rw kept (holds kept, All-filter p rows rest)
    | inr dropped ↦ rw dropped (All-filter p rows rest)
  ]

  All-insert :
      (row : OutboxRow) (rows : List OutboxRow)
      → P row
      → All P rows
      → All P (insert_by_time row rows)
  All-insert row [] p _ = (p, tt)
  All-insert row (other ∷ rows) p (q, ps) =
      elim (Bool-cases (leb row.available_at other.available_at)) [
        | inl before ↦ rw before (p, (q, ps))
        | inr after ↦ rw after (q, All-insert row rows p ps)
      ]

  pub All-order : (rows : List OutboxRow) → All P rows → All P (order_by_time rows)
  unfolding order_by_time
  All-order [] _ = tt
  All-order (row ∷ rows) (p, ps) = All-insert row (order_by_time rows) p (All-order rows ps)

  pub All-take : (n : ℕ) (rows : List OutboxRow) → All P rows → All P (take n rows)
  All-take zero rows _ = tt
  All-take (suc n) [] _ = tt
  All-take (suc n) (row ∷ rows) (p, ps) = (p, All-take n rows ps)

pub length-take : (n : ℕ) (rows : List OutboxRow) → length (take n rows) ≤ n
length-take zero rows = omega arith
length-take (suc n) [] = omega arith
length-take (suc n) (row ∷ rows) = omega (arith, length-take n rows)

-- A batch that is large enough holds all rows.
pub take-all : (n : ℕ) (rows : List OutboxRow) → length rows ≤ n → take n rows ≡ rows
take-all zero [] h = refl
take-all zero (row ∷ rows) h = ground (arith, h)
take-all (suc n) [] h = refl
take-all (suc n) (row ∷ rows) h = ap (λ rest. row ∷ rest) (take-all n rows (ground (arith, h)))

length-insert :
    (row : OutboxRow) (rows : List OutboxRow) → length (insert_by_time row rows) ≡ suc (length rows)
length-insert row [] = refl
length-insert row (other ∷ rows) = ground (arith, length-insert row rows)

pub length-order : (rows : List OutboxRow) → length (order_by_time rows) ≡ length rows
unfolding order_by_time
length-order [] = refl
length-order (row ∷ rows) = length-insert row (order_by_time rows) ∙ ap suc (length-order rows)

-- A search by id in a selection of rows with different ids.
find-filter-none :
    (p : OutboxRow → Bool) (k : ℕ) (rows : List OutboxRow)
    → find row_id k rows ≡ none
    → find row_id k (filter p rows) ≡ none
find-filter-none p k [] h = refl
find-filter-none p k (row ∷ rows) h = ground (arith, find-filter-none p k rows)

pub find-filter :
    (p : OutboxRow → Bool) (k : ℕ) (rows : List OutboxRow) (row : OutboxRow)
    → IsKeyed row_id rows
    → find row_id k rows ≡ some row
    → find row_id k (filter p rows) ≡ (if p row then some row else none)
find-filter p k [] row u h = cc
find-filter p k (other ∷ rows) row (fresh, u) h = elim (Bool-cases (other.id == k)) [
  | inl here ↦
      let same = ==→eq other.id k here in
      let is_row : other ≡ row = some-injective (sym (rw here refl) ∙ h) in
      let rest = filter p rows in
      let own : find row_id k (if p other then other ∷ rest else rest)
          ≡ (if p other then some other else none) =
        elim (Bool-cases (p other)) [
          | inl kept ↦ rw (kept, here) refl
          | inr dropped ↦
              rw dropped (
                subst (λ j. find row_id j rest ≡ none) same
                  (find-filter-none p other.id rows fresh))
        ] in
      own ∙ ap (λ r. if p r then some r else none) is_row
  | inr later ↦ ground (arith, later, find-filter p k rows row u)
]

pub filter-IsKeyed :
    (p : OutboxRow → Bool) (rows : List OutboxRow)
    → IsKeyed row_id rows
    → IsKeyed row_id (filter p rows)
filter-IsKeyed p [] u = tt
filter-IsKeyed p (row ∷ rows) (fresh, u) = elim (Bool-cases (p row)) [
  | inl kept ↦ rw kept (find-filter-none p row.id rows fresh, filter-IsKeyed p rows u)
  | inr dropped ↦ rw dropped (filter-IsKeyed p rows u)
]

find-insert :
    (k : ℕ) (row : OutboxRow) (rows : List OutboxRow)
    → find row_id row.id rows ≡ none
    → find row_id k (insert_by_time row rows) ≡ find row_id k (row ∷ rows)
find-insert k row [] fresh = refl
find-insert k row (other ∷ rows) fresh = ground (arith, find-insert k row rows)

insert-IsKeyed :
    (row : OutboxRow) (rows : List OutboxRow)
    → find row_id row.id rows ≡ none
    → IsKeyed row_id rows
    → IsKeyed row_id (insert_by_time row rows)
insert-IsKeyed row [] fresh u = (refl, tt)
insert-IsKeyed row (other ∷ rows) fresh (gone, u) =
    let fresh' : find row_id row.id rows ≡ none = ground (arith, fresh) in
    elim (Bool-cases (leb row.available_at other.available_at)) [
      | inl before ↦ rw before (fresh, (gone, u))
      | inr after ↦ rw after (
        find-insert other.id row rows fresh' ∙ ground (arith, fresh, gone),
        insert-IsKeyed row rows fresh' u,
      )
    ]

pub find-order :
    (k : ℕ) (rows : List OutboxRow)
    → IsKeyed row_id rows
    → find row_id k (order_by_time rows) ≡ find row_id k rows
unfolding order_by_time
find-order k [] u = refl
find-order k (row ∷ rows) (fresh, u) =
    find-insert k row (order_by_time rows) (find-order row.id rows u ∙ fresh)
    ∙ ground (arith, find-order k rows u)

pub order-IsKeyed :
    (rows : List OutboxRow) → IsKeyed row_id rows → IsKeyed row_id (order_by_time rows)
unfolding order_by_time
order-IsKeyed [] u = tt
order-IsKeyed (row ∷ rows) (fresh, u) =
    insert-IsKeyed row (order_by_time rows) (find-order row.id rows u ∙ fresh)
      (order-IsKeyed rows u)

pub find-take-none :
    (k n : ℕ) (rows : List OutboxRow)
    → find row_id k rows ≡ none
    → find row_id k (take n rows) ≡ none
find-take-none k zero rows h = refl
find-take-none k (suc n) [] h = refl
find-take-none k (suc n) (row ∷ rows) h = ground (arith, find-take-none k n rows)

pub none-is_among :
    (row : OutboxRow) (claimed : List OutboxRow)
    → find row_id row.id claimed ≡ none
    → is_among claimed row ≡ false
none-is_among row [] h = refl
none-is_among row (c ∷ cs) h = ground (arith, none-is_among row cs)
