-- ===== src/Stock/Settled.antt =====
-- Consuming the reservations of a list leaves none of those that it names.
use shop_os.Common.{
  ℕ, List, [], ◌∷◌, ◌≡◌, refl, Bool, if◌then◌else◌, true, false, All, any, ◌==◌, inl, inr,
  Bool-cases, filter, update_where, arith,
}
use shop_os.Db.{Reservation}
use shop_os.Inventory.{holds_for, as_consumed}

-- every reservation whose id is among those of the first list is consumed
abbrev pub consume_all : (now : ℕ) → List Reservation → List Reservation → List Reservation
consume_all now [] xs = xs
consume_all now (r ∷ rs) xs =
    consume_all now rs (update_where (λ x. x.id == r.id) (as_consumed now) xs)

All-weaken :
    (P Q : Reservation → Type 0) (xs : List Reservation)
    → ((x : Reservation) → P x → Q x)
    → All P xs
    → All Q xs
All-weaken P Q [] f _ = tt
All-weaken P Q (x ∷ xs) f (p, ps) = (f x p, All-weaken P Q xs f ps)

module _ (org wo : ℕ) where
  -- its id is among those of the list, if it is an active reservation of the work order
  abbrev Listed : List Reservation → Reservation → Type 0
  Listed rs x = holds_for org wo x ≡ true → any (λ r. x.id == r.id) rs ≡ true

  Listed-grow :
      (b : Bool) (x : Reservation) (rs : List Reservation) (y : Reservation)
      → Listed rs y
      → Listed (if b then x ∷ rs else rs) y
  Listed-grow true x rs y listed h = ground (arith, listed h)
  Listed-grow false x rs y listed h = listed h

  pub filter-Listed : (xs : List Reservation) → All (Listed (filter (holds_for org wo) xs)) xs
  filter-Listed [] = tt
  filter-Listed (x ∷ xs) =
      let rest = filter (holds_for org wo) xs in
      let both = if holds_for org wo x then x ∷ rest else rest in
      (
        λ h. rw h (ground arith),
        All-weaken (Listed rest) (Listed both) xs (Listed-grow (holds_for org wo x) x rest)
            (filter-Listed xs),
      )

  -- Consuming all that are listed leaves none.
  pub consume_all-settles :
      (now : ℕ) (rs xs : List Reservation)
      → All (Listed rs) xs
      → filter (holds_for org wo) (consume_all now rs xs) ≡ []
  consume_all-settles now [] [] _ = refl
  consume_all-settles now [] (x ∷ xs) (listed, rest) = elim (Bool-cases (holds_for org wo x)) [
    | inl held ↦ ground (arith, listed held)
    | inr other ↦ rw other (consume_all-settles now [] xs rest)
  ]
  consume_all-settles now (r ∷ rs) xs listed = consume_all-settles now rs _ (after xs listed)
    where
      still_listed :
          (y : Reservation)
          → Listed (r ∷ rs) y
          → Listed rs (if y.id == r.id then as_consumed now y else y)
      still_listed y listed = elim (Bool-cases (y.id == r.id)) [
        | inl same ↦ rw same (λ h. ground (arith, h))
        | inr other ↦ rw other (λ h. ground (arith, other, listed h))
      ]

      after :
          (ys : List Reservation)
          → All (Listed (r ∷ rs)) ys
          → All (Listed rs) (update_where (λ x. x.id == r.id) (as_consumed now) ys)
      after [] _ = tt
      after (y ∷ ys) (listed_y, listed_ys) = (still_listed y listed_y, after ys listed_ys)
