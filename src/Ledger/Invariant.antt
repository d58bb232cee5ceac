-- ===== src/Ledger/Invariant.antt =====
-- The invariant of the ledger, and how it survives a payment and a refund on one invoice.
use shop_os.Common.{
  ℕ, ◌≡◌, ◌≢◌, refl, sym, none, some, List, [], ◌∷◌, ◌++◌, arith, ◌==◌, if◌then◌else◌, same_id, All,
  update_where, ℤ, pos, ◌+ℤ◌, ◌-ℤ◌, ◌≤ℤ◌, int_laws, ◌⊎◌, Option-cases, inl, ◌∙◌, inr, Bool-cases,
  ==→eq, subst,
}
use shop_os.Db.{Db, Invoice, InvoiceStatus, Payment, Refund}
use shop_os.Db.Keyed.{by_id, find, IsKeyed, find-update, update-IsKeyed}
use shop_os.Invoices.{with_paid, status_at}

-- the amounts of the payments on an invoice
abbrev pub paid_on : (invoice_id : ℕ) → List Payment → ℤ
paid_on k [] = pos 0
paid_on k (p ∷ ps) =
    (if same_id p.invoice_id (some k) then p.amount_minor else pos 0) +ℤ paid_on k ps

-- the amounts of the refunds on an invoice
abbrev pub refunded_on : (invoice_id : ℕ) → List Refund → ℤ
refunded_on k [] = pos 0
refunded_on k (r ∷ rs) =
    (if same_id r.invoice_id (some k) then r.amount_minor else pos 0) +ℤ refunded_on k rs

abbrev pub invoice_id_of : Invoice → ℕ
invoice_id_of i = i.id

-- PAID means that the total is covered, PARTIALLY_PAID that it is not.
pub record StatusAgrees (i : Invoice) : Type 0 where
  pub covered : i.status ≡ InvoiceStatus.paid → i.total_minor ≤ℤ i.paid_minor
  pub short : i.status ≡ InvoiceStatus.partially_paid → ¬ (i.total_minor ≤ℤ i.paid_minor)

-- Invoices have unique ids; the paid amount of each is what its payments brought in less what its
-- refunds took back; and its status agrees with that amount.
pub record IsLedger (db : Db) : Type 0 where
  pub keyed : IsKeyed invoice_id_of db.invoices
  pub balanced :
      (k : ℕ) (i : Invoice)
      → find invoice_id_of k db.invoices ≡ some i
      → i.paid_minor ≡ paid_on k db.payments -ℤ refunded_on k db.refunds
  pub agrees : (k : ℕ) (i : Invoice) → find invoice_id_of k db.invoices ≡ some i → StatusAgrees i

paid_on-append :
    (k : ℕ) (ps qs : List Payment) → paid_on k (ps ++ qs) ≡ paid_on k ps +ℤ paid_on k qs
paid_on-append k [] qs = omega int_laws
paid_on-append k (p ∷ ps) qs = rw (paid_on-append k ps qs) (omega int_laws)

pub refunded_on-append :
    (k : ℕ) (ps qs : List Refund) → refunded_on k (ps ++ qs) ≡ refunded_on k ps +ℤ refunded_on k qs
refunded_on-append k [] qs = omega int_laws
refunded_on-append k (p ∷ ps) qs = rw (refunded_on-append k ps qs) (omega int_laws)

-- A change of the invoice `i` alone: payments and refunds are added to it and to no other, and its
-- paid amount moves by what they come to.
pub record Settles (i : Invoice) (ps : List Payment) (rs : List Refund) (paid : ℤ)
    (status : InvoiceStatus) (db db' : Db) : Type 0 where
  pub invoices :
      db'.invoices ≡ update_where (by_id invoice_id_of i.id) (with_paid paid status) db.invoices
  pub payments : db'.payments ≡ db.payments ++ ps
  pub refunds : db'.refunds ≡ db.refunds ++ rs
  pub payments_here : All (λ p. p.invoice_id ≡ some i.id) ps
  pub refunds_here : All (λ r. r.invoice_id ≡ some i.id) rs
  pub paid_eq : paid ≡ i.paid_minor +ℤ paid_on i.id ps -ℤ refunded_on i.id rs
  pub status_agrees : StatusAgrees (with_paid paid status i)

other_part : (k j : ℕ) (a : ℤ) → j ≢ k → (if k == j then a else pos 0) ≡ pos 0
other_part k j a ne = ground arith

pub own_part : (k : ℕ) (a : ℤ) → (if k == k then a else pos 0) ≡ a
own_part k a = ground arith

none-ne-some : {A : Type 0} (a : A) → ¬ (none ≡ some a)
none-ne-some a h = cc

paid_on_elsewhere :
    (k j : ℕ) (ps : List Payment)
    → j ≢ k
    → All (λ p. p.invoice_id ≡ some k) ps
    → paid_on j ps ≡ pos 0
paid_on_elsewhere k j [] ne h = refl
paid_on_elsewhere k j (p ∷ ps) ne (h, hs) =
    rw (h, paid_on_elsewhere k j ps ne hs, other_part k j p.amount_minor ne) (omega int_laws)

refunded_on_elsewhere :
    (k j : ℕ) (ps : List Refund)
    → j ≢ k
    → All (λ p. p.invoice_id ≡ some k) ps
    → refunded_on j ps ≡ pos 0
refunded_on_elsewhere k j [] ne h = refl
refunded_on_elsewhere k j (p ∷ ps) ne (h, hs) =
    rw (h, refunded_on_elsewhere k j ps ne hs, other_part k j p.amount_minor ne) (omega int_laws)

module _ (db db' : Db) (i : Invoice) (ps : List Payment) (rs : List Refund) (paid : ℤ)
    (status : InvoiceStatus) (ledger : IsLedger db)
    (here : find invoice_id_of i.id db.invoices ≡ some i)
    (s : Settles i ps rs paid status db db') where
  row_here :
      (j : ℕ) (x y : Invoice)
      → j ≡ i.id
      → find invoice_id_of j db.invoices ≡ some y
      → find invoice_id_of j
          (update_where (by_id invoice_id_of i.id) (with_paid paid status) db.invoices)
        ≡ some x
      → x ≡ with_paid paid status i
  row_here j x y k e h = ground (
    arith,
    here,
    find-update invoice_id_of i.id j (with_paid paid status) db.invoices (λ y. refl),
  )

  row_elsewhere :
      (j : ℕ) (x y : Invoice)
      → j ≢ i.id
      → find invoice_id_of j db.invoices ≡ some y
      → find invoice_id_of j
          (update_where (by_id invoice_id_of i.id) (with_paid paid status) db.invoices)
        ≡ some x
      → find invoice_id_of j db.invoices ≡ some x
  row_elsewhere j x y ne e h =
      ground
        (arith, find-update invoice_id_of i.id j (with_paid paid status) db.invoices (λ y. refl))

  balanced_after :
      (k : ℕ) (x : Invoice)
      → ((k ≡ i.id) × (x ≡ with_paid paid status i))
        ⊎ ((k ≢ i.id) × (find invoice_id_of k db.invoices ≡ some x))
      → x.paid_minor ≡ paid_on k db'.payments -ℤ refunded_on k db'.refunds
  balanced_after k x (inl (e, row)) =
      rw
        (
          row,
          e,
          s.payments,
          s.refunds,
          paid_on-append i.id db.payments ps,
          refunded_on-append i.id db.refunds rs,
          s.paid_eq,
          ledger.balanced i.id i here,
        )
        (omega int_laws)
  balanced_after k x (inr (ne, row)) =
      rw
        (
          s.payments,
          s.refunds,
          paid_on-append k db.payments ps,
          refunded_on-append k db.refunds rs,
          paid_on_elsewhere i.id k ps ne s.payments_here,
          refunded_on_elsewhere i.id k rs ne s.refunds_here,
          ledger.balanced k x row,
        )
        (omega int_laws)

  agrees_after :
      (k : ℕ) (x : Invoice)
      → ((k ≡ i.id) × (x ≡ with_paid paid status i))
        ⊎ ((k ≢ i.id) × (find invoice_id_of k db.invoices ≡ some x))
      → StatusAgrees x
  agrees_after k x (inl (e, row)) = subst StatusAgrees (sym row) s.status_agrees
  agrees_after k x (inr (ne, row)) = ledger.agrees k x row

  -- the row of an invoice afterwards
  found_after :
      (j : ℕ) (x : Invoice)
      → find invoice_id_of j db'.invoices ≡ some x
      → ((j ≡ i.id) × (x ≡ with_paid paid status i))
        ⊎ ((j ≢ i.id) × (find invoice_id_of j db.invoices ≡ some x))
  found_after j x h =
      let old = find-update invoice_id_of i.id j (with_paid paid status) db.invoices (λ y. refl) in
      let h' : find invoice_id_of j
            (update_where (by_id invoice_id_of i.id) (with_paid paid status) db.invoices)
          ≡ some x =
        rw s.invoices at h in
      elim (Option-cases (find invoice_id_of j db.invoices)) [
        | inl e ↦ absurd (none-ne-some x (rw e at (sym old ∙ h')))
        | inr (y, e) ↦ elim (Bool-cases (j == i.id)) [
          | inl same ↦ let k : j ≡ i.id = ==→eq j i.id same in inl (k, row_here j x y k e h')
          | inr other ↦
              let ne : j ≢ i.id = (λ k. ground arith) in inr (ne, row_elsewhere j x y ne e h')
        ]
      ]

  pub Settles-IsLedger : IsLedger db'
  Settles-IsLedger = record {
    keyed = rw s.invoices (
        update-IsKeyed invoice_id_of i.id (with_paid paid status) db.invoices (λ y. refl)
          ledger.keyed);
    balanced = λ k x h. balanced_after k x (found_after k x h);
    agrees = λ k x h. agrees_after k x (found_after k x h);
  }

-- The ledger is a statement about three tables.
pub IsLedger-of_same :
    (db db' : Db)
    → db'.invoices ≡ db.invoices
    → db'.payments ≡ db.payments
    → db'.refunds ≡ db.refunds
    → IsLedger db
    → IsLedger db'
IsLedger-of_same db db' e p r l = record {
  keyed = rw e l.keyed;
  balanced = λ k i h. rw (p, r) (l.balanced k i (rw e at h));
  agrees = λ k i h. l.agrees k i (rw e at h);
}

pub status_at-StatusAgrees :
    (i : Invoice) (paid : ℤ) → StatusAgrees (with_paid paid (status_at i.total_minor paid) i)
status_at-StatusAgrees i paid = ground arith
