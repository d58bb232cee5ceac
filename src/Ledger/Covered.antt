-- ===== src/Ledger/Covered.antt =====
-- The refunds of a payment never exceed it.
use shop_os.Ledger.Refunding.{refund_payment-writes, MayRefund, payment_id_of}
use shop_os.Db.{Db, Refund, Payment, Text}
use shop_os.Common.{
  ℕ, Bool, List, ℤ, Option, filter, find_first, ◌++◌, ◌==◌, ◌∷◌, ◌≡◌, [], pos, some, ◌&&◌,
  Bool-cases, if◌then◌else◌, ◌+ℤ◌, arith, inl, refl, ◌≤ℤ◌, inr, append-nil, ==→eq, int_laws, subst,
  Number, sym, ◌∙◌, some-injective,
}
use shop_os.Billing.{sum_refunds, refund_body, refund_row, refunds_of, Processor, refund_payment}
use shop_os.Tenancy.{TenantContext}
use shop_os.Db.Keyed.{IsKeyed, find, find_of_own_key}
use shop_os.Ledger.Refund.{refund_body-rows}

-- Payments have unique ids, and the refunds of each come to at most its amount.
pub record IsCovered (db : Db) : Type 0 where
  pub keyed : IsKeyed payment_id_of db.payments
  pub covered :
      (k : ℕ) (p : Payment)
      → find payment_id_of k db.payments ≡ some p
      → sum_refunds (pos 0) (refunds_of k db) ≤ℤ p.amount_minor

sum_refunds-append :
    (sum : ℤ) (rs : List Refund) (r : Refund)
    → sum_refunds sum (rs ++ (r ∷ [])) ≡ sum_refunds sum rs +ℤ r.amount_minor
unfolding sum_refunds
sum_refunds-append sum [] r = refl
sum_refunds-append sum (x ∷ rs) r = sum_refunds-append (sum +ℤ x.amount_minor) rs r

filter-append :
    (q : Refund → Bool) (rs : List Refund) (r : Refund)
    → filter q (rs ++ (r ∷ [])) ≡ filter q rs ++ (if q r then r ∷ [] else [])
filter-append q [] r = refl
filter-append q (x ∷ rs) r = ground (arith, filter-append q rs r)

owned_row_at :
    (context : TenantContext) (payment : ℕ) (db : Db) (p : Payment)
    → IsKeyed payment_id_of db.payments
    → find_first (λ p. p.id == payment && p.organization_id == context.organization_id) db.payments
      ≡ some p
    → find payment_id_of p.id db.payments ≡ some p
owned_row_at context payment db p u h =
    find_of_own_key payment_id_of payment (λ x. x.organization_id == context.organization_id)
      db.payments p u h

module _ (context : TenantContext) (now refund payment : ℕ) (p : Payment) (amount : ℤ)
    (reason reference : Option Text) (through : Bool) (db : Db) (c : IsCovered db)
    (may : MayRefund context payment db p amount) where
  abbrev after : Db
  after = (refund_body context now refund p amount reason reference through db).1

  abbrev row : Refund
  row = refund_row context now refund p amount reason reference

  refunded_after :
      (k : ℕ)
      → sum_refunds (pos 0) (refunds_of k after) ≡ (
          if p.id == k
          then sum_refunds (pos 0) (refunds_of k db) +ℤ amount
          else sum_refunds (pos 0) (refunds_of k db))
  refunded_after k =
      let (same, rows) = refund_body-rows context now refund p amount reason reference through db in
      rw (rows, filter-append (λ r. r.payment_id == k) db.refunds row)
        (elim (Bool-cases (p.id == k)) [
          | inl here ↦ rw here (sum_refunds-append (pos 0) (refunds_of k db) row)
          | inr elsewhere ↦ rw (elsewhere, append-nil (refunds_of k db)) refl
        ])

  here : find payment_id_of p.id db.payments ≡ some p
  here = owned_row_at context payment db p c.keyed may.found

  fits : sum_refunds (pos 0) (refunds_of p.id db) +ℤ amount ≤ℤ p.amount_minor
  fits = omega (int_laws, may.covered)

  fits_at :
      (k : ℕ) (q : Payment)
      → p.id ≡ k
      → find payment_id_of k db.payments ≡ some q
      → sum_refunds (pos 0) (refunds_of k db) +ℤ amount ≤ℤ q.amount_minor
  fits_at k q e old =
      let at_k = subst (λ j. find payment_id_of j db.payments ≡ some p) e here in
      let same : p ≡ q = some-injective (sym at_k ∙ old) in
      subst (λ x. sum_refunds (pos 0) (refunds_of k db) +ℤ amount ≤ℤ x.amount_minor) same
        (subst (λ j. sum_refunds (pos 0) (refunds_of j db) +ℤ amount ≤ℤ p.amount_minor) e fits)

  refund_body-IsCovered : IsCovered after
  refund_body-IsCovered =
      let (same, rows) = refund_body-rows context now refund p amount reason reference through db in
      record {
        keyed = rw same c.keyed;
        covered = λ k q found.
            let old : find payment_id_of k db.payments ≡ some q = rw same at found in
            elim (Bool-cases (p.id == k)) [
              | inl eq ↦ rw (refunded_after k, eq) (fits_at k q (==→eq p.id k eq) old)
              | inr ne ↦ rw (refunded_after k, ne) (c.covered k q old)
            ];
      }

-- If payments have unique ids and the refunds of each come to at most its amount, this still holds
-- after a call of refundPayment, however the call ends and whatever amount it asks for.
pub refund_payment-IsCovered :
    (processor : Processor) (context : TenantContext) (now refund payment : ℕ)
    (requested : Option Number) (reason : Option Text) (db : Db)
    → IsCovered db
    → IsCovered (refund_payment processor context now refund payment requested reason db).1
refund_payment-IsCovered processor context now refund payment requested reason db c =
    elim (refund_payment-writes processor context now refund payment requested reason db) [
      | inl same ↦ rw same c
      | inr (p, amount, reference, through, may, same) ↦ rw same (
          refund_body-IsCovered context now refund payment p amount reason reference through db c
            may)
    ]
