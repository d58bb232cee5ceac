-- ===== src/Ledger/Refunding.antt =====
-- `refundPayment` as a whole: what it can write, and that the refunds of a payment never exceed it.
use shop_os.Db.{Payment, Db, Text}
use shop_os.Tenancy.{TenantContext, assert_tenant_access, own_organization, payments_record}
use shop_os.Billing.{
  Processor, refund_payment, refund_body, refundable, is_bad_request, requested_amount,
  refund_at_processor, take_down, log_refund, invoice_of,
}
use shop_os.Common.{
  ℕ, Option, Number, ℤ, find_first, Bool, ◌==◌, ◌&&◌, ◌≡◌, some, ◌⊎◌, ◌≤ℤ◌, pos, inr, inl, arith,
  Bool-cases, Option-cases, false, leb_ℤ, ltb_ℤ, leb-false, ltb-false,
}
use shop_os.Result.{Result-cases, ok}
use shop_os.Ledger.Invariant.{IsLedger}
use shop_os.Ledger.Refund.{refund_body-IsLedger}

abbrev pub payment_id_of : Payment → ℕ
payment_id_of p = p.id

-- what a refund call has checked by the time it writes
pub record MayRefund (context : TenantContext) (payment : ℕ) (db : Db) (p : Payment) (amount : ℤ)
    : Type 0 where
  pub found :
      find_first (λ p. p.id == payment && p.organization_id == context.organization_id) db.payments
      ≡ some p
  pub positive : ¬ (amount ≤ℤ pos 0)
  pub covered : amount ≤ℤ refundable p db

refund_body_returns :
    (context : TenantContext) (now refund : ℕ) (p : Payment) (amount : ℤ)
    (reason reference : Option Text) (through : Bool) (db : Db)
    → (refund_body context now refund p amount reason reference through db).0 ≡ ok through
unfolding refund_body take_down log_refund
refund_body_returns context now refund p amount reason reference through db =
    elim (Option-cases (invoice_of p db)) [
      | inl none_there ↦ ground arith
      | inr (i, linked) ↦ ground arith
    ]

module _ (processor : Processor) (context : TenantContext) (now refund payment : ℕ)
    (requested : Option Number) (reason : Option Text) (db : Db) where
  abbrev after : Db
  after = (refund_payment processor context now refund payment requested reason db).1

  abbrev Written : Type 0
  Written =
      (p : Payment) × (amount : ℤ) × (reference : Option Text) × (through : Bool) × MayRefund
        context payment db p amount
      × (after ≡ (refund_body context now refund p amount reason reference through db).1)

  -- the row is there, and the caller may refund
  refund_found :
      {u : Unit {0}}
      → assert_tenant_access context (own_organization context) payments_record ≡ ok u
      → is_bad_request requested ≡ false
      → (p : Payment)
      → find_first
          (λ p. p.id == payment && p.organization_id == context.organization_id)
          db.payments
        ≡ some p
      → (after ≡ db) ⊎ Written
  unfolding refund_payment
  refund_found allowed good p found =
      let amount = requested_amount requested (refundable p db) in
      elim (Bool-cases (leb_ℤ amount (pos 0))) [
        | inl low ↦ inl (ground arith)
        | inr positive ↦ elim (Bool-cases (ltb_ℤ (refundable p db) amount)) [
          | inl high ↦ inl (ground arith)
          | inr covered ↦ elim (Result-cases (refund_at_processor processor p amount)) [
            | inr (e, refused) ↦ inl (ground arith)
            | inl ((reference, through), made) ↦ inr (
              p,
              amount,
              reference,
              through,
              record {
                found = found;
                positive = omega (arith, leb-false _ _ positive);
                covered = ltb-false _ _ covered;
              },
              ground (
                arith,
                refund_body_returns context now refund p amount reason reference through db,
              ),
            )
          ]
        ]
      ]

  pub refund_payment-writes : (after ≡ db) ⊎ Written
  unfolding refund_payment
  refund_payment-writes =
      elim (Result-cases
        (assert_tenant_access context (own_organization context) payments_record)) [
          | inr (e, denied) ↦ inl (ground arith)
          | inl (u, allowed) ↦ elim (Bool-cases (is_bad_request requested)) [
            | inl bad ↦ inl (ground arith)
            | inr good ↦
                elim (Option-cases (
                  find_first (λ p. p.id == payment && p.organization_id == context.organization_id)
                    db.payments)) [
                      | inl missing ↦ inl (ground arith)
                      | inr (p, found) ↦ refund_found allowed good p found
                    ]
          ]
        ]

  -- If the database is a ledger, it still is one after a call of refundPayment, however the call
  -- ends and whatever the payment processor answers.
  pub refund_payment-IsLedger : IsLedger db → IsLedger after
  refund_payment-IsLedger l = elim refund_payment-writes [
    | inl same ↦ rw same l
    | inr (p, amount, reference, through, may, same) ↦
        rw same (refund_body-IsLedger context now refund p amount reason reference through db l)
  ]
