-- ===== src/Ledger/Tests.antt =====
-- Witnesses of the theorems on the ledger.
use shop_os.Common.{[], ◌∷◌, ◌+ℤ◌, arith, ◌-ℤ◌, none, refl, ◌+◌, some, int, pos}
use shop_os.Samples.{clerk, desk, paid_desk, cash_tender, drafted_desk}
use shop_os.Billing.{sum_refunds, apply_deposit, refund_payment}
use shop_os.Ledger.Invariant.{IsLedger}
use shop_os.Ledger.Covered.{IsCovered, refund_payment-IsCovered}
use shop_os.Invoices.{record_payment, record_payment_tenders}
use shop_os.Ledger.Deposit.{apply_deposit-IsLedger}
use shop_os.Ledger.Payment.{record_payment-IsLedger}
use shop_os.Ledger.Tenders.{record_payment_tenders-IsLedger}
use shop_os.Ledger.Refunding.{refund_payment-IsLedger}
use shop_os.Db.{Db}
use shop_os.Ledger.Calls.{Calls, Calls-IsLedger, then, payment_made, refund_made}

desk-IsLedger : IsLedger desk
unfolding ◌+ℤ◌ ◌-ℤ◌
desk-IsLedger = record {
  keyed = (refl, tt);
  balanced = λ k i h. ground arith;
  agrees = λ k i h. record { covered = λ e. ground arith; short = λ e. ground arith };
}

paid_desk-IsLedger : IsLedger paid_desk
unfolding ◌+ℤ◌ ◌-ℤ◌
paid_desk-IsLedger = record {
  keyed = (refl, tt);
  balanced = λ k i h. ground arith;
  agrees = λ k i h. record { covered = λ e. ground arith; short = λ e. ground arith };
}

drafted_desk-IsLedger : IsLedger drafted_desk
unfolding ◌+ℤ◌ ◌-ℤ◌
drafted_desk-IsLedger = record {
  keyed = (refl, tt);
  balanced = λ k i h. ground arith;
  agrees = λ k i h. record { covered = λ e. ground arith; short = λ e. ground arith };
}

paid_desk-IsCovered : IsCovered paid_desk
unfolding sum_refunds
paid_desk-IsCovered = record { keyed = (refl, tt); covered = λ k p h. ground arith }

record_payment-IsLedger_example :
    IsLedger (record_payment clerk 30 9 7 (cash_tender 4_000) none desk).1
record_payment-IsLedger_example =
    record_payment-IsLedger clerk 30 9 7 (cash_tender 4_000) none desk desk-IsLedger

record_payment_tenders-IsLedger_example :
    IsLedger
      (record_payment_tenders clerk 30
        (λ k. 40 + k)
        7
        (cash_tender 6_000 ∷ cash_tender 4_000 ∷ [])
        none
        desk).1
record_payment_tenders-IsLedger_example =
    record_payment_tenders-IsLedger clerk 30 (λ k. 40 + k) 7
      (cash_tender 6_000 ∷ cash_tender 4_000 ∷ []) none desk (omega arith) desk-IsLedger

refund_payment-IsLedger_example :
    IsLedger (refund_payment none clerk 30 12 9 (some (int (pos 1_500))) none paid_desk).1
refund_payment-IsLedger_example =
    refund_payment-IsLedger none clerk 30 12 9 (some (int (pos 1_500))) none paid_desk
      paid_desk-IsLedger

refund_payment-IsCovered_example :
    IsCovered (refund_payment none clerk 30 12 9 none none paid_desk).1
refund_payment-IsCovered_example =
    refund_payment-IsCovered none clerk 30 12 9 none none paid_desk paid_desk-IsCovered

apply_deposit-IsLedger_example : IsLedger (apply_deposit clerk 30 13 6 desk).1
apply_deposit-IsLedger_example = apply_deposit-IsLedger clerk 30 13 6 desk desk-IsLedger

-- a payment, then a refund of all of it
abbrev once_paid : Db
once_paid = (record_payment clerk 30 9 7 (cash_tender 4_000) none desk).1

abbrev refunded : Db
refunded = (refund_payment none clerk 31 12 9 none none once_paid).1

two-Calls : Calls desk refunded
two-Calls =
    then (payment_made clerk 30 9 7 (cash_tender 4_000) none desk)
      (then (refund_made none clerk 31 12 9 none none once_paid) Calls.done)

Calls-IsLedger_example : IsLedger refunded
Calls-IsLedger_example = Calls-IsLedger two-Calls desk-IsLedger
