-- ===== src/Result.antt =====
-- What the services throw, as one data type, and the result of a call that may throw. The reasons
-- are those of the error classes; a message text is not part of the model.
use shop_os.Common.{◌≡◌, refl, Bool, true, false, ◌⊎◌, inl, inr}

-- the state of a work order: src/modules/work-orders/work-order-state-machine.ts
pub data WorkOrderStatus : Type 0 where
  draft estimating awaiting_authorization authorized in_progress : WorkOrderStatus
  blocked completed invoiced closed cancelled : WorkOrderStatus

pub data ServiceCallStatus : Type 0 where
  requested dispatched en_route on_scene completed cancelled : ServiceCallStatus

pub data DenialReason : Type 0 where
  permission_denied organization_denied location_denied : DenialReason

pub data MoneyReason : Type 0 where
  currency_invalid discount_exceeds_line discount_on_credit negative_value : MoneyReason
  unsafe_integer : MoneyReason

pub data TransitionReason : Type 0 where
  work_order_not_found invalid_transition concurrent_change : TransitionReason
  authorization_required estimate_required change_order_pending : TransitionReason
  quality_check_required : TransitionReason

pub data InvoiceReason : Type 0 where
  work_order_not_found work_order_not_completed invoice_already_exists : InvoiceReason
  invoice_not_found invoice_not_issued invoice_already_paid invoice_voided : InvoiceReason
  invalid_tenders payment_exceeds_balance change_order_pending : InvoiceReason

pub data RefundReason : Type 0 where
  payment_not_found refund_exceeds_payment invalid_amount processor_refund_failed : RefundReason
  processor_unavailable : RefundReason

pub data DepositReason : Type 0 where
  work_order_not_found invoice_not_found invoice_not_issued : DepositReason
  invoice_wrong_work_order deposit_not_found deposit_already_applied : DepositReason
  deposit_exceeds_balance invalid_amount : DepositReason

pub data InventoryReason : Type 0 where
  item_not_found invalid_part_number invalid_name duplicate_part_number : InventoryReason
  invalid_quantity insufficient_stock work_order_not_found work_order_not_open : InventoryReason
  line_not_found : InventoryReason

pub data QualityReason : Type 0 where
  work_order_not_found invalid_note already_passed open_tasks : QualityReason

pub data DrawerReason : Type 0 where
  drawer_already_open session_not_found session_not_open invalid_amount : DrawerReason
  location_not_found : DrawerReason

pub data Failure : Type 0 where
  access_denied : DenialReason → Failure
  money_error : MoneyReason → Failure
  invalid_status_transition : WorkOrderStatus → WorkOrderStatus → Failure
  transition_failed : TransitionReason → Failure
  invoice_failed : InvoiceReason → Failure
  refund_failed : RefundReason → Failure
  deposit_failed : DepositReason → Failure
  cash_drawer_failed : DrawerReason → Failure
  quality_failed : QualityReason → Failure
  inventory_failed : InventoryReason → Failure
  -- a value that its column cannot hold
  column_overflow : Failure
  -- a `RangeError`: `BigInt` of a number that is no integer
  range_error : Failure
  -- Prisma's P2002: a row breaks a unique index
  unique_violation : Failure

-- What a call gives back: a value, or the error that it threw.
pub data Result {ℓ} (A : Type ℓ) : Type ℓ where
  err : Failure → Result A
  ok : A → Result A

module _ {ℓ κ} {A : Type ℓ} {B : Type κ} where
  infixl 5 ◌>>=◌
  abbrev pub ◌>>=◌ : Result A → (A → Result B) → Result B
  err failure >>= next = err failure
  ok value >>= next = next value

  -- A chain that returns has a first part that did.
  pub >>=-eq-ok :
      (first : Result A) (next : A → Result B) {b : B}
      → (first >>= next) ≡ ok b
      → (value : A) × (first ≡ ok value) × (next value ≡ ok b)
  >>=-eq-ok (err failure) next h = cc
  >>=-eq-ok (ok value) next h = (value, refl, h)

module _ {ℓ} {B : Type ℓ} where
  infixl 5 ◌>>◌
  abbrev pub ◌>>◌ : Result (Unit {0}) → Result B → Result B
  check >> rest = check >>= (λ _. rest)

-- `if (test) throw error`
abbrev pub throw_if : Bool → Failure → Result (Unit {0})
throw_if true e = err e
throw_if false e = ok tt

pub throw_if-ok : (b : Bool) (e : Failure) (u : Unit {0}) → throw_if b e ≡ ok u → b ≡ false
throw_if-ok true e u h = cc
throw_if-ok false e u h = refl

pub ok-injective {ℓ} : {A : Type ℓ} (a b : A) → ok a ≡ ok b → a ≡ b
ok-injective a b h = cc

-- A call that threw did not return.
pub err-ne-ok {ℓ κ} :
    {A : Type ℓ} {S : Type κ} {e : Failure} {a : A} {s t : S}
    → ◌≡◌ {A = Result A × S} (err e, s) (ok a, t)
    → ⊥
err-ne-ok h = cc

pub Result-cases {ℓ} :
    {A : Type ℓ} (r : Result A) → ((a : A) × (r ≡ ok a)) ⊎ ((e : Failure) × (r ≡ err e))
Result-cases (ok a) = inl (a, refl)
Result-cases (err e) = inr (e, refl)
