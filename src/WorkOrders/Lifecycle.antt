-- ===== src/WorkOrders/Lifecycle.antt =====
-- What the table of transitions says of the life of a work order.
use shop_os.Common.{◌≡◌, ◌≢◌, refl, ◌⊎◌, ◌↔◌, Bool, true, false, List, arith, Memᴰ}
use shop_os.Result.{
  WorkOrderStatus, draft, estimating, awaiting_authorization, authorized, in_progress, blocked,
  completed, invoiced, closed, cancelled,
}
use shop_os.WorkOrders.Machine.{can_transition, is_terminal}
use shop_os.Machines.Runs.{Run, Run-passes}

-- The table lets a work order be cancelled exactly while it is not terminal and not invoiced.
pub work_order_can_cancel_iff :
    (s : WorkOrderStatus)
    → (can_transition s cancelled ≡ true) ↔ ((is_terminal s ≡ false) × (s ≢ invoiced))
unfolding can_transition is_terminal
work_order_can_cancel_iff s = (λ h. (ground arith, λ e. ground arith), λ h. ground arith)

abbrev way_out : WorkOrderStatus → WorkOrderStatus
way_out invoiced = closed
way_out s = cancelled

-- isTerminal holds exactly of the states from which the table has no way out.
pub work_order_terminal_iff :
    (s : WorkOrderStatus)
    → (is_terminal s ≡ true) ↔ ((t : WorkOrderStatus) → can_transition s t ≡ false)
unfolding can_transition is_terminal
work_order_terminal_iff s = (λ h t. ground arith, λ shut. ground (arith, shut (way_out s)))

abbrev before_presented : WorkOrderStatus → Bool
before_presented draft = true
before_presented estimating = true
before_presented cancelled = true
before_presented _ = false

abbrev before_authorized : WorkOrderStatus → Bool
before_authorized draft = true
before_authorized estimating = true
before_authorized awaiting_authorization = true
before_authorized cancelled = true
before_authorized _ = false

abbrev before_work : WorkOrderStatus → Bool
before_work authorized = true
before_work s = before_authorized s

abbrev before_completed : WorkOrderStatus → Bool
before_completed in_progress = true
before_completed blocked = true
before_completed s = before_work s

abbrev before_invoiced : WorkOrderStatus → Bool
before_invoiced completed = true
before_invoiced s = before_completed s

module _ {visited : List WorkOrderStatus} where
  passes :
      (region : WorkOrderStatus → Bool) (milestone : WorkOrderStatus)
      → ((s t : WorkOrderStatus)
          → region s ≡ true
          → can_transition s t ≡ true
          → (milestone ≡ t) ⊎ (region t ≡ true))
      → region draft ≡ true
      → region closed ≡ false
      → Run can_transition draft visited closed
      → Memᴰ milestone visited
  passes region milestone exits inside outside r =
      Run-passes can_transition region milestone exits r inside outside

  -- Every run of the table from draft to closed visits awaiting authorization, authorized, in
  -- progress, completed and invoiced.
  pub closed_by_milestones :
      Run can_transition draft visited closed
      → Memᴰ awaiting_authorization visited
        × Memᴰ authorized visited
        × Memᴰ in_progress visited
        × Memᴰ completed visited
        × Memᴰ invoiced visited
  unfolding can_transition
  closed_by_milestones r = (
    passes before_presented awaiting_authorization (λ s t inside step. ground arith) refl refl r,
    passes before_authorized authorized (λ s t inside step. ground arith) refl refl r,
    passes before_work in_progress (λ s t inside step. ground arith) refl refl r,
    passes before_completed completed (λ s t inside step. ground arith) refl refl r,
    passes before_invoiced invoiced (λ s t inside step. ground arith) refl refl r,
  )
