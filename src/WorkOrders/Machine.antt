-- ===== src/WorkOrders/Machine.antt =====
-- src/modules/work-orders/work-order-state-machine.ts; the states are declared with the errors that
-- name them, in Result.
use shop_os.Common.{Bool, true, false, List, [], ◌∷◌, has}
use shop_os.Result.{
  WorkOrderStatus, draft, estimating, awaiting_authorization, authorized, in_progress, blocked,
  completed, invoiced, closed, cancelled,
}

unfoldable pub WorkOrderStatus-discrete : Discrete WorkOrderStatus
WorkOrderStatus-discrete = hlevel

unfoldable pub valid_transitions : WorkOrderStatus → List WorkOrderStatus
valid_transitions draft = estimating ∷ cancelled ∷ []
valid_transitions estimating = awaiting_authorization ∷ draft ∷ cancelled ∷ []
valid_transitions awaiting_authorization = authorized ∷ estimating ∷ cancelled ∷ []
valid_transitions authorized = in_progress ∷ cancelled ∷ []
valid_transitions in_progress = blocked ∷ completed ∷ cancelled ∷ []
valid_transitions blocked = in_progress ∷ cancelled ∷ []
valid_transitions completed = invoiced ∷ cancelled ∷ []
valid_transitions invoiced = closed ∷ []
valid_transitions closed = []
valid_transitions cancelled = []

unfoldable pub can_transition : WorkOrderStatus → WorkOrderStatus → Bool
unfolding valid_transitions WorkOrderStatus-discrete
can_transition from to = has WorkOrderStatus-discrete to (valid_transitions from)

unfoldable pub is_terminal : WorkOrderStatus → Bool
is_terminal closed = true
is_terminal cancelled = true
is_terminal _ = false
