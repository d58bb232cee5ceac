-- ===== src/Machines/ServiceCall.antt =====
-- src/modules/service-calls/service-call-state-machine.ts
use shop_os.Common.{◌≡◌, refl, ◌⊎◌, ◌↔◌, Bool, true, false, List, [], ◌∷◌, arith, Memᴰ, has}
use shop_os.Result.{
  ServiceCallStatus, requested, dispatched, en_route, on_scene, completed, cancelled,
}
use shop_os.Machines.Runs.{Run, Run-passes}

unfoldable pub ServiceCallStatus-discrete : Discrete ServiceCallStatus
ServiceCallStatus-discrete = hlevel

unfoldable pub valid_transitions : ServiceCallStatus → List ServiceCallStatus
valid_transitions requested = dispatched ∷ cancelled ∷ []
valid_transitions dispatched = en_route ∷ cancelled ∷ []
valid_transitions en_route = on_scene ∷ cancelled ∷ []
valid_transitions on_scene = completed ∷ []
valid_transitions completed = []
valid_transitions cancelled = []

unfoldable pub can_transition_service_call : ServiceCallStatus → ServiceCallStatus → Bool
unfolding valid_transitions ServiceCallStatus-discrete
can_transition_service_call from to = has ServiceCallStatus-discrete to (valid_transitions from)

unfoldable pub is_service_call_terminal : ServiceCallStatus → Bool
is_service_call_terminal completed = true
is_service_call_terminal cancelled = true
is_service_call_terminal _ = false

-- before the technician has arrived
abbrev pub before_arrival : ServiceCallStatus → Bool
before_arrival requested = true
before_arrival dispatched = true
before_arrival en_route = true
before_arrival cancelled = true
before_arrival _ = false

-- The table lets a service call be cancelled exactly while it is not terminal and the technician
-- has not arrived.
pub service_call_can_cancel_iff :
    (s : ServiceCallStatus)
    → (can_transition_service_call s cancelled ≡ true)
      ↔ ((is_service_call_terminal s ≡ false) × (before_arrival s ≡ true))
unfolding can_transition_service_call is_service_call_terminal
service_call_can_cancel_iff s = (λ h. ground arith, λ h. ground arith)

exits_on_scene :
    (s t : ServiceCallStatus)
    → before_arrival s ≡ true
    → can_transition_service_call s t ≡ true
    → (on_scene ≡ t) ⊎ (before_arrival t ≡ true)
unfolding can_transition_service_call
exits_on_scene s t = ground arith

-- Every run of the table from requested to completed visits on scene.
pub completed_by_scene :
    {visited : List ServiceCallStatus}
    → Run can_transition_service_call requested visited completed
    → Memᴰ on_scene visited
completed_by_scene r =
    Run-passes can_transition_service_call before_arrival on_scene exits_on_scene r refl refl

-- a state that follows, where one does
abbrev way_out : ServiceCallStatus → ServiceCallStatus
way_out requested = dispatched
way_out dispatched = en_route
way_out en_route = on_scene
way_out s = completed

-- isServiceCallTerminal holds exactly of the states from which the table has no way out.
pub service_call_terminal_iff :
    (s : ServiceCallStatus)
    → (is_service_call_terminal s ≡ true)
      ↔ ((t : ServiceCallStatus) → can_transition_service_call s t ≡ false)
unfolding can_transition_service_call is_service_call_terminal
service_call_terminal_iff s = (λ h t. ground arith, λ closed. ground (arith, closed (way_out s)))
