-- ===== src/Machines/Transport.antt =====
-- src/modules/transport/transport-state-machine.ts
use shop_os.Common.{◌≡◌, refl, ◌⊎◌, ◌↔◌, Bool, true, false, List, [], ◌∷◌, arith, Memᴰ, has}
use shop_os.Machines.Runs.{Run, Run-passes}

pub data TransportStatus : Type 0 where
  scheduled en_route completed cancelled : TransportStatus

unfoldable pub TransportStatus-discrete : Discrete TransportStatus
TransportStatus-discrete = hlevel

unfoldable pub valid_transitions : TransportStatus → List TransportStatus
valid_transitions scheduled = en_route ∷ cancelled ∷ []
valid_transitions en_route = completed ∷ cancelled ∷ []
valid_transitions completed = []
valid_transitions cancelled = []

unfoldable pub can_transition_transport : TransportStatus → TransportStatus → Bool
unfolding valid_transitions TransportStatus-discrete
can_transition_transport from to = has TransportStatus-discrete to (valid_transitions from)

unfoldable pub is_transport_terminal : TransportStatus → Bool
is_transport_terminal completed = true
is_transport_terminal cancelled = true
is_transport_terminal _ = false

-- A transport can be cancelled exactly while it is not terminal, and is terminal exactly where the
-- table has no way out.
pub transport_open_iff :
    (s : TransportStatus)
    → ((can_transition_transport s cancelled ≡ true) ↔ (is_transport_terminal s ≡ false))
      × ((is_transport_terminal s ≡ true)
          ↔ ((t : TransportStatus) → can_transition_transport s t ≡ false))
unfolding can_transition_transport is_transport_terminal
transport_open_iff s = (
  (λ h. ground arith, λ h. ground arith),
  (λ h t. ground arith, λ closed. ground (arith, closed cancelled)),
)

abbrev before_driving : TransportStatus → Bool
before_driving scheduled = true
before_driving cancelled = true
before_driving _ = false

exits_en_route :
    (s t : TransportStatus)
    → before_driving s ≡ true
    → can_transition_transport s t ≡ true
    → (en_route ≡ t) ⊎ (before_driving t ≡ true)
unfolding can_transition_transport
exits_en_route s t = ground arith

-- Every run of the table from scheduled to completed visits en route.
pub completed_by_road :
    {visited : List TransportStatus}
    → Run can_transition_transport scheduled visited completed
    → Memᴰ en_route visited
completed_by_road r =
    Run-passes can_transition_transport before_driving en_route exits_en_route r refl refl
