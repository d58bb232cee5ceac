-- ===== src/Machines/Tests.antt =====
-- Runs of the machines of service calls and transports, and witnesses.
use shop_os.Common.{[], ◌∷◌, Memᴰ, ◌≡◌, refl, true, ◌↔◌, false}
use shop_os.Machines.Runs.{stay, move, Run}
use shop_os.Machines.ServiceCall.{
  can_transition_service_call, is_service_call_terminal, completed_by_scene, before_arrival,
  service_call_terminal_iff, service_call_can_cancel_iff,
}
use shop_os.Machines.Transport.{
  can_transition_transport, TransportStatus, completed_by_road, scheduled, is_transport_terminal,
  transport_open_iff,
}
use shop_os.Result.{on_scene, ServiceCallStatus, dispatched, requested}

service_call_can_cancel_iff_example :
    (can_transition_service_call ServiceCallStatus.en_route ServiceCallStatus.cancelled ≡ true) ↔ (
      (is_service_call_terminal ServiceCallStatus.en_route ≡ false)
      × (before_arrival ServiceCallStatus.en_route ≡ true))
service_call_can_cancel_iff_example = service_call_can_cancel_iff ServiceCallStatus.en_route

service_call_terminal_iff_example :
    (is_service_call_terminal ServiceCallStatus.completed ≡ true)
    ↔ ((t : ServiceCallStatus) → can_transition_service_call ServiceCallStatus.completed t ≡ false)
service_call_terminal_iff_example = service_call_terminal_iff ServiceCallStatus.completed

service_call-Run :
    Run can_transition_service_call requested
      (dispatched ∷ ServiceCallStatus.en_route ∷ on_scene ∷ ServiceCallStatus.completed ∷ [])
      ServiceCallStatus.completed
unfolding can_transition_service_call
service_call-Run = move refl (move refl (move refl (move refl stay)))

completed_by_scene_example :
    Memᴰ on_scene
      (dispatched ∷ ServiceCallStatus.en_route ∷ on_scene ∷ ServiceCallStatus.completed ∷ [])
completed_by_scene_example = completed_by_scene service_call-Run

transport_open_iff_example :
    ((can_transition_transport TransportStatus.en_route TransportStatus.cancelled ≡ true)
      ↔ (is_transport_terminal TransportStatus.en_route ≡ false))
    × ((is_transport_terminal TransportStatus.en_route ≡ true)
        ↔ ((t : TransportStatus) → can_transition_transport TransportStatus.en_route t ≡ false))
transport_open_iff_example = transport_open_iff TransportStatus.en_route

transport-Run :
    Run can_transition_transport scheduled
      (TransportStatus.en_route ∷ TransportStatus.completed ∷ [])
      TransportStatus.completed
unfolding can_transition_transport
transport-Run = move refl (move refl stay)

completed_by_road_example :
    Memᴰ TransportStatus.en_route (TransportStatus.en_route ∷ TransportStatus.completed ∷ [])
completed_by_road_example = completed_by_road transport-Run
