-- ===== src/WorkOrders/Tests.antt =====
-- Witnesses of the theorems on work orders.
use shop_os.Common.{
  refl, [], ◌∷◌, All, List, Memᴰ, ◌≡◌, ℕ, ◌≢◌, true, some, ◌↔◌, false, none, inr, inl,
}
use shop_os.Machines.Runs.{stay, move, Run}
use shop_os.Samples.{clerk, workshop, job, shop}
use shop_os.WorkOrders.Machine.{can_transition, is_terminal, WorkOrderStatus-discrete}
use shop_os.Db.{Db, WorkOrder, ReservationStatus}
use shop_os.WorkOrders.Service.{
  transition_status, transition_body, assert_transition_prerequisites, has_presented_revision,
  has_approval, has_pending_change_order, lacks_quality_check, release_active_reservations,
}
use shop_os.Result.{
  WorkOrderStatus, awaiting_authorization, blocked, cancelled, closed, authorized, estimating,
  invalid_status_transition, in_progress, completed, invoiced, err, ok, Failure,
}
use shop_os.WorkOrders.Transition.{cancel_releases}
use shop_os.WorkOrders.Histories.{transitions, work_order_id_of, targets, transitions-Run}
use shop_os.Db.Keyed.{find}
use shop_os.Tenancy.{assert_tenant_access, assert_location, Permission-discrete}
use shop_os.WorkOrders.Lifecycle.{
  work_order_terminal_iff, closed_by_milestones, work_order_can_cancel_iff,
}
use shop_os.WorkOrders.Quality.{has_open_tasks, pass_quality_check, pass_body, load_for_qc}
use shop_os.WorkOrders.Checked.{pass_quality_check-clears}
use shop_os.WorkOrders.Rewriting.{RewritesOne, transition_status-RewritesOne}
use shop_os.WorkOrders.Refusals.{transition_status-gates}

abbrev way_to_closed : List WorkOrderStatus
way_to_closed =
    estimating ∷ awaiting_authorization ∷ authorized ∷ in_progress ∷ completed ∷ invoiced ∷ closed
    ∷ []

closed-Run : Run can_transition WorkOrderStatus.draft way_to_closed closed
unfolding can_transition
closed-Run = move refl (move refl (move refl (move refl (move refl (move refl (move refl stay))))))

closed_by_milestones_example :
    Memᴰ awaiting_authorization way_to_closed
    × Memᴰ authorized way_to_closed
    × Memᴰ in_progress way_to_closed
    × Memᴰ completed way_to_closed
    × Memᴰ invoiced way_to_closed
closed_by_milestones_example = closed_by_milestones closed-Run

work_order_can_cancel_iff_example :
    (can_transition blocked cancelled ≡ true)
    ↔ ((is_terminal blocked ≡ false) × (blocked ≢ invoiced))
work_order_can_cancel_iff_example = work_order_can_cancel_iff blocked

work_order_terminal_iff_example :
    (is_terminal closed ≡ true) ↔ ((t : WorkOrderStatus) → can_transition closed t ≡ false)
work_order_terminal_iff_example = work_order_terminal_iff closed

abbrev dropped : Db
dropped = (transition_status clerk 30 5 cancelled workshop).1

dropped_at : transition_status clerk 30 5 cancelled workshop ≡ (ok tt, dropped)
unfolding transition_status transition_body assert_transition_prerequisites has_presented_revision
    has_approval has_pending_change_order lacks_quality_check release_active_reservations
    can_transition WorkOrderStatus-discrete assert_tenant_access assert_location Permission-discrete
dropped_at = refl

transition_status-RewritesOne_example : RewritesOne clerk 30 5 cancelled workshop dropped
transition_status-RewritesOne_example =
    transition_status-RewritesOne clerk 30 5 cancelled workshop dropped dropped_at

cancel_releases_example :
    All
      (λ r. r.organization_id ≡ 1 → r.work_order_id ≡ 5 → r.status ≢ ReservationStatus.active)
      dropped.reservations
cancel_releases_example = cancel_releases clerk 30 5 workshop dropped dropped_at

refused_at :
    transition_status clerk 30 5 closed workshop
    ≡ (err (invalid_status_transition WorkOrderStatus.draft closed), workshop)
unfolding transition_status transition_body can_transition WorkOrderStatus-discrete
    assert_tenant_access assert_location Permission-discrete
refused_at = refl

-- the customer has not answered yet
abbrev waiting_workshop : Db
waiting_workshop = record workshop { work_orders = job awaiting_authorization ∷ [] }

waiting_unapproved : has_approval 1 5 waiting_workshop ≡ false
unfolding has_approval
waiting_unapproved = refl

transition_status-gates_example :
    (e : Failure) × (transition_status clerk 30 5 authorized waiting_workshop
      ≡ (err e, waiting_workshop))
transition_status-gates_example =
    transition_status-gates clerk 30 5 authorized waiting_workshop
      (inr (inl (refl, waiting_unapproved)))

abbrev steps : List (ℕ × WorkOrderStatus)
steps = (30, estimating) ∷ (31, cancelled) ∷ []

abbrev ended : Db
ended = (transitions clerk 5 steps workshop).1

ended_at : transitions clerk 5 steps workshop ≡ (ok tt, ended)
unfolding transition_status transition_body assert_transition_prerequisites has_presented_revision
    has_approval has_pending_change_order lacks_quality_check release_active_reservations
    can_transition WorkOrderStatus-discrete assert_tenant_access assert_location Permission-discrete
ended_at = refl

transitions-Run_example :
    (w' : WorkOrder) × (find work_order_id_of 5 ended.work_orders ≡ some w')
    × Run can_transition WorkOrderStatus.draft (targets steps) w'.status
transitions-Run_example =
    transitions-Run clerk 5 steps workshop ended (job WorkOrderStatus.draft) (refl, tt) refl
      ended_at

abbrev strict_workshop : Db
strict_workshop = record workshop {
  organizations = (record shop { quality_check_required = true }) ∷ [];
}

abbrev checked_workshop : Db
checked_workshop = (pass_quality_check clerk 30 5 none strict_workshop).1

checked_at : pass_quality_check clerk 30 5 none strict_workshop ≡ (ok tt, checked_workshop)
unfolding pass_quality_check pass_body load_for_qc has_open_tasks assert_tenant_access
    assert_location Permission-discrete
checked_at = refl

pass_quality_check-clears_example :
    (has_open_tasks 1 5 strict_workshop ≡ false)
    × (lacks_quality_check 1 5 checked_workshop ≡ false)
pass_quality_check-clears_example =
    pass_quality_check-clears clerk 30 5 none strict_workshop checked_workshop checked_at
