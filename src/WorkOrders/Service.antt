-- ===== src/WorkOrders/Service.antt =====
-- src/modules/work-orders/work-order-service.ts, with `releaseActiveReservations` of
-- src/modules/inventory/inventory-service.ts.
use shop_os.Common.{
  ℕ, Bool, true, false, not, ◌&&◌, none, some, ◌==◌, if◌then◌else◌, any, find_first, update_where,
  count_where, holds, is_yes,
}
use shop_os.Result.{
  Result, ok, WorkOrderStatus, awaiting_authorization, authorized, completed, closed, cancelled,
  TransitionReason, work_order_not_found, concurrent_change, authorization_required,
  estimate_required, quality_check_required, invalid_status_transition, transition_failed,
}
use shop_os.Result
use shop_os.Tenancy.{TenantContext, work_orders_write, assert_tenant_access, own_organization}
use shop_os.Db.{
  Db, WorkOrder, EstimateLine, DocumentKind, baseline, change_order, RevisionStatus, presented,
  Decision, approved, ReservationStatus, active, released, ActivityKind, AuditKind,
  work_order_closed, Action, query, demand, or_throw, ◌>>=◌, ◌>>◌, modify, reject_if, when,
  transaction, log_activity, log_audit, send_outbox, Reservation,
}
use shop_os.WorkOrders.Machine.{can_transition, WorkOrderStatus-discrete}

abbrev pub is_baseline : DocumentKind → Bool
is_baseline baseline = true
is_baseline change_order = false

abbrev pub is_presented : RevisionStatus → Bool
is_presented presented = true
is_presented _ = false

abbrev pub is_approved : Decision → Bool
is_approved approved = true
is_approved _ = false

abbrev pub is_active : ReservationStatus → Bool
is_active active = true
is_active _ = false

abbrev pub is_status : WorkOrderStatus → WorkOrderStatus → Bool
is_status s t = is_yes (WorkOrderStatus-discrete s t)

-- `where: { id, organizationId }`
abbrev pub owned_work_order : (organization_id work_order_id : ℕ) → WorkOrder → Bool
owned_work_order org wo w = w.id == wo && w.organization_id == org

-- a PRESENTED revision of any kind
unfoldable pub has_presented_revision : (organization_id work_order_id : ℕ) → Db → Bool
has_presented_revision org wo db =
    any (λ r. r.work_order_id == wo && r.organization_id == org && is_presented r.status)
      db.estimate_revisions

-- the line stands on a BASELINE revision of the work order
abbrev pub on_baseline_of : (work_order_id estimate_line_id : ℕ) → Db → Bool
on_baseline_of wo line_id db =
    any
      (λ l.
        l.id == line_id
        && any
            (λ r.
              r.id == l.estimate_revision_id
              && r.work_order_id == wo
              && is_baseline r.document_kind)
            db.estimate_revisions)
      db.estimate_lines

-- an APPROVED decision on a line of a BASELINE revision
unfoldable pub has_approval : (organization_id work_order_id : ℕ) → Db → Bool
has_approval org wo db =
    any
      (λ d.
        is_approved d.decision
        && d.organization_id == org
        && on_baseline_of wo d.estimate_line_id db)
      db.authorization_decisions

-- the line has no decision yet
abbrev pub is_undecided : EstimateLine → Db → Bool
is_undecided l db = not (any (λ d. d.estimate_line_id == l.id) db.authorization_decisions)

-- a PRESENTED change order with an undecided line
unfoldable pub has_pending_change_order : (organization_id work_order_id : ℕ) → Db → Bool
has_pending_change_order org wo db =
    any
      (λ r.
        r.organization_id == org
        && r.work_order_id == wo
        && not (is_baseline r.document_kind)
        && is_presented r.status
        && any (λ l. l.estimate_revision_id == r.id && is_undecided l db) db.estimate_lines)
      db.estimate_revisions

-- the quality check that the organization requires is missing
unfoldable pub lacks_quality_check : (organization_id work_order_id : ℕ) → Db → Bool
lacks_quality_check org wo db =
    holds (λ o. o.quality_check_required) (find_first (λ o. o.id == org) db.organizations)
    && holds (λ w. not w.qc_passed) (find_first (owned_work_order org wo) db.work_orders)

unfoldable pub assert_transition_prerequisites :
    (organization_id work_order_id : ℕ) → WorkOrderStatus → Action (Unit {0})
assert_transition_prerequisites org wo target = do
  has_presented ← query (has_presented_revision org wo)
  reject_if (is_status target awaiting_authorization && not has_presented)
      (transition_failed estimate_required)
  approval ← query (has_approval org wo)
  reject_if (is_status target authorized && not approval) (transition_failed authorization_required)
  unchecked ← query (lacks_quality_check org wo)
  reject_if (is_status target completed && unchecked) (transition_failed quality_check_required)
  pending ← query (has_pending_change_order org wo)
  reject_if (is_status target completed && pending)
      (transition_failed Result.TransitionReason.change_order_pending)

-- `releaseActiveReservations`: `extra` is the rest of its where clause, and the note is left out
unfoldable pub release_active :
    (organization_id : ℕ) → (extra : Reservation → Bool) → (now : ℕ) → Db → Db
release_active org extra now db = record db {
  reservations =
      update_where (λ r. r.organization_id == org && is_active r.status && extra r)
        (λ r. record r { status = released; released_at = some now }) db.reservations;
}

-- for a work order
unfoldable pub release_active_reservations : (organization_id work_order_id now : ℕ) → Db → Db
unfolding release_active
release_active_reservations org wo now = release_active org (λ r. r.work_order_id == wo) now

-- the columns that a transition writes
abbrev pub with_status : WorkOrderStatus → ℕ → WorkOrder → WorkOrder
with_status target now w = record w {
  status = target;
  completed_at = if is_status target completed then some now else w.completed_at;
}

-- the transaction of `transitionStatus`
unfoldable pub transition_body :
    TenantContext → (now work_order_id : ℕ) → WorkOrderStatus → Action (Unit {0})
transition_body context now wo target = do
  found ← query (λ db. find_first (owned_work_order context.organization_id wo) db.work_orders)
  w ← or_throw found (transition_failed Result.TransitionReason.work_order_not_found)
  reject_if (not (can_transition w.status target)) (invalid_status_transition w.status target)
  assert_transition_prerequisites context.organization_id w.id target
  count ←
      query (λ db. count_where (λ x. x.id == w.id && is_status x.status w.status) db.work_orders)
  modify (λ db. record db {
    work_orders =
        update_where (λ x. x.id == w.id && is_status x.status w.status) (with_status target now)
          db.work_orders;
  })
  reject_if (not (count == 1)) (transition_failed concurrent_change)
  when (is_status target cancelled)
      (modify (release_active_reservations context.organization_id w.id now))
  log_activity (record {
    organization_id = context.organization_id;
    location_id = w.location_id;
    work_order_id = w.id;
    actor_user_id = context.actor_id;
    kind = ActivityKind.status_changed w.status target;
  })
  when (is_status target closed) (
      send_outbox (record {
        organization_id = context.organization_id;
        kind = work_order_closed;
        aggregate_id = w.id;
        invoice_id = none;
        work_order_id = w.id;
        location_id = w.location_id;
      }))
  log_audit (record {
    organization_id = context.organization_id;
    location_id = some w.location_id;
    actor_user_id = context.actor_id;
    entity_id = w.id;
    request_id = context.request_id;
    kind = AuditKind.status_changed w.status target;
  })

unfoldable pub transition_status :
    TenantContext → (now work_order_id : ℕ) → WorkOrderStatus → Action (Unit {0})
transition_status context now wo target = do
  demand (assert_tenant_access context (own_organization context) work_orders_write)
  transaction (transition_body context now wo target)
