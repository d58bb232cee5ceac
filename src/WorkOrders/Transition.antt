-- ===== src/WorkOrders/Transition.antt =====
-- What a call of `transitionStatus` does on each way out.
use shop_os.WorkOrders.Service.{
  transition_body, assert_transition_prerequisites, owned_work_order, has_presented_revision,
  has_approval, is_status, lacks_quality_check, with_status, has_pending_change_order,
  release_active_reservations, transition_status, is_active,
}
use shop_os.Tenancy.{TenantContext}
use shop_os.Common.{
  [], ℕ, find_first, ◌≡◌, arith, none, some, true, update_where, ◌==◌, ◌&&◌, false, if◌then◌else◌,
  List, All, Option-cases, ◌≢◌, inl, inr, ◌∷◌, find_first-holds,
}
use shop_os.Result.{
  WorkOrderStatus, ok, awaiting_authorization, err, transition_failed, TransitionReason, authorized,
  completed, cancelled, Failure,
}
use shop_os.Db.{Db, WorkOrder, Reservation, ReservationStatus, released}
use shop_os.WorkOrders.Machine.{can_transition, WorkOrderStatus-discrete}

-- A successful transition: what was checked, and what was written.
pub record Moved (context : TenantContext) (now wo : ℕ) (target : WorkOrderStatus) (db db' : Db)
    (w : WorkOrder) : Type 0 where
  pub found : find_first (owned_work_order context.organization_id wo) db.work_orders ≡ some w
  pub legal : can_transition w.status target ≡ true
  pub presented_first :
      target ≡ awaiting_authorization
      → has_presented_revision context.organization_id w.id db ≡ true
  pub approved_first : target ≡ authorized → has_approval context.organization_id w.id db ≡ true
  pub checked_first :
      target ≡ completed → lacks_quality_check context.organization_id w.id db ≡ false
  pub settled_first :
      target ≡ completed → has_pending_change_order context.organization_id w.id db ≡ false
  pub rows :
      db'.work_orders
      ≡ update_where
          (λ x. x.id == w.id && is_status x.status w.status)
          (with_status target now)
          db.work_orders
  pub reservations : db'.reservations ≡ (
      if is_status target cancelled
      then (release_active_reservations context.organization_id w.id now db).reservations
      else db.reservations)

pub prerequisites_read_only :
    (org wo : ℕ) (target : WorkOrderStatus) (db : Db)
    → (assert_transition_prerequisites org wo target db).1 ≡ db
unfolding assert_transition_prerequisites
prerequisites_read_only org wo target db = ground arith

module _ (context : TenantContext) (now wo : ℕ) (target : WorkOrderStatus) (db db' : Db) where
  prerequisites_hold :
      (w : WorkOrder)
      → assert_transition_prerequisites context.organization_id w.id target db ≡ (ok tt, db)
      → (target ≡ awaiting_authorization
          → has_presented_revision context.organization_id w.id db ≡ true)
        × (target ≡ authorized → has_approval context.organization_id w.id db ≡ true)
        × (target ≡ completed → lacks_quality_check context.organization_id w.id db ≡ false)
        × (target ≡ completed → has_pending_change_order context.organization_id w.id db ≡ false)
  unfolding assert_transition_prerequisites
  prerequisites_hold w h =
      (λ e. ground arith, λ e. ground arith, λ e. ground arith, λ e. ground arith)

  transition_body_missing :
      find_first (owned_work_order context.organization_id wo) db.work_orders ≡ none
      → transition_body context now wo target db
        ≡ (err (transition_failed TransitionReason.work_order_not_found), db)
  unfolding transition_body
  transition_body_missing missing = ground arith

  transition_body-writes :
      (w : WorkOrder)
      → find_first (owned_work_order context.organization_id wo) db.work_orders ≡ some w
      → transition_body context now wo target db ≡ (ok tt, db')
      → (can_transition w.status target ≡ true)
        × (assert_transition_prerequisites context.organization_id w.id target db ≡ (ok tt, db))
        × (db'.work_orders
            ≡ update_where
                (λ x. x.id == w.id && is_status x.status w.status)
                (with_status target now)
                db.work_orders)
        × (db'.reservations ≡ (
            if is_status target cancelled
            then (release_active_reservations context.organization_id w.id now db).reservations
            else db.reservations))
  unfolding transition_body release_active_reservations
  transition_body-writes w found done =
      ground (arith, prerequisites_read_only context.organization_id w.id target db)

  transition_body-Moved :
      (w : WorkOrder)
      → find_first (owned_work_order context.organization_id wo) db.work_orders ≡ some w
      → transition_body context now wo target db ≡ (ok tt, db')
      → Moved context now wo target db db' w
  transition_body-Moved w found done =
      let (legal, passed, rows, reservations) = transition_body-writes w found done in
      let (presented_first, approved_first, checked_first, settled_first) =
        prerequisites_hold w passed in
      record {
        found = found;
        legal = legal;
        presented_first = presented_first;
        approved_first = approved_first;
        checked_first = checked_first;
        settled_first = settled_first;
        rows = rows;
        reservations = reservations;
      }

  -- What a call of transitionStatus that succeeds has checked and written.
  pub transition_status_ok :
      transition_status context now wo target db ≡ (ok tt, db')
      → (w : WorkOrder) × Moved context now wo target db db' w
  unfolding transition_status
  transition_status_ok done =
      elim (Option-cases
        (find_first (owned_work_order context.organization_id wo) db.work_orders)) [
          | inl missing ↦
              let refused = transition_body_missing missing in
              absurd (never (transition_failed TransitionReason.work_order_not_found) refused done)
          | inr (w, found) ↦ (w, transition_body-Moved w found (inner done))
        ]
    where
      inner :
          transition_status context now wo target db ≡ (ok tt, db')
          → transition_body context now wo target db ≡ (ok tt, db')
      inner h = ground arith

      never :
          (e : Failure)
          → transition_body context now wo target db ≡ (err e, db)
          → ¬ (transition_status context now wo target db ≡ (ok tt, db'))
      never e refused h = ground arith

-- A call of transitionStatus that throws leaves the database as it was.
pub transition_status_err :
    (context : TenantContext) (now wo : ℕ) (target : WorkOrderStatus) (db db' : Db) (e : Failure)
    → transition_status context now wo target db ≡ (err e, db')
    → db' ≡ db
unfolding transition_status
transition_status_err context now wo target db db' e h = ground arith

holds_no_part :
    (org wo now : ℕ) (rs : List Reservation)
    → All
        (λ r. r.organization_id ≡ org → r.work_order_id ≡ wo → r.status ≢ ReservationStatus.active)
        (update_where
          (λ r. r.organization_id == org && is_active r.status && r.work_order_id == wo)
          (λ r. record r { status = released; released_at = some now })
          rs)
holds_no_part org wo now [] = tt
holds_no_part org wo now (r ∷ rs) =
    (λ same_org same_wo still. ground arith, holds_no_part org wo now rs)

pub owned_id :
    (org wo : ℕ) (ws : List WorkOrder) (w : WorkOrder)
    → find_first (owned_work_order org wo) ws ≡ some w
    → w.id ≡ wo
owned_id org wo ws w found =
    let passed = find_first-holds (owned_work_order org wo) ws w found in ground arith

-- After a successful transition of a work order to cancelled, no reservation of that work order in
-- the caller's organization is active.
pub cancel_releases :
    (context : TenantContext) (now wo : ℕ) (db db' : Db)
    → transition_status context now wo cancelled db ≡ (ok tt, db')
    → All
        (λ r.
          r.organization_id ≡ context.organization_id
          → r.work_order_id ≡ wo
          → r.status ≢ ReservationStatus.active)
        db'.reservations
unfolding release_active_reservations WorkOrderStatus-discrete
cancel_releases context now wo db db' done =
    let (w, m) = transition_status_ok context now wo cancelled db db' done in
    rw (m.reservations, owned_id context.organization_id wo db.work_orders w m.found)
      (holds_no_part context.organization_id wo now db.reservations)
