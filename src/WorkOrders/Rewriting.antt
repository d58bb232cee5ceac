-- ===== src/WorkOrders/Rewriting.antt =====
-- What a call of `transitionStatus` that succeeds leaves in the database: one row is another.
use shop_os.Common.{
  [], ◌∷◌, ◌++◌, ℕ, ◌≡◌, ◌≢◌, arith, some, true, false, Bool, List, update_where, count_where, ◌==◌,
  ◌&&◌, find_first, Bool-cases, inl, inr, any, refl, Memᴰ, ap, Option, subst, sym, ◌∙◌,
}
use shop_os.Result.{ok, WorkOrderStatus, completed}
use shop_os.Tenancy.{TenantContext, assert_tenant_access, own_organization, work_orders_write}
use shop_os.Tenancy.Access.{assert_tenant_access_iff}
use shop_os.Db.{Db, WorkOrder, ActivityEvent, ActivityKind}
use shop_os.WorkOrders.Machine.{can_transition, WorkOrderStatus-discrete}
use shop_os.WorkOrders.Service.{
  transition_status, transition_body, is_status, owned_work_order, with_status,
  release_active_reservations,
}
use shop_os.WorkOrders.Transition.{prerequisites_read_only, owned_id, transition_status_ok}

-- The one row of a table that meets a test, and the table after an update of it.
record OneRow (test : WorkOrder → Bool) (f : WorkOrder → WorkOrder) (ws : List WorkOrder)
    : Type 0 where
  w : WorkOrder
  front : List WorkOrder
  back : List WorkOrder
  before : ws ≡ front ++ (w ∷ back)
  after : update_where test f ws ≡ front ++ (f w ∷ back)
  met : test w ≡ true

update_where-none :
    (test : WorkOrder → Bool) (f : WorkOrder → WorkOrder) (ws : List WorkOrder)
    → count_where test ws ≡ 0
    → update_where test f ws ≡ ws
update_where-none test f [] h = refl
update_where-none test f (w ∷ ws) h = elim (Bool-cases (test w)) [
  | inl met ↦ ground (arith, met, h)
  | inr other ↦ rw (other, update_where-none test f ws (ground (arith, other, h))) refl
]

update_where-one :
    (test : WorkOrder → Bool) (f : WorkOrder → WorkOrder) (ws : List WorkOrder)
    → count_where test ws ≡ 1
    → OneRow test f ws
update_where-one test f [] h = ground (arith, h)
update_where-one test f (w ∷ ws) h = elim (Bool-cases (test w)) [
  | inl met ↦ record {
    w = w;
    front = [];
    back = ws;
    before = refl;
    after = rw (met, update_where-none test f ws (ground (arith, met, h))) refl;
    met = met;
  }
  | inr other ↦
      let rest = update_where-one test f ws (ground (arith, other, h)) in
      record {
        w = rest.w;
        front = w ∷ rest.front;
        back = rest.back;
        before = ap (λ t. w ∷ t) rest.before;
        after = rw other (ap (λ t. w ∷ t) rest.after);
        met = rest.met;
      }
]

-- One row of the work order got the new status, and with it the time of its completion; one event
-- was logged; and apart from reservations, audit and outbox nothing else changed.
pub record RewritesOne (context : TenantContext) (now wo : ℕ) (target : WorkOrderStatus)
    (db db' : Db) : Type 0 where
  granted : Memᴰ work_orders_write context.permissions
  owned : any (owned_work_order context.organization_id wo) db.work_orders ≡ true
  w : WorkOrder
  front : List WorkOrder
  back : List WorkOrder
  completed_at : Option ℕ
  id : w.id ≡ wo
  legal : can_transition w.status target ≡ true
  before : db.work_orders ≡ front ++ (w ∷ back)
  after :
      db'.work_orders ≡ front ++ (record w { status = target; completed_at = completed_at } ∷ back)
  finished : target ≡ completed → completed_at ≡ some now
  unfinished : target ≢ completed → completed_at ≡ w.completed_at
  event : ActivityEvent
  logged : db'.activity_events ≡ db.activity_events ++ (event ∷ [])
  logged_as : event.kind ≡ ActivityKind.status_changed w.status target
  logged_on : event.work_order_id ≡ wo
  logged_by : event.actor_user_id ≡ context.actor_id
  untouched : db' ≡ record db {
    work_orders = db'.work_orders;
    reservations = db'.reservations;
    activity_events = db'.activity_events;
    audit_events = db'.audit_events;
    outbox_events = db'.outbox_events;
  }

any-found :
    (test : WorkOrder → Bool) (ws : List WorkOrder) (w : WorkOrder)
    → find_first test ws ≡ some w
    → any test ws ≡ true
any-found test [] w found = cc
any-found test (x ∷ xs) w found = ground (arith, found, any-found test xs w)

is_status-eq : (s t : WorkOrderStatus) → is_status s t ≡ true → s ≡ t
unfolding WorkOrderStatus-discrete
is_status-eq s t h = ground arith

is_status-same : (s : WorkOrderStatus) → is_status s s ≡ true
unfolding WorkOrderStatus-discrete
is_status-same s = ground arith

is_status-other : (s t : WorkOrderStatus) → s ≢ t → is_status s t ≡ false
unfolding WorkOrderStatus-discrete
is_status-other s t other = ground (arith, other)

module _ (context : TenantContext) (now wo : ℕ) (target : WorkOrderStatus) (db db' : Db) where
  transition_body-logs :
      (w : WorkOrder)
      → find_first (owned_work_order context.organization_id wo) db.work_orders ≡ some w
      → transition_body context now wo target db ≡ (ok tt, db')
      → (count_where (λ x. x.id == w.id && is_status x.status w.status) db.work_orders ≡ 1)
        × (event : ActivityEvent) × (db'.activity_events ≡ db.activity_events ++ (event ∷ []))
        × (event.kind ≡ ActivityKind.status_changed w.status target)
        × (event.work_order_id ≡ w.id)
        × (event.actor_user_id ≡ context.actor_id)
        × (db' ≡ record db {
          work_orders = db'.work_orders;
          reservations = db'.reservations;
          activity_events = db'.activity_events;
          audit_events = db'.audit_events;
          outbox_events = db'.outbox_events;
        })
  unfolding transition_body release_active_reservations
  transition_body-logs w found done =
      let read = prerequisites_read_only context.organization_id w.id target db in
      (
        ground (arith, read),
        record {
          organization_id = context.organization_id;
          location_id = w.location_id;
          work_order_id = w.id;
          actor_user_id = context.actor_id;
          kind = ActivityKind.status_changed w.status target;
        },
        ground (arith, read),
        refl,
        refl,
        refl,
        ground (arith, read),
      )

  transition_status-checks :
      transition_status context now wo target db ≡ (ok tt, db')
      → (assert_tenant_access context (own_organization context) work_orders_write ≡ ok tt)
        × (transition_body context now wo target db ≡ (ok tt, db'))
  unfolding transition_status
  transition_status-checks done = (ground arith, ground arith)

  -- When a call of transitionStatus succeeds, the caller holds the permission to write work
  -- orders, a work order of that id is in the caller's organization, and exactly one row of the
  -- table was replaced: a row of that id, from whose status the table of transitions allows the
  -- target. It got the target as its status, and, only if the target is completed, the time of
  -- the call as the time of its completion. One event of the change, by the caller, was added to
  -- the activity log, and nothing changed but these two tables, reservations, the audit log and
  -- the outbox.
  pub transition_status-RewritesOne :
      transition_status context now wo target db ≡ (ok tt, db')
      → RewritesOne context now wo target db db'
  transition_status-RewritesOne done =
      let (allowed, body) = transition_status-checks done in
      let access =
        (assert_tenant_access_iff context (own_organization context) work_orders_write).0 allowed in
      let (found_row, moved) = transition_status_ok context now wo target db db' done in
      let (one, event, logged, logged_as, logged_on, logged_by, untouched) =
        transition_body-logs found_row moved.found body in
      let test = λ (x : WorkOrder). x.id == found_row.id && is_status x.status found_row.status in
      let row = update_where-one test (with_status target now) db.work_orders one in
      let met : test row.w ≡ true = row.met in
      let same_status : row.w.status ≡ found_row.status =
        is_status-eq row.w.status found_row.status (ground (arith, met)) in
      let own = owned_id context.organization_id wo db.work_orders found_row moved.found in
      record {
        granted = access.granted;
        owned =
            any-found (owned_work_order context.organization_id wo) db.work_orders found_row
              moved.found;
        w = row.w;
        front = row.front;
        back = row.back;
        completed_at = (with_status target now row.w).completed_at;
        id = ground (arith, met, own);
        legal = subst (λ s. can_transition s target ≡ true) (sym same_status) moved.legal;
        before = row.before;
        after = moved.rows ∙ row.after;
        finished = λ e. finished_at row.w e;
        unfinished = λ other. unfinished_at row.w other;
        event = event;
        logged = logged;
        logged_as =
            subst (λ s. event.kind ≡ ActivityKind.status_changed s target) (sym same_status)
              logged_as;
        logged_on = logged_on ∙ own;
        logged_by = logged_by;
        untouched = untouched;
      }
    where
      finished_at :
          (x : WorkOrder) → target ≡ completed → (with_status target now x).completed_at ≡ some now
      finished_at x e = rw (e, is_status-same completed) refl

      unfinished_at :
          (x : WorkOrder)
          → target ≢ completed
          → (with_status target now x).completed_at ≡ x.completed_at
      unfinished_at x other = rw (is_status-other target completed other) refl
