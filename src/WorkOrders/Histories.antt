-- ===== src/WorkOrders/Histories.antt =====
-- A work order followed through several transitions.
use shop_os.Common.{
  ◌∷◌, [], List, ℕ, ◌≡◌, some, arith, true, ◌==◌, some-injective, sym, ◌∙◌, subst, refl,
  update_where, ◌&&◌,
}
use shop_os.Db.{◌>>◌, Action, WorkOrder, Db, pure, throw}
use shop_os.Tenancy.{TenantContext}
use shop_os.Result.{WorkOrderStatus, ok, Result, err, err-ne-ok}
use shop_os.Db.Keyed.{IsKeyed, find, find_of_owned, update_if-IsKeyed, find-update_if}
use shop_os.WorkOrders.Transition.{Moved, owned_id, transition_status_ok}
use shop_os.Machines.Runs.{Run, stay, move}
use shop_os.WorkOrders.Machine.{can_transition, WorkOrderStatus-discrete}
use shop_os.WorkOrders.Service.{with_status, is_status, transition_status}

abbrev pub work_order_id_of : WorkOrder → ℕ
work_order_id_of w = w.id

-- transitions of one work order, one after the other, until one fails
abbrev pub transitions :
    TenantContext → (work_order_id : ℕ) → List (ℕ × WorkOrderStatus) → Action (Unit {0})
transitions context wo [] = pure tt
transitions context wo ((now, target) ∷ rest) = do
  transition_status context now wo target
  transitions context wo rest

abbrev pub targets : List (ℕ × WorkOrderStatus) → List WorkOrderStatus
targets [] = []
targets ((now, target) ∷ rest) = target ∷ targets rest

>>-inversion :
    (m k : Action (Unit {0})) (db db' : Db)
    → (m >> k) db ≡ (ok tt, db')
    → (mid : Db) × (m db ≡ (ok tt, mid)) × (k mid ≡ (ok tt, db'))
>>-inversion m k db db' h = go (m db) refl h
  where
    go :
        (x : Result (Unit {0}) × Db)
        → m db ≡ x
        → (elim x.0 as (λ r. Result (Unit {0}) × Db) [ ok a ↦ k x.1 | err e ↦ throw e x.1 ])
          ≡ (ok tt, db')
        → (mid : Db) × (m db ≡ (ok tt, mid)) × (k mid ≡ (ok tt, db'))
    go (ok _, mid) e h = (mid, e, h)
    go (err _, mid) e h = absurd (err-ne-ok h)

is_status_refl : (s : WorkOrderStatus) → is_status s s ≡ true
unfolding WorkOrderStatus-discrete
is_status_refl s = ground arith

row_after :
    (now : ℕ) (target : WorkOrderStatus) (ws : List WorkOrder) (w : WorkOrder)
    → find work_order_id_of w.id ws ≡ some w
    → find work_order_id_of w.id (
        update_where (λ x. x.id == w.id && is_status x.status w.status) (with_status target now) ws)
      ≡ some (with_status target now w)
row_after now target ws w here =
    find-update_if work_order_id_of w.id (λ x. is_status x.status w.status) (with_status target now)
      ws (λ x. refl)
    ∙ rw (here, is_status_refl w.status) refl

-- the row of the work order after a transition
Moved-row :
    (context : TenantContext) (now wo : ℕ) (target : WorkOrderStatus) (db mid : Db)
    (w w₁ : WorkOrder)
    → IsKeyed work_order_id_of db.work_orders
    → find work_order_id_of wo db.work_orders ≡ some w
    → Moved context now wo target db mid w₁
    → (can_transition w.status target ≡ true)
      × IsKeyed work_order_id_of mid.work_orders
      × (find work_order_id_of wo mid.work_orders ≡ some (with_status target now w))
Moved-row context now wo target db mid w w₁ u here m =
    let id_eq : w₁.id ≡ wo = owned_id context.organization_id wo db.work_orders w₁ m.found in
    let at_wo : find work_order_id_of wo db.work_orders ≡ some w₁ =
      find_of_owned work_order_id_of wo (λ x. x.organization_id == context.organization_id)
        db.work_orders w₁ u m.found in
    let same : w₁ ≡ w = some-injective (sym at_wo ∙ here) in
    (
      subst (λ x. can_transition x.status target ≡ true) same m.legal,
      rw m.rows (
          update_if-IsKeyed work_order_id_of w₁.id (λ x. is_status x.status w₁.status)
            (with_status target now) db.work_orders (λ x. refl) u),
      subst (λ j. find work_order_id_of j mid.work_orders ≡ some (with_status target now w)) id_eq
          (subst
            (λ x. find work_order_id_of w₁.id mid.work_orders ≡ some (with_status target now x))
            same
            (rw m.rows (
              row_after now target db.work_orders w₁ (
                subst (λ j. find work_order_id_of j db.work_orders ≡ some w₁) (sym id_eq) at_wo)))),
    )

-- Where work orders have unique ids: when a sequence of calls of transitionStatus on one work
-- order succeeds, the targets form a run of the state machine from the status that it had to the
-- status that its row is left with.
pub transitions-Run :
    (context : TenantContext) (wo : ℕ) (steps : List (ℕ × WorkOrderStatus)) (db db' : Db)
    (w : WorkOrder)
    → IsKeyed work_order_id_of db.work_orders
    → find work_order_id_of wo db.work_orders ≡ some w
    → transitions context wo steps db ≡ (ok tt, db')
    → (w' : WorkOrder) × (find work_order_id_of wo db'.work_orders ≡ some w')
      × Run can_transition w.status (targets steps) w'.status
transitions-Run context wo [] db db' w u here done = (w, ground arith, stay)
transitions-Run context wo ((now, target) ∷ steps) db db' w u here done =
    let (mid, first, others) =
      >>-inversion (transition_status context now wo target) (transitions context wo steps) db db'
        done in
    let (w₁, moved) = transition_status_ok context now wo target db mid first in
    let (legal, keyed, there) = Moved-row context now wo target db mid w w₁ u here moved in
    let (w', last, run) =
      transitions-Run context wo steps mid db' (with_status target now w) keyed there others in
    (w', last, move legal run)
