-- ===== src/WorkOrders/Refusals.antt =====
-- Transitions that `transitionStatus` refuses, whatever the status of the work order.
use shop_os.Common.{ℕ, ◌≡◌, ◌⊎◌, inl, inr, true, false, arith, subst, ap, sym, ◌∙◌}
use shop_os.Result.{
  err, Failure, WorkOrderStatus, awaiting_authorization, authorized, completed, Result-cases,
}
use shop_os.Tenancy.{TenantContext}
use shop_os.Db.{Db, WorkOrder}
use shop_os.WorkOrders.Service.{
  transition_status, has_presented_revision, has_approval, lacks_quality_check,
  has_pending_change_order,
}
use shop_os.WorkOrders.Transition.{Moved, owned_id, transition_status_ok, transition_status_err}

-- what a target asks of a work order first, and is missing
abbrev pub IsGated : (organization_id work_order_id : ℕ) → WorkOrderStatus → Db → Type 0
IsGated org wo target db =
    ((target ≡ awaiting_authorization) × (has_presented_revision org wo db ≡ false))
    ⊎ ((target ≡ authorized) × (has_approval org wo db ≡ false))
    ⊎ ((target ≡ completed) × (lacks_quality_check org wo db ≡ true))
    ⊎ ((target ≡ completed) × (has_pending_change_order org wo db ≡ true))

module _ (context : TenantContext) (now wo : ℕ) (target : WorkOrderStatus) (db : Db) where
  Moved-not-IsGated :
      (db' : Db) (w : WorkOrder)
      → Moved context now wo target db db' w
      → ¬ IsGated context.organization_id wo target db
  Moved-not-IsGated db' w m gated =
      let own = owned_id context.organization_id wo db.work_orders w m.found in
      let gated' : IsGated context.organization_id w.id target db =
        subst (λ k. IsGated context.organization_id k target db) (sym own) gated in
      elim gated' [
        | inl (e, lacks) ↦ ground (arith, m.presented_first e, lacks)
        | inr (inl (e, lacks)) ↦ ground (arith, m.approved_first e, lacks)
        | inr (inr (inl (e, bad))) ↦ ground (arith, m.checked_first e, bad)
        | inr (inr (inr (e, bad))) ↦ ground (arith, m.settled_first e, bad)
      ]

  -- A call of transitionStatus throws and leaves the database as it was, if the target is
  -- awaiting authorization and no estimate is presented, or authorized and no line of a baseline
  -- estimate is approved, or completed and a required quality check is missing or a change order
  -- is pending.
  pub transition_status-gates :
      IsGated context.organization_id wo target db
      → (e : Failure) × (transition_status context now wo target db ≡ (err e, db))
  transition_status-gates gated =
      elim (Result-cases (transition_status context now wo target db).0) [
        | inl (_, passed) ↦
            let db' = (transition_status context now wo target db).1 in
            let (w, m) =
              transition_status_ok context now wo target db db' (ap (λ r. (r, db')) passed) in
            absurd (Moved-not-IsGated db' w m gated)
        | inr (e, refused) ↦
            let db' = (transition_status context now wo target db).1 in
            let thrown : transition_status context now wo target db ≡ (err e, db') =
              ap (λ r. (r, db')) refused in
            let kept = transition_status_err context now wo target db db' e thrown in
            (e, thrown ∙ ap (λ d. (err e, d)) kept)
      ]
