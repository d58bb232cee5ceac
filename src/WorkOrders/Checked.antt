-- ===== src/WorkOrders/Checked.antt =====
-- What the quality check does to the transition to completed.
use mathlib.Core.Option
use shop_os.Common.{
  refl, ℕ, Option, ◌≡◌, find_first, none, some, false, update_where, Option-cases, ◌==◌, inl, true,
  arith, find_first-update_where, sym, ◌∙◌, inr,
}
use shop_os.Tenancy.{TenantContext}
use shop_os.WorkOrders.Quality.{
  pass_quality_check, pass_body, load_for_qc, has_open_tasks, with_quality,
}
use shop_os.Db.{Db, Text, WorkOrder}
use shop_os.WorkOrders.Service.{lacks_quality_check, owned_work_order}
use shop_os.Result.{ok, err, quality_failed, QualityReason, err-ne-ok}
use shop_os.Common.Text.{truthy, trim}
use shop_os.WorkOrders.Transition.{owned_id}

module _ (org wo : ℕ) (db db' : Db) (w : WorkOrder) (f : WorkOrder → WorkOrder)
    (keep : (x : WorkOrder) → owned_work_order org wo (f x) ≡ owned_work_order org wo x)
    (found : find_first (owned_work_order org wo) db.work_orders ≡ some w)
    (rows : db'.work_orders ≡ update_where (λ x. x.id == w.id) f db.work_orders) where
  found_after : find_first (owned_work_order org wo) db'.work_orders ≡ some (f w)
  found_after =
      let own : (w.id == w.id) ≡ true = ground arith in
      rw
        (
          rows,
          find_first-update_where (owned_work_order org wo) (λ x. x.id == w.id) f db.work_orders
              keep,
          found,
          own,
        )
        refl

module _ (context : TenantContext) (now wo : ℕ) (db db' : Db) where
  pass_body-writes :
      (note_text : Option Text) (w : WorkOrder)
      → find_first (owned_work_order context.organization_id wo) db.work_orders ≡ some w
      → pass_body context now wo note_text db ≡ (ok tt, db')
      → (has_open_tasks context.organization_id w.id db ≡ false)
        × (db'.work_orders
            ≡ update_where
                (λ x. x.id == w.id)
                (with_quality true (truthy note_text) (some context.actor_id) (some now))
                db.work_orders)
  unfolding pass_body load_for_qc
  pass_body-writes note_text w found done = ground arith

  pass_body_missing :
      (note_text : Option Text)
      → find_first (owned_work_order context.organization_id wo) db.work_orders ≡ none
      → pass_body context now wo note_text db
        ≡ (err (quality_failed QualityReason.work_order_not_found), db)
  unfolding pass_body load_for_qc
  pass_body_missing note_text missing = ground arith

  pass_body-clears :
      (note_text : Option Text)
      → pass_body context now wo note_text db ≡ (ok tt, db')
      → (has_open_tasks context.organization_id wo db ≡ false)
        × (lacks_quality_check context.organization_id wo db' ≡ false)
  unfolding lacks_quality_check
  pass_body-clears note_text done =
      elim (Option-cases
        (find_first (owned_work_order context.organization_id wo) db.work_orders)) [
          | inl missing ↦ absurd (err-ne-ok (sym (pass_body_missing note_text missing) ∙ done))
          | inr (w, found) ↦
              let (no_tasks, rows) = pass_body-writes note_text w found done in
              let after =
                found_after context.organization_id wo db db' w
                  (with_quality true (truthy note_text) (some context.actor_id) (some now))
                  (λ x. refl) found rows in
              let same : w.id ≡ wo = owned_id context.organization_id wo db.work_orders w found in
              (rw same at no_tasks, ground arith)
        ]

-- When passQualityCheck succeeds, the work order had no open task and none that needs attention,
-- and afterwards the transition to completed no longer finds its quality check missing.
pub pass_quality_check-clears :
    (context : TenantContext) (now wo : ℕ) (note_text : Option Text) (db db' : Db)
    → pass_quality_check context now wo note_text db ≡ (ok tt, db')
    → (has_open_tasks context.organization_id wo db ≡ false)
      × (lacks_quality_check context.organization_id wo db' ≡ false)
unfolding pass_quality_check
pass_quality_check-clears context now wo note_text db db' done =
    pass_body-clears context now wo db db' (Option.map trim note_text) (ground arith)
