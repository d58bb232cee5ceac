-- ===== src/WorkOrders/Quality.antt =====
-- src/modules/work-orders/quality-check-service.ts: the final check before a work order is completed.
use mathlib.Core.Option
use shop_os.Db.{
  open_task, needs_attention, ◌>>◌, ◌>>=◌, TaskStatus, Action, Db, Text, WorkOrder, ActivityKind,
  demand, modify, query, reject_if, log_activity, or_throw, transaction,
}
use shop_os.Result.{quality_failed, already_passed, open_tasks, QualityReason, invalid_note}
use shop_os.Common.{
  Bool, ℕ, true, any, false, update_where, find_first, ◌==◌, ◌&&◌, holds, ltb, length,
}
use shop_os.Tenancy.{TenantContext, assert_tenant_access, own_organization, work_orders_write}
use mathlib.Core.Option.{Option, some, none}
use shop_os.WorkOrders.Service.{owned_work_order}
use shop_os.Common.Text.{truthy, trim}

-- `status: { in: ["OPEN", "NEEDS_ATTENTION"] }`
abbrev pub is_unresolved : TaskStatus → Bool
is_unresolved open_task = true
is_unresolved needs_attention = true
is_unresolved _ = false

unfoldable pub has_open_tasks : (organization_id work_order_id : ℕ) → Db → Bool
has_open_tasks org wo db =
    any (λ t. t.organization_id == org && t.work_order_id == wo && is_unresolved t.status) db.tasks

unfoldable pub load_for_qc : TenantContext → (work_order_id : ℕ) → Action WorkOrder
load_for_qc context wo = do
  found ← query (λ db. find_first (owned_work_order context.organization_id wo) db.work_orders)
  or_throw found (quality_failed QualityReason.work_order_not_found)

-- the columns that the check writes
abbrev pub with_quality :
    (passed : Bool) → (note_text : Option Text) → (actor now : Option ℕ) → WorkOrder → WorkOrder
with_quality passed note_text actor now w = record w {
  qc_passed = passed;
  qc_note = note_text;
  qc_passed_by_user_id = actor;
  qc_passed_at = now;
}

abbrev pub set_quality : (work_order_id : ℕ) → (WorkOrder → WorkOrder) → Db → Db
set_quality wo f db = record db { work_orders = update_where (λ w. w.id == wo) f db.work_orders }

abbrev pub record_activity : TenantContext → WorkOrder → ActivityKind → Action (Unit {0})
record_activity context w kind = log_activity (record {
  organization_id = context.organization_id;
  location_id = w.location_id;
  work_order_id = w.id;
  actor_user_id = context.actor_id;
  kind = kind;
})

-- the transaction of `passQualityCheck`
unfoldable pub pass_body :
    TenantContext → (now work_order_id : ℕ) → (note_text : Option Text) → Action (Unit {0})
pass_body context now wo note_text = do
  w ← load_for_qc context wo
  reject_if w.qc_passed (quality_failed already_passed)
  pending_tasks ← query (has_open_tasks context.organization_id w.id)
  reject_if pending_tasks (quality_failed open_tasks)
  modify
      (set_quality w.id (with_quality true (truthy note_text) (some context.actor_id) (some now)))
  record_activity context w (ActivityKind.quality_check_passed (truthy note_text))

unfoldable pub pass_quality_check :
    TenantContext → (now work_order_id : ℕ) → (note_text : Option Text) → Action (Unit {0})
pass_quality_check context now wo note_text = do
  demand (assert_tenant_access context (own_organization context) work_orders_write)
  reject_if (holds (λ t. ltb 2000 (length (trim t))) note_text) (quality_failed invalid_note)
  transaction (pass_body context now wo (Option.map trim note_text))

-- the transaction of `failQualityCheck`
unfoldable pub fail_body : TenantContext → (work_order_id : ℕ) → Text → Action (Unit {0})
fail_body context wo note_text = do
  w ← load_for_qc context wo
  modify (set_quality w.id (with_quality false (some note_text) none none))
  record_activity context w (ActivityKind.quality_check_failed note_text)

unfoldable pub fail_quality_check : TenantContext → (work_order_id : ℕ) → Text → Action (Unit {0})
fail_quality_check context wo note_text = do
  demand (assert_tenant_access context (own_organization context) work_orders_write)
  reject_if (ltb (length (trim note_text)) 3) (quality_failed invalid_note)
  transaction (fail_body context wo (trim note_text))
