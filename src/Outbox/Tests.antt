-- ===== src/Outbox/Tests.antt =====
-- Witnesses of the theorems on the outbox: one event whose handler always fails.
use shop_os.Common.{
  refl, [], ◌∷◌, none, some, false, true, ◌≡◌, arith, Bool, All, ◌+◌, ◌≤◌, is_some,
}
use shop_os.Outbox.Queue.{
  Queue, OutboxRow, Registry, Handled, plain_object, resolve, revalidate_job_tenant_context,
  map_outbox_event_to_domain_event, OrganizationStatus,
}
use shop_os.Outbox.Dispatch.{
  Options, drain_once, claim_and_hide_batch, select_due, is_among, order_by_time, dispatch_rows,
  dispatch_row, finish_dispatch, handle_failure, attempt_row,
}
use shop_os.Outbox.Summary.{drain_once-accounts}
use shop_os.Outbox.Claims.{claims-disjoint}
use shop_os.Outbox.Drains.{drain_once-Advanced}
use shop_os.Outbox.Liveness.{Drains, Drains-publish, Visits}
use shop_os.Db.Keyed.{find}
use shop_os.Outbox.Order.{row_id}
use shop_os.Outbox.Endings.{Advanced}

abbrev twice : Options
twice = record { batch_size = 50; max_attempts = 2; backoff_base_seconds = 30; lease_ms = 60_000 }

abbrev reminder : OutboxRow
reminder = record {
  id = 4;
  organization_id = 1;
  event_type = 114 ∷ [];
  aggregate_type = 97 ∷ [];
  aggregate_id = 6;
  payload = plain_object (123 ∷ 125 ∷ []);
  dispatch_error = none;
  occurred_at = 10;
  available_at = 10;
  published_at = none;
  attempts = 0;
}

abbrev one_reminder : Queue
one_reminder = record {
  rows = reminder ∷ [];
  tenants = record { id = 1; status = OrganizationStatus.active } ∷ [];
}

abbrev always_fails : Registry
always_fails = (114 ∷ [], λ _ _ _. Handled.failed_with_error) ∷ []

abbrev never_locked : OutboxRow → Bool
never_locked _ = false

abbrev failed_once : Queue
failed_once = (drain_once twice always_fails never_locked 100 100 (λ _. 100) one_reminder).1

abbrev failed_twice : Queue
failed_twice =
    (drain_once twice always_fails never_locked 40_000 40_000 (λ _. 40_000) failed_once).1

drain_once-accounts_example :
    let (s, _) = drain_once twice always_fails never_locked 100 100 (λ _. 100) one_reminder in
    (s.claimed ≡ s.dispatched + s.failed + s.dead_lettered + s.skipped) × (s.claimed ≤ 50)
drain_once-accounts_example =
    drain_once-accounts twice always_fails never_locked 100 100 (λ _. 100) one_reminder

claims-disjoint_example :
    let (first, hidden) = claim_and_hide_batch twice never_locked 100 100 one_reminder in
    let (second, _) = claim_and_hide_batch twice never_locked 200 200 hidden in
    All (λ row. is_among first row ≡ false) second
claims-disjoint_example =
    claims-disjoint twice never_locked never_locked 100 100 200 200 one_reminder (omega arith)

drain_once-Advanced_example :
    (row' : OutboxRow) × (find row_id 4 failed_once.rows ≡ some row')
    × Advanced twice always_fails 100 one_reminder.tenants reminder row'
drain_once-Advanced_example =
    drain_once-Advanced twice always_fails never_locked 100 100 (λ _. 100) one_reminder 4 reminder
      (refl, tt) refl refl refl (omega arith)

first_visit : Visits twice 4 never_locked 100 one_reminder
first_visit row found waiting = ground (arith, found)

second_visit : Visits twice 4 never_locked 40_000 failed_once
unfolding drain_once claim_and_hide_batch select_due order_by_time dispatch_rows dispatch_row
    finish_dispatch handle_failure attempt_row revalidate_job_tenant_context resolve
    map_outbox_event_to_domain_event
second_visit row found waiting = ground (arith, found)

two-Drains : Drains twice always_fails 4 2 one_reminder failed_twice
two-Drains =
    Drains.drain never_locked 100 100 (λ _. 100) first_visit
      (Drains.drain never_locked 40_000 40_000 (λ _. 40_000) second_visit Drains.over)

Drains-publish_example :
    (row' : OutboxRow) × (find row_id 4 failed_twice.rows ≡ some row')
    × (is_some row'.published_at ≡ true)
    × (is_some reminder.published_at ≡ true → row' ≡ reminder)
Drains-publish_example =
    Drains-publish twice always_fails 4 reminder two-Drains (refl, tt) refl (omega arith)
      (omega arith)
