-- ===== src/Outbox/Dispatch.antt =====
-- `OutboxDispatcher`, outbox-dispatcher.ts: the claim of a batch, the dispatch of its rows, and what
-- is marked in the queue. The clock, the rows that other transactions have locked, and the handlers
-- are parameters.
use shop_os.Common.{
  ℕ, suc, ◌+◌, ◌*◌, ◌^◌, Bool, some, List, [], ◌∷◌, if◌then◌else◌, leb, ◌==◌, ◌&&◌, not, is_some,
  filter, any, update_where, length,
}
use shop_os.Outbox.Queue.{
  Queue, OutboxRow, Registry, resolve, revalidate_job_tenant_context, valid, invalid,
  map_outbox_event_to_domain_event, Handled, succeeded, failed_with_error, failed_on_tenant,
  DispatchError, invalid_tenant, max_attempts_exceeded,
}
use Prim.Native.Nat.{zero}

pub record Options : Type 0 where
  pub batch_size : ℕ
  pub max_attempts : ℕ
  pub backoff_base_seconds : ℕ
  pub lease_ms : ℕ

abbrev pub default_options : Options
default_options = record {
  batch_size = 50;
  max_attempts = 5;
  backoff_base_seconds = 30;
  lease_ms = 60_000;
}

abbrev pub take : ℕ → List OutboxRow → List OutboxRow
take zero rows = []
take (suc n) [] = []
take (suc n) (row ∷ rows) = row ∷ take n rows

-- `ORDER BY available_at`
abbrev pub insert_by_time : OutboxRow → List OutboxRow → List OutboxRow
insert_by_time row [] = row ∷ []
insert_by_time row (other ∷ rows) =
    let rest = insert_by_time row rows in
    if leb row.available_at other.available_at then row ∷ other ∷ rows else other ∷ rest

unfoldable pub order_by_time : List OutboxRow → List OutboxRow
order_by_time [] = []
order_by_time (row ∷ rows) = insert_by_time row (order_by_time rows)

-- `published_at IS NULL AND available_at <= now()`
abbrev pub is_due : ℕ → OutboxRow → Bool
is_due now row = not (is_some row.published_at) && leb row.available_at now

abbrev pub with_rows : List OutboxRow → Queue → Queue
with_rows rows queue = record queue { rows = rows }

-- the update of a row by its id
abbrev pub update_row : (row_id : ℕ) → (OutboxRow → OutboxRow) → Queue → Queue
update_row row f queue = with_rows (update_where (λ r. r.id == row) f queue.rows) queue

abbrev pub hide_until : ℕ → OutboxRow → OutboxRow
hide_until time row = record row { available_at = time }

-- whether a row is among those claimed
abbrev pub is_among : List OutboxRow → OutboxRow → Bool
is_among claimed row = any (λ c. c.id == row.id) claimed

-- `FOR UPDATE SKIP LOCKED`: `is_locked` says which rows another transaction holds.
unfoldable pub select_due :
    Options → (is_locked : OutboxRow → Bool) → (db_now : ℕ) → List OutboxRow → List OutboxRow
select_due options is_locked db_now rows =
    take options.batch_size
      (order_by_time (filter (λ row. is_due db_now row && not (is_locked row)) rows))

-- The rows are returned as they were read, and hidden for the lease. The database has a clock of its
-- own.
unfoldable pub claim_and_hide_batch :
    Options → (is_locked : OutboxRow → Bool) → (db_now now : ℕ) → Queue → List OutboxRow × Queue
claim_and_hide_batch options is_locked db_now now queue =
    let claimed = select_due options is_locked db_now queue.rows in
    (
      claimed,
      with_rows (update_where (is_among claimed) (hide_until (now + options.lease_ms)) queue.rows)
          queue,
    )

pub data Outcome : Type 0 where
  dispatched failed dead_lettered skipped : Outcome

abbrev pub as_published : ℕ → OutboxRow → OutboxRow
as_published now row = record row { published_at = some now }

abbrev pub mark_published : (now row_id : ℕ) → Queue → Queue
mark_published now row = update_row row (as_published now)

abbrev pub as_retried : (now attempts backoff_seconds : ℕ) → OutboxRow → OutboxRow
as_retried now attempts backoff row = record row {
  attempts = attempts;
  available_at = now + backoff * 1_000;
}

abbrev pub mark_retry : (now row_id attempts backoff_seconds : ℕ) → Queue → Queue
mark_retry now row attempts backoff = update_row row (as_retried now attempts backoff)

abbrev pub as_dead : Options → (now : ℕ) → DispatchError → OutboxRow → OutboxRow
as_dead options now e row = record row {
  published_at = some now;
  attempts = options.max_attempts;
  dispatch_error = some e;
}

abbrev pub mark_dead_lettered : Options → (now row_id : ℕ) → DispatchError → Queue → Queue
mark_dead_lettered options now row e = update_row row (as_dead options now e)

-- the row as it was claimed, and the queue as it is now
unfoldable pub handle_failure : Options → (now : ℕ) → OutboxRow → Queue → Outcome × Queue
handle_failure options now row queue =
    let next = row.attempts + 1 in
    if leb options.max_attempts next
    then (dead_lettered, mark_dead_lettered options now row.id max_attempts_exceeded queue)
    else (
      failed,
      mark_retry now row.id next (options.backoff_base_seconds * 2 ^ row.attempts) queue,
    )

-- what follows from how the handler ended
unfoldable pub finish_dispatch : Options → (now : ℕ) → OutboxRow → Handled → Queue → Outcome × Queue
finish_dispatch options now row succeeded queue = (dispatched, mark_published now row.id queue)
finish_dispatch options now row failed_with_error queue = handle_failure options now row queue
finish_dispatch options now row (failed_on_tenant reason) queue =
    (skipped, mark_dead_lettered options now row.id (invalid_tenant reason) queue)

-- how the attempt on a row ends, with its tenant checked first
unfoldable pub attempt_row : Registry → (now : ℕ) → OutboxRow → Queue → Handled
attempt_row handlers now row queue =
    elim (revalidate_job_tenant_context row.organization_id queue.tenants) [
      | invalid reason ↦ failed_on_tenant reason
      | valid tenant ↦
          let event = map_outbox_event_to_domain_event row in
          resolve handlers event.event_type now event tenant
    ]

unfoldable pub dispatch_row : Options → Registry → (now : ℕ) → OutboxRow → Queue → Outcome × Queue
dispatch_row options handlers now row queue =
    finish_dispatch options now row (attempt_row handlers now row queue) queue

pub record DrainSummary : Type 0 where
  pub claimed : ℕ
  pub dispatched : ℕ
  pub failed : ℕ
  pub dead_lettered : ℕ
  pub skipped : ℕ

abbrev pub count_outcome : Outcome → DrainSummary → DrainSummary
count_outcome Outcome.dispatched s = record s { dispatched = s.dispatched + 1 }
count_outcome Outcome.failed s = record s { failed = s.failed + 1 }
count_outcome Outcome.dead_lettered s = record s { dead_lettered = s.dead_lettered + 1 }
count_outcome Outcome.skipped s = record s { skipped = s.skipped + 1 }

-- the loop over the claimed rows; `clock` is the time at which each row is dispatched
unfoldable pub dispatch_rows :
    Options
    → Registry
    → (clock : ℕ → ℕ) → List OutboxRow
    → DrainSummary
    → Queue
    → DrainSummary × Queue
dispatch_rows options handlers clock [] s queue = (s, queue)
dispatch_rows options handlers clock (row ∷ rows) s queue =
    let (outcome, queue') = dispatch_row options handlers (clock row.id) row queue in
    dispatch_rows options handlers clock rows (count_outcome outcome s) queue'

unfoldable pub drain_once :
    Options
    → Registry
    → (is_locked : OutboxRow → Bool) → (db_now now : ℕ) → (clock : ℕ → ℕ) → Queue
    → DrainSummary × Queue
drain_once options handlers is_locked db_now now clock queue =
    let (claimed, queue') = claim_and_hide_batch options is_locked db_now now queue in
    dispatch_rows options handlers clock claimed
      (record {
        claimed = length claimed;
        dispatched = 0;
        failed = 0;
        dead_lettered = 0;
        skipped = 0;
      })
      queue'
