-- ===== src/Outbox/Drains.antt =====
-- What one drain does to a row: a published row is left alone, and one that is ready is advanced.
use shop_os.Common.{
  ℕ, ◌+◌, ◌≤◌, ◌≡◌, Bool, true, false, some, none, List, [], ◌∷◌, is_some, refl, filter, length,
  ◌&&◌, not, update_where, subst, ◌∙◌, sym, ==→eq, if◌then◌else◌, find_first-holds,
}
use shop_os.Db.Keyed.{find, IsKeyed, update_any-IsKeyed, find-update_any, update-IsKeyed, by_id}
use shop_os.Outbox.Queue.{Queue, OutboxRow, Registry}
use shop_os.Outbox.Dispatch.{
  Options, drain_once, dispatch_rows, select_due, is_due, claim_and_hide_batch, DrainSummary,
  with_rows, dispatch_row, is_among, order_by_time, take, hide_until, count_outcome,
}
use shop_os.Outbox.Order.{
  row_id, filter-IsKeyed, find-take-none, find-order, take-all, find-filter, length-order,
  order-IsKeyed, none-is_among,
}
use shop_os.Outbox.Endings.{Advanced, IsHidden}
use shop_os.Outbox.Progress.{dispatch_row-Writes, dispatch_rows-Advanced, dispatch_rows-elsewhere}
use shop_os.Outbox.Endings.{IsHidden}

-- the rows that a claim may take
abbrev pub is_ready : (is_locked : OutboxRow → Bool) → (db_now : ℕ) → OutboxRow → Bool
is_ready is_locked db_now row = is_due db_now row && not (is_locked row)

module _ (options : Options) (handlers : Registry) where
  dispatch_rows-IsKeyed :
      (clock : ℕ → ℕ) (rows : List OutboxRow) (s : DrainSummary) (queue : Queue)
      → IsKeyed row_id queue.rows
      → IsKeyed row_id (dispatch_rows options handlers clock rows s queue).1.rows
  unfolding dispatch_rows
  dispatch_rows-IsKeyed clock [] s queue u = u
  dispatch_rows-IsKeyed clock (row ∷ rows) s queue u =
      let (outcome, queue') = dispatch_row options handlers (clock row.id) row queue in
      let (f, keep, wrote, _) = dispatch_row-Writes options handlers (clock row.id) row queue in
      dispatch_rows-IsKeyed clock rows (count_outcome outcome s) queue'
        (rw wrote (update-IsKeyed row_id row.id f queue.rows keep u))

  module _ (is_locked : OutboxRow → Bool) (db_now now : ℕ) (clock : ℕ → ℕ) (queue : Queue) where
    -- the queue after the drain, and the batch of the drain
    abbrev drained : Queue
    drained = (drain_once options handlers is_locked db_now now clock queue).1

    abbrev batch : List OutboxRow
    batch = select_due options is_locked db_now queue.rows

    abbrev hidden : List OutboxRow
    hidden = update_where (is_among batch) (hide_until (now + options.lease_ms)) queue.rows

    pub drain_once-IsKeyed : IsKeyed row_id queue.rows → IsKeyed row_id drained.rows
    unfolding drain_once claim_and_hide_batch
    drain_once-IsKeyed u = dispatch_rows-IsKeyed clock batch _ (with_rows hidden queue) (
        update_any-IsKeyed row_id (is_among batch) (hide_until (now + options.lease_ms)) queue.rows
          (λ x. refl) u)

    -- A row that is not ready is not in the batch.
    find-batch-none :
        (k : ℕ) (row : OutboxRow)
        → IsKeyed row_id queue.rows
        → find row_id k queue.rows ≡ some row
        → is_ready is_locked db_now row ≡ false
        → find row_id k batch ≡ none
    unfolding select_due
    find-batch-none k row u there away =
        let ready = filter (is_ready is_locked db_now) queue.rows in
        find-take-none k options.batch_size (order_by_time ready) (
          find-order k ready (filter-IsKeyed (is_ready is_locked db_now) queue.rows u)
          ∙ find-filter (is_ready is_locked db_now) k queue.rows row u there
          ∙ rw away refl)

    -- A row that is ready is in a batch that has room for all.
    find-batch-some :
        (k : ℕ) (row : OutboxRow)
        → IsKeyed row_id queue.rows
        → find row_id k queue.rows ≡ some row
        → is_ready is_locked db_now row ≡ true
        → length (filter (is_ready is_locked db_now) queue.rows) ≤ options.batch_size
        → (find row_id k batch ≡ some row) × IsKeyed row_id batch
    unfolding select_due
    find-batch-some k row u there ready_row room =
        let ready = filter (is_ready is_locked db_now) queue.rows in
        let keyed = filter-IsKeyed (is_ready is_locked db_now) queue.rows u in
        let whole : take options.batch_size (order_by_time ready) ≡ order_by_time ready =
          take-all options.batch_size (order_by_time ready)
            (subst (λ n. n ≤ options.batch_size) (sym (length-order ready)) room) in
        rw whole (
          find-order k ready keyed
              ∙ find-filter (is_ready is_locked db_now) k queue.rows row u there
              ∙ rw ready_row refl,
          order-IsKeyed ready keyed,
        )

    find-hidden :
        (k : ℕ) (row : OutboxRow)
        → find row_id k queue.rows ≡ some row
        → find row_id k hidden
          ≡ some (if is_among batch row then hide_until (now + options.lease_ms) row else row)
    find-hidden k row there =
        find-update_any row_id (is_among batch) (hide_until (now + options.lease_ms)) k queue.rows
          (λ x. refl)
        ∙ rw there refl

    -- A published row is left as it is.
    pub drain_once-published :
        (k : ℕ) (row : OutboxRow)
        → IsKeyed row_id queue.rows
        → find row_id k queue.rows ≡ some row
        → is_some row.published_at ≡ true
        → find row_id k drained.rows ≡ some row
    unfolding drain_once claim_and_hide_batch
    drain_once-published k row u there published =
        let absent = find-batch-none k row u there (rw published refl) in
        let own = ==→eq row.id k (find_first-holds (by_id row_id k) queue.rows row there) in
        let free =
          none-is_among row batch (subst (λ j. find row_id j batch ≡ none) (sym own) absent) in
        dispatch_rows-elsewhere options handlers clock k batch _ (with_rows hidden queue) absent
        ∙ find-hidden k row there
        ∙ rw free refl

    -- If the rows of a queue have different ids, a row of it is not published, its time has
    -- come, no other transaction holds it, and the batch has room for all rows that are ready,
    -- then after drainOnce the row is as its tenant and its handler answered at the time of its
    -- dispatch. With a tenant that is not valid it is a dead letter with that reason. Where the
    -- handler succeeded it is published at that time, its attempts and its mark of failure as
    -- they were; where the handler found the tenant not valid it is a dead letter; and where the
    -- handler failed, the row is a dead letter out of attempts if this was the last attempt,
    -- else it is not published, counts one attempt more, and is next available the base of the
    -- backoff times 2 to the attempts before, in seconds, after the time of its dispatch.
    pub drain_once-Advanced :
        (k : ℕ) (row : OutboxRow)
        → IsKeyed row_id queue.rows
        → find row_id k queue.rows ≡ some row
        → row.published_at ≡ none
        → is_ready is_locked db_now row ≡ true
        → length (filter (is_ready is_locked db_now) queue.rows) ≤ options.batch_size
        → (row' : OutboxRow) × (find row_id k drained.rows ≡ some row')
          × Advanced options handlers (clock k) queue.tenants row row'
    unfolding drain_once claim_and_hide_batch
    drain_once-Advanced k row u there waiting ready room =
        let (claimed, keyed) = find-batch-some k row u there ready room in
        dispatch_rows-Advanced options handlers clock k batch _ (with_rows hidden queue) row _ keyed
          claimed (find-hidden k row there) (still_hidden (is_among batch row) waiting)
      where
        still_hidden :
            (b : Bool)
            → row.published_at ≡ none
            → IsHidden row (if b then hide_until (now + options.lease_ms) row else row)
        still_hidden true h = (h, refl, refl)
        still_hidden false h = (h, refl, refl)
