-- ===== src/Outbox/Liveness.antt =====
-- Drain after drain: a row that is visited again and again is published in the end.
use shop_os.Common.{
  ℕ, suc, ◌+◌, ◌<◌, ◌≤◌, ◌≡◌, Bool, true, some, none, is_some, refl, arith, inl, inr, Option-cases,
  filter, length,
}
use shop_os.Db.Keyed.{find, IsKeyed}
use shop_os.Outbox.Queue.{Queue, OutboxRow, Registry}
use shop_os.Outbox.Dispatch.{Options, drain_once}
use shop_os.Outbox.Order.{row_id}
use shop_os.Outbox.Drains.{is_ready, drain_once-IsKeyed, drain_once-published, drain_once-Advanced}
use shop_os.Outbox.Endings.{Advanced-IsCloser}

-- What is asked of a drain that visits a row: while the row is not published, its time has come, no
-- other transaction holds it, and the batch has room for all rows that are ready.
abbrev pub Visits :
    Options → (k : ℕ) → (is_locked : OutboxRow → Bool) → (db_now : ℕ) → Queue → Type 0
Visits options k is_locked db_now queue =
    (row : OutboxRow)
    → find row_id k queue.rows ≡ some row
    → row.published_at ≡ none
    → (is_ready is_locked db_now row ≡ true)
      × (length (filter (is_ready is_locked db_now) queue.rows) ≤ options.batch_size)

-- a number of drains that visit the row `k`
pub data Drains (options : Options) (handlers : Registry) (k : ℕ) : ℕ → Queue → Queue → Type 0 where
  over : {queue : Queue} → Drains options handlers k 0 queue queue
  drain :
      {n : ℕ} {queue last : Queue} (is_locked : OutboxRow → Bool) (db_now now : ℕ) (clock : ℕ → ℕ)
      → Visits options k is_locked db_now queue
      → Drains options handlers k n
          (drain_once options handlers is_locked db_now now clock queue).1
          last
      → Drains options handlers k (suc n) queue last

module _ (options : Options) (handlers : Registry) (k : ℕ) where
  -- A published row is the same row after any number of drains.
  Drains-published :
      {n : ℕ} {queue last : Queue} (row : OutboxRow)
      → Drains options handlers k n queue last
      → IsKeyed row_id queue.rows
      → find row_id k queue.rows ≡ some row
      → is_some row.published_at ≡ true
      → find row_id k last.rows ≡ some row
  Drains-published row over u there done = there
  Drains-published {queue = queue} row (drain is_locked db_now now clock visits rest) u there done =
      Drains-published row rest
        (drain_once-IsKeyed options handlers is_locked db_now now clock queue u)
        (drain_once-published options handlers is_locked db_now now clock queue k row u there done)
        done

  -- If the rows of a queue have different ids, and a row of it is visited by at least one drain,
  -- and by as many as the attempts that it has left, then the row is published in the end,
  -- whatever the handlers do; and if it was published before, it is the same row. A drain visits
  -- a row if, while the row is not published, its time has come, no other transaction holds it,
  -- and the batch has room for all rows that are ready.
  pub Drains-publish :
      {n : ℕ} {queue last : Queue} (row : OutboxRow)
      → Drains options handlers k n queue last
      → IsKeyed row_id queue.rows
      → find row_id k queue.rows ≡ some row
      → 0 < n
      → options.max_attempts ≤ row.attempts + n
      → (row' : OutboxRow) × (find row_id k last.rows ≡ some row')
        × (is_some row'.published_at ≡ true)
        × (is_some row.published_at ≡ true → row' ≡ row)
  Drains-publish row over u there some_drain enough = ground (arith, some_drain)
  Drains-publish {queue = queue} row (drain is_locked db_now now clock visits rest) u there
        some_drain enough =
      let u' = drain_once-IsKeyed options handlers is_locked db_now now clock queue u in
      elim (Option-cases row.published_at) [
        | inr (time, is_at) ↦
            let done : is_some row.published_at ≡ true = rw is_at refl in
            let there' =
              drain_once-published options handlers is_locked db_now now clock queue k row u there
                done in
            (row, Drains-published row rest u' there' done, done, λ _. refl)
        | inl waiting ↦
            let (ready, room) = visits row there waiting in
            let (row', there', advanced) =
              drain_once-Advanced options handlers is_locked db_now now clock queue k row u there
                waiting ready room in
            elim (Advanced-IsCloser options handlers (clock k) queue.tenants row row' advanced) [
              | inl done ↦ (
                row',
                Drains-published row' rest u' there' done,
                done,
                λ h. ground (arith, h, waiting),
              )
              | inr (counted, below) ↦
                  let (last_row, found, done, _) =
                    Drains-publish row' rest u' there' (omega (arith, enough, counted, below))
                      (omega (arith, enough, counted)) in
                  (last_row, found, done, λ h. ground (arith, h, waiting))
            ]
      ]
