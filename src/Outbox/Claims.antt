-- ===== src/Outbox/Claims.antt =====
-- Two claims never share a row while the lease of the first one lasts.
use shop_os.Common.{
  ℕ, ◌+◌, ◌<◌, ◌≡◌, List, [], ◌∷◌, All, false, true, arith, Bool-cases, inl, inr, Bool,
  update_where, ◌&&◌, not, filter, if◌then◌else◌,
}
use shop_os.Outbox.Queue.{Queue, OutboxRow}
use shop_os.Outbox.Dispatch.{
  Options, claim_and_hide_batch, is_among, is_due, hide_until, select_due, order_by_time,
}
use shop_os.Outbox.Order.{All-take, All-order, All-filter}

-- a row that is due is none of the first claim's
abbrev Free : (claimed : List OutboxRow) → (is_locked : OutboxRow → Bool) → ℕ → OutboxRow → Type 0
Free claimed is_locked now row =
    (is_due now row && not (is_locked row)) ≡ true → is_among claimed row ≡ false

hidden-Free :
    (claimed : List OutboxRow) (is_locked : OutboxRow → Bool) (now until : ℕ)
    (rows : List OutboxRow)
    → now < until
    → All (Free claimed is_locked now) (update_where (is_among claimed) (hide_until until) rows)
hidden-Free claimed is_locked now until [] h = tt
hidden-Free claimed is_locked now until (row ∷ rows) h =
    (hidden row, hidden-Free claimed is_locked now until rows h)
  where
    hidden :
        (x : OutboxRow)
        → Free claimed is_locked now (if is_among claimed x then hide_until until x else x)
    hidden x = elim (Bool-cases (is_among claimed x)) [
      | inl among ↦ rw among (λ due. ground (arith, due, h))
      | inr other ↦ rw other (λ due. other)
    ]

-- If a batch is claimed by a worker whose clock says `now`, and another one is claimed next when
-- the database's clock says less than `now` plus the lease, then no row of the second batch is
-- in the first.
pub claims-disjoint :
    (options : Options) (locked_before locked_after : OutboxRow → Bool)
    (db_now now db_later later : ℕ) (queue : Queue)
    → db_later < now + options.lease_ms
    → (let (first, hidden) = claim_and_hide_batch options locked_before db_now now queue in
        let (second, _) = claim_and_hide_batch options locked_after db_later later hidden in
        All (λ row. is_among first row ≡ false) second)
unfolding claim_and_hide_batch select_due
claims-disjoint options locked_before locked_after db_now now db_later later queue soon =
    let first = select_due options locked_before db_now queue.rows in
    let rows = update_where (is_among first) (hide_until (now + options.lease_ms)) queue.rows in
    let P = λ (row : OutboxRow). is_among first row ≡ false in
    All-take P options.batch_size
      (order_by_time (filter (λ row. is_due db_later row && not (locked_after row)) rows))
      (All-order P (filter (λ row. is_due db_later row && not (locked_after row)) rows) (
        All-filter P (λ row. is_due db_later row && not (locked_after row)) rows
          (hidden-Free first locked_after db_later (now + options.lease_ms) queue.rows soon)))
