-- ===== src/Outbox/Summary.antt =====
-- The summary of a drain accounts for every row that it claimed.
use shop_os.Common.{
  ℕ, ◌+◌, ◌≡◌, ◌≤◌, List, [], ◌∷◌, length, arith, suc, refl, ◌∙◌, Bool, sym, subst,
}
use shop_os.Outbox.Queue.{Queue, OutboxRow, Registry}
use shop_os.Outbox.Dispatch.{
  Options, DrainSummary, drain_once, dispatch_rows, count_outcome, Outcome, claim_and_hide_batch,
  dispatch_row, select_due,
}
use shop_os.Outbox.Order.{length-take}

abbrev total : DrainSummary → ℕ
total s = s.dispatched + s.failed + s.dead_lettered + s.skipped

count_outcome-total :
    (o : Outcome) (s : DrainSummary)
    → (total (count_outcome o s) ≡ suc (total s)) × ((count_outcome o s).claimed ≡ s.claimed)
count_outcome-total Outcome.dispatched s = (omega arith, refl)
count_outcome-total Outcome.failed s = (omega arith, refl)
count_outcome-total Outcome.dead_lettered s = (omega arith, refl)
count_outcome-total Outcome.skipped s = (omega arith, refl)

dispatch_rows-total :
    (options : Options) (handlers : Registry) (clock : ℕ → ℕ) (rows : List OutboxRow)
    (s : DrainSummary) (queue : Queue)
    → (total (dispatch_rows options handlers clock rows s queue).0 ≡ total s + length rows)
      × ((dispatch_rows options handlers clock rows s queue).0.claimed ≡ s.claimed)
unfolding dispatch_rows
dispatch_rows-total options handlers clock [] s queue = (omega arith, refl)
dispatch_rows-total options handlers clock (row ∷ rows) s queue =
    let (outcome, queue') = dispatch_row options handlers (clock row.id) row queue in
    let (sum, same) =
      dispatch_rows-total options handlers clock rows (count_outcome outcome s) queue' in
    let (one, same') = count_outcome-total outcome s in (omega (arith, sum, one), same ∙ same')

-- Of any queue, drainOnce claims at most batchSize rows, and the rows that it claims are as many
-- as those that it reports as dispatched, failed, dead-lettered or skipped, together.
pub drain_once-accounts :
    (options : Options) (handlers : Registry) (is_locked : OutboxRow → Bool) (db_now now : ℕ)
    (clock : ℕ → ℕ) (queue : Queue)
    → (let (s, _) = drain_once options handlers is_locked db_now now clock queue in
        (s.claimed ≡ s.dispatched + s.failed + s.dead_lettered + s.skipped)
        × (s.claimed ≤ options.batch_size))
unfolding drain_once claim_and_hide_batch select_due
drain_once-accounts options handlers is_locked db_now now clock queue =
    let (claimed, queue') = claim_and_hide_batch options is_locked db_now now queue in
    let start : DrainSummary = record {
      claimed = length claimed;
      dispatched = 0;
      failed = 0;
      dead_lettered = 0;
      skipped = 0;
    } in
    let (sum, same) = dispatch_rows-total options handlers clock claimed start queue' in
    (
      same ∙ sym (sum ∙ omega arith),
      subst (λ n. n ≤ options.batch_size) (sym same) (length-take options.batch_size _),
    )
