-- ===== src/Outbox/Progress.antt =====
-- What a drain does to one row.
use shop_os.Common.{
  ℕ, ◌+◌, ◌*◌, ◌^◌, ◌≡◌, false, some, none, List, [], ◌∷◌, ◌==◌, refl, arith, inl, inr, Bool-cases,
  if◌then◌else◌, Option, sym, ◌∙◌, leb, ==→eq, ap, some-injective, subst,
}
use shop_os.Db.Keyed.{find, IsKeyed, find-update}
use shop_os.Outbox.Queue.{
  Queue, OutboxRow, Registry, Handled, invalid_tenant, max_attempts_exceeded,
}
use shop_os.Outbox.Dispatch.{
  Options, dispatch_row, dispatch_rows, update_row, finish_dispatch, handle_failure, DrainSummary,
  as_published, attempt_row, as_dead, count_outcome, as_retried,
}
use shop_os.Outbox.Order.{row_id}
use shop_os.Outbox.Endings.{IsHidden, attempt_row-Advanced, Advanced, Ends}

module _ (options : Options) (handlers : Registry) where
  -- what the dispatch of a row writes into it
  abbrev Writes : (now : ℕ) → OutboxRow → Queue → Queue → Type 0
  Writes now row queue queue' =
      (f : OutboxRow → OutboxRow) × ((x : OutboxRow) → row_id (f x) ≡ row_id x)
      × (queue' ≡ update_row row.id f queue)
      × ((x : OutboxRow) → IsHidden row x → Advanced options handlers now queue.tenants row (f x))

  -- what the attempt writes into the row, by how it ended
  finish_dispatch-Ends :
      (now : ℕ) (row : OutboxRow) (h : Handled) (queue : Queue)
      → (f : OutboxRow → OutboxRow) × ((x : OutboxRow) → row_id (f x) ≡ row_id x)
        × ((finish_dispatch options now row h queue).1 ≡ update_row row.id f queue)
        × ((x : OutboxRow) → IsHidden row x → Ends options now row (f x) h)
  unfolding finish_dispatch handle_failure
  finish_dispatch-Ends now row Handled.succeeded queue =
      (as_published now, λ x. refl, refl, λ x (waiting, tried, marked). (refl, tried, marked))
  finish_dispatch-Ends now row (Handled.failed_on_tenant reason) queue =
      (as_dead options now (invalid_tenant reason), λ x. refl, refl, λ x _. (refl, refl, refl))
  finish_dispatch-Ends now row Handled.failed_with_error queue =
      elim (Bool-cases (leb options.max_attempts (row.attempts + 1))) [
        | inl last ↦ (
          as_dead options now max_attempts_exceeded,
          λ x. refl,
          rw last refl,
          λ x _. (λ _. (refl, refl, refl), λ below. ground (arith, last, below)),
        )
        | inr more ↦ (
          as_retried now (row.attempts + 1) (options.backoff_base_seconds * 2 ^ row.attempts),
          λ x. refl,
          rw more refl,
          λ x (waiting, tried, marked).
              (λ over. ground (arith, more, over), λ _. (waiting, refl, marked, refl)),
        )
      ]

  pub dispatch_row-Writes :
      (now : ℕ) (row : OutboxRow) (queue : Queue)
      → Writes now row queue (dispatch_row options handlers now row queue).1
  unfolding dispatch_row
  dispatch_row-Writes now row queue =
      let (f, keep, wrote, ends) =
        finish_dispatch-Ends now row (attempt_row handlers now row queue) queue in
      (
        f,
        keep,
        wrote,
        λ x hidden. attempt_row-Advanced options handlers now queue row (f x) (ends x hidden),
      )

  -- The dispatch of another row leaves a row alone.
  dispatch_row-elsewhere :
      (now k : ℕ) (row : OutboxRow) (queue : Queue)
      → (row.id == k) ≡ false
      → find row_id k (dispatch_row options handlers now row queue).1.rows
        ≡ find row_id k queue.rows
  dispatch_row-elsewhere now k row queue other =
      let (f, keep, same, _) = dispatch_row-Writes now row queue in
      ap (λ q. find row_id k q.rows) same
      ∙ find-update row_id row.id k f queue.rows keep
      ∙ untouched f (find row_id k queue.rows)
    where
      untouched :
          (f : OutboxRow → OutboxRow) (o : Option OutboxRow)
          → (elim o as (λ _. Option OutboxRow) [
            | none ↦ none
            | some a ↦ some (if k == row.id then f a else a)
          ])
            ≡ o
      untouched f none = refl
      untouched f (some a) = ground (arith, other)

  pub dispatch_rows-elsewhere :
      (clock : ℕ → ℕ) (k : ℕ) (rows : List OutboxRow) (s : DrainSummary) (queue : Queue)
      → find row_id k rows ≡ none
      → find row_id k (dispatch_rows options handlers clock rows s queue).1.rows
        ≡ find row_id k queue.rows
  unfolding dispatch_rows
  dispatch_rows-elsewhere clock k [] s queue h = refl
  dispatch_rows-elsewhere clock k (row ∷ rows) s queue h = elim (Bool-cases (row.id == k)) [
    | inl here ↦ ground (arith, here, h)
    | inr other ↦
        let (outcome, queue') = dispatch_row options handlers (clock row.id) row queue in
        dispatch_rows-elsewhere clock k rows (count_outcome outcome s) queue'
          (ground (arith, other, h))
        ∙ dispatch_row-elsewhere (clock row.id) k row queue other
  ]

  -- A row that was claimed is advanced.
  pub dispatch_rows-Advanced :
      (clock : ℕ → ℕ) (k : ℕ) (rows : List OutboxRow) (s : DrainSummary) (queue : Queue)
      (row x : OutboxRow)
      → IsKeyed row_id rows
      → find row_id k rows ≡ some row
      → find row_id k queue.rows ≡ some x
      → IsHidden row x
      → (x' : OutboxRow) × (find row_id k (dispatch_rows options handlers clock rows s queue).1.rows
          ≡ some x')
        × Advanced options handlers (clock k) queue.tenants row x'
  unfolding dispatch_rows
  dispatch_rows-Advanced clock k [] s queue row x u claimed there waiting = cc
  dispatch_rows-Advanced clock k (c ∷ rows) s queue row x (fresh, u) claimed there waiting =
      let (outcome, queue') = dispatch_row options handlers (clock c.id) c queue in
      elim (Bool-cases (c.id == k)) [
        | inl here ↦
            let same = ==→eq c.id k here in
            let is_row : c ≡ row = some-injective (sym (rw here refl) ∙ claimed) in
            let (f, keep, wrote, advances) = dispatch_row-Writes (clock c.id) c queue in
            let there' : find row_id k queue'.rows ≡ some (f x) =
              ap (λ q. find row_id k q.rows) wrote
              ∙ find-update row_id c.id k f queue.rows keep
              ∙ rw there (ground (arith, same)) in
            let after =
              dispatch_rows-elsewhere clock k rows (count_outcome outcome s) queue'
                (subst (λ j. find row_id j rows ≡ none) same fresh) in
            (
              f x,
              after ∙ there',
              subst (λ j. Advanced options handlers (clock j) queue.tenants row (f x)) same
                  (subst
                    (λ r.
                      IsHidden r x → Advanced options handlers (clock c.id) queue.tenants r (f x))
                    is_row (advances x) waiting),
            )
        | inr other ↦
            let (x', there', advanced) =
              dispatch_rows-Advanced clock k rows (count_outcome outcome s) queue' row x u
                (sym (rw other refl) ∙ claimed)
                (dispatch_row-elsewhere (clock c.id) k c queue other ∙ there) waiting in
            let (f, keep, wrote, advances) = dispatch_row-Writes (clock c.id) c queue in
            (
              x',
              there',
              subst (λ q. Advanced options handlers (clock k) q.tenants row x') wrote advanced,
            )
      ]
