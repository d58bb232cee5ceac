-- ===== src/Outbox/Endings.antt =====
-- What an attempt on a row of the queue leaves in it, by how its tenant and its handler answered.
use shop_os.Common.{
  ℕ, ◌+◌, ◌*◌, ◌^◌, ◌<◌, ◌≤◌, ◌≡◌, ◌⊎◌, true, some, none, is_some, arith, inl, inr, List, leb,
  leb-false, Bool-cases, refl, subst,
}
use shop_os.Outbox.Queue.{
  OutboxRow, Registry, Handled, invalid_tenant, max_attempts_exceeded, DispatchError, Tenant,
  InvalidReason, revalidate_job_tenant_context, valid, invalid, resolve, Queue,
  map_outbox_event_to_domain_event, Revalidated,
}
use shop_os.Outbox.Dispatch.{Options, attempt_row}

-- The row is published at `now`, without a mark of failure of this attempt.
abbrev IsPublished : (now : ℕ) → OutboxRow → OutboxRow → Type 0
IsPublished now row row' =
    (row'.published_at ≡ some now)
    × (row'.attempts ≡ row.attempts)
    × (row'.dispatch_error ≡ row.dispatch_error)

-- The row is a dead letter: taken out of the queue with the reason, and out of attempts.
abbrev IsDead : Options → (now : ℕ) → DispatchError → OutboxRow → Type 0
IsDead options now e row' =
    (row'.published_at ≡ some now)
    × (row'.attempts ≡ options.max_attempts)
    × (row'.dispatch_error ≡ some e)

-- The row waits for another attempt, after its backoff.
abbrev IsRetried : Options → (now : ℕ) → OutboxRow → OutboxRow → Type 0
IsRetried options now row row' =
    (row'.published_at ≡ none)
    × (row'.attempts ≡ row.attempts + 1)
    × (row'.dispatch_error ≡ row.dispatch_error)
    × (row'.available_at ≡ now + options.backoff_base_seconds * 2 ^ row.attempts * 1_000)

-- the row after an attempt that ended so
abbrev pub Ends : Options → (now : ℕ) → OutboxRow → OutboxRow → Handled → Type 0
Ends options now row row' Handled.succeeded = IsPublished now row row'
Ends options now row row' (Handled.failed_on_tenant reason) =
    IsDead options now (invalid_tenant reason) row'
Ends options now row row' Handled.failed_with_error =
    (options.max_attempts ≤ row.attempts + 1 → IsDead options now max_attempts_exceeded row')
    × (row.attempts + 1 < options.max_attempts → IsRetried options now row row')

-- An attempt on the row was made: with a tenant that is not valid it is a dead letter, else it is
-- as the handler of its type ended.
abbrev pub Advanced : Options → Registry → (now : ℕ) → List Tenant → OutboxRow → OutboxRow → Type 0
Advanced options handlers now tenants row row' =
    ((reason : InvalidReason)
      → revalidate_job_tenant_context row.organization_id tenants ≡ invalid reason
      → IsDead options now (invalid_tenant reason) row')
    × ((tenant : Tenant)
        → revalidate_job_tenant_context row.organization_id tenants ≡ valid tenant
        → Ends options now row row'
            (resolve handlers row.event_type now (map_outbox_event_to_domain_event row) tenant))

-- the claimed row, as it stands in the queue while it is hidden
abbrev pub IsHidden : OutboxRow → OutboxRow → Type 0
IsHidden row x =
    (x.published_at ≡ none) × (x.attempts ≡ row.attempts) × (x.dispatch_error ≡ row.dispatch_error)

-- published, or with one attempt more that is below the maximum
abbrev pub IsCloser : Options → OutboxRow → OutboxRow → Type 0
IsCloser options row row' =
    (is_some row'.published_at ≡ true)
    ⊎ ((row'.attempts ≡ row.attempts + 1) × (row'.attempts < options.max_attempts))

Ends-IsCloser :
    (options : Options) (now : ℕ) (row row' : OutboxRow) (h : Handled)
    → Ends options now row row' h
    → IsCloser options row row'
Ends-IsCloser options now row row' Handled.succeeded (done, _, _) = inl (rw done refl)
Ends-IsCloser options now row row' (Handled.failed_on_tenant reason) (done, _, _) =
    inl (rw done refl)
Ends-IsCloser options now row row' Handled.failed_with_error (last, more) =
    elim (Bool-cases (leb options.max_attempts (row.attempts + 1))) [
      | inl over ↦ let (done, _, _) = last (ground (arith, over)) in inl (rw done refl)
      | inr below ↦
          let less = leb-false _ _ below in
          let (_, counted, _, _) = more less in inr (counted, omega (arith, counted, less))
    ]

pub Advanced-IsCloser :
    (options : Options) (handlers : Registry) (now : ℕ) (tenants : List Tenant)
    (row row' : OutboxRow)
    → Advanced options handlers now tenants row row'
    → IsCloser options row row'
Advanced-IsCloser options handlers now tenants row row' (dead, ended) =
    go (revalidate_job_tenant_context row.organization_id tenants) refl
  where
    go :
        (answer : Revalidated)
        → revalidate_job_tenant_context row.organization_id tenants ≡ answer
        → IsCloser options row row'
    go (invalid reason) e = let (done, _, _) = dead reason e in inl (rw done refl)
    go (valid tenant) e =
        Ends-IsCloser options now row row'
          (resolve handlers row.event_type now (map_outbox_event_to_domain_event row) tenant)
          (ended tenant e)

attempt_row-valid :
    (handlers : Registry) (now : ℕ) (row : OutboxRow) (queue : Queue) (tenant : Tenant)
    → revalidate_job_tenant_context row.organization_id queue.tenants ≡ valid tenant
    → attempt_row handlers now row queue
      ≡ resolve handlers row.event_type now (map_outbox_event_to_domain_event row) tenant
unfolding attempt_row map_outbox_event_to_domain_event
attempt_row-valid handlers now row queue tenant e = rw (attempt_row, e) refl

attempt_row-invalid :
    (handlers : Registry) (now : ℕ) (row : OutboxRow) (queue : Queue) (reason : InvalidReason)
    → revalidate_job_tenant_context row.organization_id queue.tenants ≡ invalid reason
    → attempt_row handlers now row queue ≡ Handled.failed_on_tenant reason
unfolding attempt_row
attempt_row-invalid handlers now row queue reason e = rw (attempt_row, e) refl

-- The attempt ends as the tenant and the handler answer.
pub attempt_row-Advanced :
    (options : Options) (handlers : Registry) (now : ℕ) (queue : Queue) (row row' : OutboxRow)
    → Ends options now row row' (attempt_row handlers now row queue)
    → Advanced options handlers now queue.tenants row row'
attempt_row-Advanced options handlers now queue row row' ends = (
  λ reason e.
      subst (Ends options now row row') (attempt_row-invalid handlers now row queue reason e) ends,
  λ tenant e.
      subst (Ends options now row row') (attempt_row-valid handlers now row queue tenant e) ends,
)
