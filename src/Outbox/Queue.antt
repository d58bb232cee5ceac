-- ===== src/Outbox/Queue.antt =====
-- The rows of the queue and the registry of handlers: map-outbox-event.ts, job-tenant-context.ts and
-- event-handler.ts. What a handler does is not part of the model, only how it ends.
use shop_os.Common.{ℕ, Option, none, some, List, [], ◌∷◌, find_first, ◌==◌, if◌then◌else◌}
use shop_os.Common.Text.{same_text}
use shop_os.Db.{Text}

-- a JSON value by its text: a plain object, or an array, a string, a number, a Boolean or null
pub data Payload : Type 0 where
  plain_object other_value : Text → Payload

pub data OrganizationStatus : Type 0 where
  provisioning active suspended closed : OrganizationStatus

pub data InvalidReason : Type 0 where
  organization_not_found organization_suspended : InvalidReason

-- the `dispatchError` that dead-lettering writes into the payload
pub data DispatchError : Type 0 where
  invalid_tenant : InvalidReason → DispatchError
  max_attempts_exceeded : DispatchError

-- `dispatch_error` is a column of its own here.
pub record OutboxRow : Type 0 where
  pub id : ℕ
  pub organization_id : ℕ
  pub event_type : Text
  pub aggregate_type : Text
  pub aggregate_id : ℕ
  pub payload : Payload
  pub dispatch_error : Option DispatchError
  pub occurred_at : ℕ
  pub available_at : ℕ
  pub published_at : Option ℕ
  pub attempts : ℕ

pub record Tenant : Type 0 where
  pub id : ℕ
  pub status : OrganizationStatus

pub record Queue : Type 0 where
  pub rows : List OutboxRow
  pub tenants : List Tenant

pub record DomainEvent : Type 0 where
  pub id : ℕ
  pub event_type : Text
  pub organization_id : ℕ
  pub aggregate_type : Text
  pub aggregate_id : ℕ
  pub occurred_at : ℕ
  pub content : Payload

-- "{}"
abbrev pub empty_object : Payload
empty_object = plain_object (123 ∷ 125 ∷ [])

abbrev pub content_of : Payload → Payload
content_of (plain_object t) = plain_object t
content_of (other_value _) = empty_object

unfoldable pub map_outbox_event_to_domain_event : OutboxRow → DomainEvent
map_outbox_event_to_domain_event row = record {
  id = row.id;
  event_type = row.event_type;
  organization_id = row.organization_id;
  aggregate_type = row.aggregate_type;
  aggregate_id = row.aggregate_id;
  occurred_at = row.occurred_at;
  content = content_of row.payload;
}

-- how a handler ends
pub data Handled : Type 0 where
  succeeded failed_with_error : Handled
  failed_on_tenant : InvalidReason → Handled

-- what a handler is given: the time, the event and the organization
abbrev pub Handler : Type 0
Handler = ℕ → DomainEvent → Tenant → Handled

-- `EventHandlerRegistry`: a later registration of a type is found first
abbrev pub Registry : Type 0
Registry = List (Text × Handler)

abbrev pub register : Text → Handler → Registry → Registry
register t h r = (t, h) ∷ r

abbrev pub no_op_handler : Handler
no_op_handler _ _ _ = succeeded

unfoldable pub resolve : Registry → Text → Handler
resolve [] t = no_op_handler
resolve ((u, h) ∷ r) t = if same_text u t then h else resolve r t

pub data Revalidated : Type 0 where
  valid : Tenant → Revalidated
  invalid : InvalidReason → Revalidated

abbrev pub check_status : Tenant → Revalidated
check_status t = elim t.status [ suspended ↦ invalid organization_suspended | _ ↦ valid t ]

unfoldable pub revalidate_job_tenant_context : (organization_id : ℕ) → List Tenant → Revalidated
revalidate_job_tenant_context org tenants = elim (find_first (λ t. t.id == org) tenants) [
  | none ↦ invalid organization_not_found
  | some t ↦ check_status t
]
