-- ===== src/Db/Tables.antt =====
-- The log rows that the services append, and a database as a record of tables.
use shop_os.Common.{ℕ, Bool, Option, List, [], ℤ}
use shop_os.Result.{WorkOrderStatus}
use shop_os.Db.Stock.{InventoryItem, InventoryMovement}
use shop_os.Db.Rows.{
  Text, Organization, Location, WorkOrder, Task, EstimateRevision, EstimateLine,
  AuthorizationDecision, Invoice, InvoiceLine, Payment, PaymentMethod, Refund, Deposit,
  CashDrawerSession, Reservation,
}

-- `eventType` and `summary` of an activity event: the values that the summary's text is made of
pub data ActivityKind : Type 0 where
  status_changed : WorkOrderStatus → WorkOrderStatus → ActivityKind
  invoice_created : Text → Text → Bool → ActivityKind
  payment_recorded : ℤ → PaymentMethod → ActivityKind
  payment_refunded : ℤ → PaymentMethod → Bool → ActivityKind
  deposit_recorded : ℤ → PaymentMethod → ActivityKind
  deposit_applied : ℤ → ActivityKind
  -- part number, invoiced quantity, invoice number, quantity on hand, quantity held
  stock_short : Text → ℤ → Text → ℤ → ℤ → ActivityKind
  -- part number, invoiced quantity, invoice number, quantity on hand
  stock_corrected : Text → ℤ → Text → ℤ → ActivityKind
  quality_check_passed : Option Text → ActivityKind
  quality_check_failed : Text → ActivityKind

pub record ActivityEvent : Type 0 where
  pub organization_id : ℕ
  pub location_id : ℕ
  pub work_order_id : ℕ
  pub actor_user_id : ℕ
  pub kind : ActivityKind

-- `action`, `before` and `after` of an audit event
pub data AuditKind : Type 0 where
  status_changed : WorkOrderStatus → WorkOrderStatus → AuditKind
  invoice_issued : AuditKind
  payment_refunded : Option ℤ → ℤ → Bool → AuditKind
  cash_drawer_closed : ℤ → ℤ → ℤ → AuditKind

pub record AuditEvent : Type 0 where
  pub organization_id : ℕ
  pub location_id : Option ℕ
  pub actor_user_id : ℕ
  pub entity_id : ℕ
  pub request_id : ℕ
  pub kind : AuditKind

pub data OutboxKind : Type 0 where
  work_order_closed invoice_issued payment_recorded : OutboxKind

-- `invoice_id` is missing from the payload of a closed work order.
pub record OutboxEvent : Type 0 where
  pub organization_id : ℕ
  pub kind : OutboxKind
  pub aggregate_id : ℕ
  pub invoice_id : Option ℕ
  pub work_order_id : ℕ
  pub location_id : ℕ

pub record Db : Type 0 where
  pub organizations : List Organization
  pub locations : List Location
  pub work_orders : List WorkOrder
  pub tasks : List Task
  pub estimate_revisions : List EstimateRevision
  pub estimate_lines : List EstimateLine
  pub authorization_decisions : List AuthorizationDecision
  pub invoices : List Invoice
  pub invoice_lines : List InvoiceLine
  pub payments : List Payment
  pub refunds : List Refund
  pub deposits : List Deposit
  pub drawer_sessions : List CashDrawerSession
  pub reservations : List Reservation
  pub inventory_items : List InventoryItem
  pub inventory_movements : List InventoryMovement
  pub activity_events : List ActivityEvent
  pub audit_events : List AuditEvent
  pub outbox_events : List OutboxEvent

abbrev pub empty_db : Db
empty_db = record {
  organizations = [];
  locations = [];
  work_orders = [];
  tasks = [];
  estimate_revisions = [];
  estimate_lines = [];
  authorization_decisions = [];
  invoices = [];
  invoice_lines = [];
  payments = [];
  refunds = [];
  deposits = [];
  drawer_sessions = [];
  reservations = [];
  inventory_items = [];
  inventory_movements = [];
  activity_events = [];
  audit_events = [];
  outbox_events = [];
}
