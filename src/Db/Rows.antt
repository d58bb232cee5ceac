-- ===== src/Db/Rows.antt =====
-- The rows of prisma/schema.prisma. A UUID is only compared, so it is a number; a timestamp is a
-- number of milliseconds; a text is the list of its code units. Columns that no modelled code reads
-- or writes are left out, and so are the random ids of the log rows.
use shop_os.Common.{ℕ, Bool, Option, List, ℤ}
use shop_os.Result.{WorkOrderStatus}
use shop_os.Money.{PricedLineKind}

abbrev pub Text : Type 0
Text = List ℕ

pub record Organization : Type 0 where
  pub id : ℕ
  pub all_lines_policy : Bool  -- `invoiceLinePolicy` is ALL_LINES
  pub default_warranty_months : Option ℕ
  pub default_warranty_miles : Option ℕ
  pub invoice_number_prefix : Text
  pub quality_check_required : Bool
  pub auto_issue_stock_on_invoice : Bool

pub record Location : Type 0 where
  pub id : ℕ
  pub organization_id : ℕ
  pub invoice_number_prefix : Option Text

pub record WorkOrder : Type 0 where
  pub id : ℕ
  pub organization_id : ℕ
  pub location_id : ℕ
  pub number : Text
  pub status : WorkOrderStatus
  pub qc_passed : Bool  -- `qcStatus` is "passed"; the other values are "pending" and "failed"
  pub qc_note : Option Text
  pub qc_passed_by_user_id : Option ℕ
  pub qc_passed_at : Option ℕ
  pub completed_at : Option ℕ

pub data TaskStatus : Type 0 where
  open_task done_task needs_attention skipped : TaskStatus

pub record Task : Type 0 where
  pub organization_id : ℕ
  pub work_order_id : ℕ
  pub status : TaskStatus

pub data DocumentKind : Type 0 where
  baseline change_order : DocumentKind

pub data RevisionStatus : Type 0 where
  draft presented superseded expired voided : RevisionStatus

pub record EstimateRevision : Type 0 where
  pub id : ℕ
  pub organization_id : ℕ
  pub work_order_id : ℕ
  pub document_kind : DocumentKind
  pub status : RevisionStatus
  pub revision_number : ℕ
  pub change_order_number : ℕ
  pub currency : Text
  pub tax_inclusive : Bool

-- What an invoice line copies from an estimate line.
pub record LineContent : Type 0 where
  pub kind : PricedLineKind
  pub description : Text
  pub quantity_milli : ℕ
  pub unit_price_minor : ℤ
  pub gross_minor : ℤ
  pub discount_minor : ℤ
  pub taxable : Bool
  pub tax_rate_basis_points : ℕ
  pub tax_minor : ℤ
  pub tax_inclusive : Bool
  pub tax_components : Text
  pub total_minor : ℤ
  pub inventory_item_id : Option ℕ

pub record EstimateLine : Type 0 where
  pub id : ℕ
  pub organization_id : ℕ
  pub estimate_revision_id : ℕ
  pub content : LineContent
  pub position : ℕ
  pub authorization_required : Bool

pub data Decision : Type 0 where
  approved declined : Decision

pub record AuthorizationDecision : Type 0 where
  pub organization_id : ℕ
  pub estimate_line_id : ℕ
  pub decision : Decision

pub data InvoiceStatus : Type 0 where
  draft issued partially_paid paid void : InvoiceStatus

pub record Invoice : Type 0 where
  pub id : ℕ
  pub organization_id : ℕ
  pub location_id : ℕ
  pub work_order_id : ℕ
  pub number : Text
  pub status : InvoiceStatus
  pub currency : Text
  pub subtotal_minor : ℤ
  pub discount_minor : ℤ
  pub tax_minor : ℤ
  pub tax_inclusive : Bool
  pub total_minor : ℤ
  pub paid_minor : ℤ
  pub issued_at : Option ℕ
  pub warranty_months : Option ℕ
  pub warranty_miles : Option ℕ

-- The id of a line is a random UUID; its invoice and position say which line it is.
pub record InvoiceLine : Type 0 where
  pub organization_id : ℕ
  pub invoice_id : ℕ
  pub source_estimate_line_id : ℕ
  pub content : LineContent
  pub position : ℕ

pub data PaymentMethod : Type 0 where
  cash card_external check bank_transfer other : PaymentMethod

pub record Payment : Type 0 where
  pub id : ℕ
  pub organization_id : ℕ
  pub location_id : ℕ
  pub invoice_id : Option ℕ
  pub amount_minor : ℤ
  pub currency : Text
  pub method : PaymentMethod
  pub reference : Option Text
  pub processor_charge_id : Option Text
  pub drawer_session_id : Option ℕ
  pub received_at : ℕ
  pub recorded_by_user_id : ℕ

pub record Refund : Type 0 where
  pub id : ℕ
  pub organization_id : ℕ
  pub location_id : ℕ
  pub invoice_id : Option ℕ
  pub payment_id : ℕ
  pub amount_minor : ℤ
  pub currency : Text
  pub reason : Option Text
  pub provider_ref : Option Text
  pub refunded_at : ℕ
  pub recorded_by_user_id : ℕ

pub record Deposit : Type 0 where
  pub id : ℕ
  pub organization_id : ℕ
  pub location_id : ℕ
  pub work_order_id : ℕ
  pub amount_minor : ℤ
  pub currency : Text
  pub method : PaymentMethod
  pub reference : Option Text
  pub received_at : ℕ
  pub recorded_by_user_id : ℕ
  pub note : Option Text
  pub applied_invoice_id : Option ℕ
  pub applied_at : Option ℕ

pub record CashDrawerSession : Type 0 where
  pub id : ℕ
  pub organization_id : ℕ
  pub location_id : ℕ
  pub currency : Text
  pub opening_float_minor : ℤ
  pub is_open : Bool  -- `status` is "open"; the other value is "closed"
  pub owner_user_id : Option ℕ
  pub label : Option Text
  pub method_totals : List (PaymentMethod × ℤ)
  pub counted_cash_minor : Option ℤ
  pub expected_cash_minor : Option ℤ
  pub over_short_minor : Option ℤ
  pub opened_by_user_id : ℕ
  pub opened_at : ℕ
  pub closed_by_user_id : Option ℕ
  pub closed_at : Option ℕ
  pub note : Option Text

pub data ReservationStatus : Type 0 where
  active released consumed : ReservationStatus

-- The rows of a list stand in the order of `createdAt`.
pub record Reservation : Type 0 where
  pub id : ℕ
  pub organization_id : ℕ
  pub inventory_item_id : ℕ
  pub work_order_id : ℕ
  pub estimate_line_id : Option ℕ
  pub quantity : ℤ
  pub status : ReservationStatus
  pub created_by_id : Option ℕ
  pub released_at : Option ℕ
  pub consumed_at : Option ℕ
