-- ===== src/Lib.antt =====
-- ShopOS: the money, tenancy, work-order, stock and membership core of a shop management system,
-- and its outbox, as a model of its services on the tables of its database.
--
-- A service is a TypeScript function of the tenant's context that checks access, reads rows, writes
-- rows in a transaction, and throws on a broken rule. The model keeps that form: the tables are a
-- record of lists (Db), a call is a function from a database to a result and a database, and a
-- transaction of a call that throws gives the database back as it was. Every handler is written with
-- all its checks in order and all its writes, the log and outbox rows included.
--
-- The parts, and the code that each is about:
--   Money         src/modules/shared/money.ts: lines and totals of estimates in minor units
--   Tenancy       src/modules/tenancy/policy.ts: who may touch which row; every service starts there
--   Machines      the transition tables of src/modules/service-calls/service-call-state-machine.ts
--                 and src/modules/transport/transport-state-machine.ts, and runs of such tables
--   WorkOrders    src/modules/work-orders/work-order-state-machine.ts (Machine, Lifecycle) and
--                 transitionStatus of work-order-service.ts (Service, Transition, Rewriting,
--                 Refusals, Histories), and quality-check-service.ts beside it (Quality, Checked)
--   Db            the rows of prisma/schema.prisma, and calls on a database
--   CashDrawer    src/modules/billing/cash-drawer-service.ts: tills, their totals, their closing
--   Inventory     src/modules/inventory/inventory-service.ts: items, movements, reservations, and what
--                 a new invoice takes from the shelf
--   Stock         what the calls of Inventory keep: the shelf and the movements that account for it
--   Outbox        src/modules/outbox: the queue of events (Queue), the dispatcher (Dispatch), and what
--                 a drain does to it
--   Memberships   role-policy.ts and built-in-role-templates.ts of src/modules/memberships (Roles), and
--                 the calls of membership-service.ts on roles and on active members (Service)
--   Invoices      src/modules/invoices/invoice-service.ts: creation, numbering (Numbering, Series),
--                 issuing, payments, and the stock that a new invoice takes (Stock)
--   Billing       src/modules/billing/refund-service.ts and deposit-service.ts
--   Ledger        what payments, refunds and deposits promise together about an invoice
--   Common        shared helpers: lists, options, signed integers, JavaScript numbers, texts
--   Result        errors, with the reasons that the services give, and results
--   Samples       the data that the tests run on
-- A payment in Invoices asks CashDrawer for the till it lands in, writes its row and the invoice, and
-- closes the work order through WorkOrders when nothing is left to pay; a refund and a deposit in
-- Billing write the same invoice columns. Creating an invoice asks Inventory for the stock on its
-- lines afterwards, and what that throws is dropped. The outbox rows that the services write and the
-- queue that the dispatcher drains are two tables here: the first keeps what the event says, the
-- second how far its delivery is.
--
-- Names are the code's in snake case: recordPayment is record_payment, and its transaction is
-- payment_body. A UUID is a number that is only compared; the ids and the clock readings of a call
-- are its arguments. A bigint is an integer; a JavaScript number is an integer or something else,
-- which every check refuses. A sum of numbers is exact below 2^53 and rounded to the nearest double
-- above it (number_add, exact rounding up to 2^64, which eleven widths of the gap between doubles
-- cover). The one loop on fuel, print_decimal, has as much fuel as the number plus one, and each
-- round takes a digit off. The totals of a till are exact integers, while the code adds doubles.
--
-- Parameters: the payment processor (a function that refunds a charge or refuses); the order of texts
-- in the database's collation, by which invoice numbers are sorted; the text of an invoice number
-- after one from 2^53 on, which doubles round; the handlers of events, of which only the ending
-- counts, the rows that another transaction has locked, and the clocks of a worker and of the
-- database.
--
-- Not modelled: other services (estimates, part orders, invitations, taxes, roadside calls, transport
-- jobs), routes and pages, integrations and notifications; reads that only list rows; free-text notes
-- and the widths of text columns. An Int column of the stock takes 32 bits with a sign, and a write
-- beyond it throws; the other columns are not bounded. Calls run one after the other: what two
-- transactions do to each other is not covered, but for the claims of the outbox, where the rows that
-- others hold are a parameter.
pub mod Common
pub mod Result
pub mod Memberships
pub mod Money
pub mod Outbox
pub mod Tenancy
pub mod Machines
pub mod WorkOrders
pub mod Db
pub mod CashDrawer
pub mod Inventory
pub mod Invoices
pub mod Billing
pub mod Ledger
pub mod Samples
pub mod Stock
