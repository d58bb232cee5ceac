-- ===== src/CashDrawer/Service.antt =====
-- src/modules/billing/cash-drawer-service.ts: tills are opened, payments land in one, and a till is
-- closed against the cash that was counted.
use shop_os.Common.{
  ℕ, Bool, true, false, not, ◌&&◌, ◌||◌, Option, none, some, List, [], ◌∷◌, ◌++◌, ◌==◌, leb,
  if◌then◌else◌, any, filter, or_else, or_default, holds, find_first, update_where, same_id,
  is_some, is_yes, ℤ, pos, ◌+ℤ◌, ◌-ℤ◌, ltb_ℤ, Number, int, other, is_safe_integer,
}
use shop_os.Common.Text.{same_text, trim, to_upper_case, truthy}
use shop_os.Result.{
  cash_drawer_failed, drawer_already_open, session_not_found, session_not_open, location_not_found,
  unique_violation,
}
use shop_os.Result
use mathlib.Core.Option
use shop_os.Tenancy.{TenantContext, payments_record, assert_tenant_access, own_organization}
use shop_os.Db.{
  Text, Db, Payment, PaymentMethod, cash, CashDrawerSession, AuditKind, Action, pure, query, demand,
  or_throw, ◌>>=◌, ◌>>◌, modify, reject_if, transaction, log_audit,
}

unfoldable pub PaymentMethod-discrete : Discrete PaymentMethod
PaymentMethod-discrete = hlevel

abbrev pub is_method : PaymentMethod → PaymentMethod → Bool
is_method m n = is_yes (PaymentMethod-discrete m n)

-- The where clause of `methodTotalsForDrawer`: the payments stamped with the session and, for the
-- shared drawer, those of its window that carry no stamp.
abbrev pub lands_in : CashDrawerSession → Payment → Bool
lands_in session p =
    same_id p.drawer_session_id (some session.id)
    || (not (is_some session.owner_user_id)
        && not (is_some p.drawer_session_id)
        && p.location_id == session.location_id
        && same_text p.currency session.currency
        && leb session.opened_at p.received_at)

-- `totals[method] = (totals[method] ?? 0) + amount`
unfoldable pub add_to_totals :
    PaymentMethod → ℤ → List (PaymentMethod × ℤ) → List (PaymentMethod × ℤ)
add_to_totals m amount [] = (m, pos 0 +ℤ amount) ∷ []
add_to_totals m amount ((n, total) ∷ rest) =
    if is_method n m then (n, total +ℤ amount) ∷ rest else (n, total) ∷ add_to_totals m amount rest

unfoldable pub totals_of : List (PaymentMethod × ℤ) → List Payment → List (PaymentMethod × ℤ)
totals_of totals [] = totals
totals_of totals (p ∷ ps) = totals_of (add_to_totals p.method p.amount_minor totals) ps

unfoldable pub method_totals_for_drawer :
    (organization_id : ℕ) → CashDrawerSession → Db → List (PaymentMethod × ℤ)
method_totals_for_drawer org session db =
    totals_of [] (filter (λ p. p.organization_id == org && lands_in session p) db.payments)

-- the entries of the methods that count as cash, summed
unfoldable pub cash_taken_in : ℤ → List (PaymentMethod × ℤ) → ℤ
cash_taken_in sum [] = sum
cash_taken_in sum ((m, minor) ∷ rest) =
    cash_taken_in (if is_method m cash then sum +ℤ minor else sum) rest

abbrev pub open_at : (organization_id location_id : ℕ) → Option ℕ → CashDrawerSession → Bool
open_at org location owner s =
    s.organization_id == org
    && s.location_id == location
    && s.is_open
    && same_id s.owner_user_id owner

-- The drawer of a new payment: the recorder's own open till at the location, else the shared one.
unfoldable pub resolve_drawer_for_payment :
    (organization_id location_id : ℕ) → (actor_user_id : Option ℕ) → Db → Option ℕ
resolve_drawer_for_payment org location actor db =
    let session_id = λ (s : CashDrawerSession). s.id in
    let shared =
      Option.map session_id (find_first (open_at org location none) db.drawer_sessions) in
    elim actor [
      | none ↦ shared
      | some user ↦
          or_else
            (Option.map session_id
              (find_first (open_at org location (some user)) db.drawer_sessions))
            shared
    ]

-- `!Number.isSafeInteger(x) || x < 0`
abbrev pub is_invalid_amount : Number → Bool
is_invalid_amount other = true
is_invalid_amount (int z) = not (is_safe_integer (int z)) || ltb_ℤ z (pos 0)

abbrev pub value_of : Number → ℤ
value_of other = pos 0
value_of (int z) = z

-- the partial unique indexes of prisma/migrations/20260824090000_dynamic_drawers
abbrev pub clashes_with : CashDrawerSession → CashDrawerSession → Bool
clashes_with s t = open_at s.organization_id s.location_id s.owner_user_id t

pub record OpenDrawerInput : Type 0 where
  pub location_id : ℕ
  pub currency : Text
  pub opening_float_minor : Option Number
  pub note : Option Text
  pub label : Option Text
  pub shared : Bool

-- the row of a new session
abbrev pub new_session : TenantContext → (now session_id : ℕ) → OpenDrawerInput → CashDrawerSession
new_session context now session_id input = record {
  id = session_id;
  organization_id = context.organization_id;
  location_id = input.location_id;
  currency = to_upper_case (trim input.currency);
  opening_float_minor = or_default (Option.map value_of input.opening_float_minor) (pos 0);
  is_open = true;
  owner_user_id = if input.shared then none else some context.actor_id;
  label = Option.map trim (truthy input.label);
  method_totals = [];
  counted_cash_minor = none;
  expected_cash_minor = none;
  over_short_minor = none;
  opened_by_user_id = context.actor_id;
  opened_at = now;
  closed_by_user_id = none;
  closed_at = none;
  note = Option.map trim (truthy input.note);
}

unfoldable pub open_cash_drawer : TenantContext → (now session_id : ℕ) → OpenDrawerInput → Action ℕ
open_cash_drawer context now session_id input = do
  demand (
      assert_tenant_access context
        (record { organization_id = context.organization_id; location_id = some input.location_id })
        payments_record)
  reject_if (holds is_invalid_amount input.opening_float_minor)
      (cash_drawer_failed Result.DrawerReason.invalid_amount)
  transaction (do
    found ← query (λ db.
        find_first (λ l. l.id == input.location_id && l.organization_id == context.organization_id)
          db.locations)
    or_throw found (cash_drawer_failed location_not_found)
    let session = new_session context now session_id input
    existing ← query (λ db. any (clashes_with session) db.drawer_sessions)
    reject_if existing (cash_drawer_failed drawer_already_open)
    modify (λ db. record db { drawer_sessions = db.drawer_sessions ++ (session ∷ []) })
    pure session.id)

abbrev pub closed_session :
    (actor now : ℕ)
    → (totals : List (PaymentMethod × ℤ)) → (counted expected : ℤ) → Option Text
    → CashDrawerSession
    → CashDrawerSession
closed_session actor now totals counted expected note s = record s {
  is_open = false;
  method_totals = totals;
  counted_cash_minor = some counted;
  expected_cash_minor = some expected;
  over_short_minor = some (counted -ℤ expected);
  closed_by_user_id = some actor;
  closed_at = some now;
  note = or_else (Option.map trim (truthy note)) s.note;
}

unfoldable pub close_body :
    TenantContext → (now session_id : ℕ) → (counted : ℤ) → Option Text → Action ℤ
close_body context now session_id counted note = do
  found ← query (λ db.
      find_first (λ s. s.id == session_id && s.organization_id == context.organization_id)
        db.drawer_sessions)
  session ← or_throw found (cash_drawer_failed session_not_found)
  reject_if (not session.is_open) (cash_drawer_failed session_not_open)
  demand (
      assert_tenant_access context
        (record {
          organization_id = context.organization_id;
          location_id = some session.location_id;
        })
        payments_record)
  totals ← query (method_totals_for_drawer context.organization_id session)
  let expected = session.opening_float_minor +ℤ cash_taken_in (pos 0) totals
  modify (λ db. record db {
    drawer_sessions =
        update_where (λ s. s.id == session.id)
          (closed_session context.actor_id now totals counted expected note) db.drawer_sessions;
  })
  log_audit (record {
    organization_id = context.organization_id;
    location_id = some session.location_id;
    actor_user_id = context.actor_id;
    entity_id = session.id;
    request_id = context.request_id;
    kind = AuditKind.cash_drawer_closed counted expected (counted -ℤ expected);
  })
  pure (counted -ℤ expected)

unfoldable pub close_cash_drawer :
    TenantContext → (now session_id : ℕ) → (counted : Number) → Option Text → Action ℤ
close_cash_drawer context now session_id counted note = do
  demand (assert_tenant_access context (own_organization context) payments_record)
  reject_if (is_invalid_amount counted) (cash_drawer_failed Result.DrawerReason.invalid_amount)
  transaction (close_body context now session_id (value_of counted) note)
