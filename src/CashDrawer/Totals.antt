-- ===== src/CashDrawer/Totals.antt =====
-- What closing a till reports: the cash that should be in it.
use shop_os.Common.{
  [], ◌∷◌, refl, ℕ, true, Option, arith, filter, find_first, ◌==◌, ◌&&◌, some, none, ◌-ℤ◌, int,
  Option-cases, sym, ◌∙◌,
}
use shop_os.CashDrawer.Service.{
  close_body, cash_taken_in, totals_of, add_to_totals, is_method, PaymentMethod-discrete,
  method_totals_for_drawer, lands_in, close_cash_drawer,
}
use shop_os.Common.{
  List, ℤ, pos, ◌≡◌, if◌then◌else◌, ◌+ℤ◌, ◌∷◌, int_laws, Bool-cases, inl, inr, refl, ℕ, true,
  Option, arith, filter, find_first, ◌==◌, ◌&&◌, some, none, ◌-ℤ◌, int, Option-cases, sym, ◌∙◌,
}
use shop_os.Db.{Payment, PaymentMethod, cash, CashDrawerSession, Db, Text}
use shop_os.Tenancy.{TenantContext}
use shop_os.Result.{ok, err, cash_drawer_failed, err-ne-ok, session_not_found}

-- what a payment adds to the cash
abbrev cash_part : (m : PaymentMethod) (a : ℤ) → ℤ
cash_part m a = if is_method m cash then a else pos 0

-- the cash payments of a list, added up
abbrev pub cash_of : List Payment → ℤ
cash_of [] = pos 0
cash_of (p ∷ ps) = cash_part p.method p.amount_minor +ℤ cash_of ps

cash_taken_in-from :
    (sum : ℤ) (totals : List (PaymentMethod × ℤ))
    → cash_taken_in sum totals ≡ sum +ℤ cash_taken_in (pos 0) totals
unfolding cash_taken_in
cash_taken_in-from sum [] = omega int_laws
cash_taken_in-from sum ((m, minor) ∷ rest) = elim (Bool-cases (is_method m cash)) [
  | inl counts ↦
      rw (counts, cash_taken_in-from (sum +ℤ minor) rest, cash_taken_in-from (pos 0 +ℤ minor) rest)
        (omega int_laws)
  | inr skips ↦ rw skips (cash_taken_in-from sum rest)
]

cash_taken_in-entry :
    (m : PaymentMethod) (a : ℤ) (rest : List (PaymentMethod × ℤ))
    → cash_taken_in (pos 0) ((m, a) ∷ rest) ≡ cash_part m a +ℤ cash_taken_in (pos 0) rest
unfolding cash_taken_in
cash_taken_in-entry m a rest = elim (Bool-cases (is_method m cash)) [
  | inl counts ↦ rw (counts, cash_taken_in-from (pos 0 +ℤ a) rest) (omega int_laws)
  | inr skips ↦ rw skips (omega int_laws)
]

cash_part-plus :
    (m : PaymentMethod) (a b : ℤ) → cash_part m (a +ℤ b) ≡ cash_part m a +ℤ cash_part m b
cash_part-plus m a b = elim (Bool-cases (is_method m cash)) [
  | inl counts ↦ rw counts refl
  | inr skips ↦ rw skips (omega int_laws)
]

is_method→eq : (n m : PaymentMethod) → is_method n m ≡ true → n ≡ m
unfolding PaymentMethod-discrete
is_method→eq n m h = ground arith

cash_taken_in-add :
    (m : PaymentMethod) (a : ℤ) (totals : List (PaymentMethod × ℤ))
    → cash_taken_in (pos 0) (add_to_totals m a totals)
      ≡ cash_part m a +ℤ cash_taken_in (pos 0) totals
unfolding add_to_totals
cash_taken_in-add m a [] =
    rw (cash_taken_in-entry m (pos 0 +ℤ a) [], cash_part-plus m (pos 0) a, cash_part_zero m)
      (omega int_laws)
  where
    cash_part_zero : (m : PaymentMethod) → cash_part m (pos 0) ≡ pos 0
    cash_part_zero m = elim (Bool-cases (is_method m cash)) [
      | inl counts ↦ rw counts refl
      | inr skips ↦ rw skips refl
    ]
cash_taken_in-add m a ((n, total) ∷ rest) = elim (Bool-cases (is_method n m)) [
  | inl same ↦
      rw
        (
          same,
          is_method→eq n m same,
          cash_taken_in-entry m (total +ℤ a) rest,
          cash_taken_in-entry m total rest,
          cash_part-plus m total a,
        )
        (omega int_laws)
  | inr other ↦
      rw
        (
          other,
          cash_taken_in-entry n total (add_to_totals m a rest),
          cash_taken_in-add m a rest,
          cash_taken_in-entry n total rest,
        )
        (omega int_laws)
]

cash_taken_in-totals :
    (totals : List (PaymentMethod × ℤ)) (ps : List Payment)
    → cash_taken_in (pos 0) (totals_of totals ps) ≡ cash_of ps +ℤ cash_taken_in (pos 0) totals
unfolding totals_of
cash_taken_in-totals totals [] = omega int_laws
cash_taken_in-totals totals (p ∷ ps) =
    rw
      (
        cash_taken_in-totals (add_to_totals p.method p.amount_minor totals) ps,
        cash_taken_in-add p.method p.amount_minor totals,
      )
      (omega int_laws)

-- the payments that a session counts
abbrev pub counted_in : (organization_id : ℕ) → CashDrawerSession → Db → List Payment
counted_in org session db = filter (λ p. p.organization_id == org && lands_in session p) db.payments

close_body_missing :
    (context : TenantContext) (now session_id : ℕ) (counted : ℤ) (remark : Option Text) (db : Db)
    → find_first
        (λ s. s.id == session_id && s.organization_id == context.organization_id)
        db.drawer_sessions
      ≡ none
    → close_body context now session_id counted remark db
      ≡ (err (cash_drawer_failed session_not_found), db)
unfolding close_body
close_body_missing context now session_id counted remark db missing = ground arith

module _ (context : TenantContext) (now session_id : ℕ) (counted : ℤ) (remark : Option Text)
    (db db' : Db) (difference : ℤ) where
  close_body-reports :
      (s : CashDrawerSession)
      → find_first
          (λ s. s.id == session_id && s.organization_id == context.organization_id)
          db.drawer_sessions
        ≡ some s
      → close_body context now session_id counted remark db ≡ (ok difference, db')
      → difference
        ≡ counted
          -ℤ (s.opening_float_minor
              +ℤ cash_taken_in (pos 0) (method_totals_for_drawer context.organization_id s db))
  unfolding close_body
  close_body-reports s found done = ground arith

  close_body-difference :
      (s : CashDrawerSession)
      → find_first
          (λ s. s.id == session_id && s.organization_id == context.organization_id)
          db.drawer_sessions
        ≡ some s
      → close_body context now session_id counted remark db ≡ (ok difference, db')
      → counted
        ≡ s.opening_float_minor +ℤ cash_of (counted_in context.organization_id s db) +ℤ difference
  unfolding method_totals_for_drawer cash_taken_in
  close_body-difference s found done =
      rw
        (
          close_body-reports s found done,
          cash_taken_in-totals [] (counted_in context.organization_id s db),
        )
        (omega int_laws)

-- When closing a till succeeds, there is a session of that id in the caller's organization, and
-- the counted cash is its opening float, plus the cash payments that the session counts, plus the
-- difference that the call returns.
pub close_cash_drawer-difference :
    (context : TenantContext) (now session_id : ℕ) (counted : ℤ) (remark : Option Text)
    (db db' : Db) (difference : ℤ)
    → close_cash_drawer context now session_id (int counted) remark db ≡ (ok difference, db')
    → (s : CashDrawerSession) × (find_first
          (λ s. s.id == session_id && s.organization_id == context.organization_id)
          db.drawer_sessions
        ≡ some s)
      × (counted
          ≡ s.opening_float_minor
            +ℤ cash_of (counted_in context.organization_id s db)
            +ℤ difference)
unfolding close_cash_drawer
close_cash_drawer-difference context now session_id counted remark db db' difference done =
    let inner : close_body context now session_id counted remark db ≡ (ok difference, db') =
      ground arith in
    elim (Option-cases (
      find_first (λ s. s.id == session_id && s.organization_id == context.organization_id)
        db.drawer_sessions)) [
          | inl missing ↦ absurd (
              err-ne-ok
                (sym (close_body_missing context now session_id counted remark db missing) ∙ inner))
          | inr (s, found) ↦ (
            s,
            found,
            close_body-difference context now session_id counted remark db db' difference s found
                inner,
          )
        ]
