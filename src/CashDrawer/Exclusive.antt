-- ===== src/CashDrawer/Exclusive.antt =====
-- At most one till of an owner, and one shared till, is open at a location.
use shop_os.CashDrawer.{
  clashes_with, closed_session, OpenDrawerInput, open_cash_drawer, new_session, is_invalid_amount,
  close_body, close_cash_drawer, method_totals_for_drawer, cash_taken_in, value_of,
}
use shop_os.Common.{
  [], ◌∷◌, List, ℕ, Bool, ◌≡◌, any, true, ℤ, Option, false, arith, ◌++◌, refl, update_where, ◌==◌,
  Bool-cases, inl, inr, ◌⊎◌, some, Option-cases, find_first, ◌&&◌, holds, Number, ◌+ℤ◌, pos,
}
use shop_os.Db.{CashDrawerSession, PaymentMethod, Text, Db, Action, reject_if, ◌>>◌, transaction}
use shop_os.Tenancy.{TenantContext, assert_tenant_access, payments_record, own_organization}
use shop_os.Result.{Result-cases, Failure, cash_drawer_failed, DrawerReason}
use shop_os.Db.Keeps.{demand-Keeps, reject_if-Keeps, transaction-Keeps}

-- No open session is followed by an open session of the same owner at the same location.
abbrev pub IsExclusive : List CashDrawerSession → Type 0
IsExclusive [] = Unit
IsExclusive (s ∷ ss) = (s.is_open ≡ true → any (clashes_with s) ss ≡ false) × IsExclusive ss

pub clashes_with_sym :
    (s t : CashDrawerSession)
    → s.is_open ≡ true
    → t.is_open ≡ true
    → clashes_with s t ≡ false
    → clashes_with t s ≡ false
clashes_with_sym s t a b h = ground arith

any-append_one :
    (p : CashDrawerSession → Bool) (xs : List CashDrawerSession) (x : CashDrawerSession)
    → any p xs ≡ false
    → p x ≡ false
    → any p (xs ++ (x ∷ [])) ≡ false
any-append_one p [] x h e = ground arith
any-append_one p (y ∷ ys) x h e = ground (arith, any-append_one p ys x)

append-IsExclusive :
    (ss : List CashDrawerSession) (s : CashDrawerSession)
    → s.is_open ≡ true
    → IsExclusive ss
    → any (clashes_with s) ss ≡ false
    → IsExclusive (ss ++ (s ∷ []))
append-IsExclusive [] s is_open u h = (λ _. refl, tt)
append-IsExclusive (t ∷ ts) s is_open (alone, u) h = (
  λ open_too.
      any-append_one (clashes_with t) ts s (alone open_too)
        (clashes_with_sym s t is_open open_too (ground arith)),
  append-IsExclusive ts s is_open u (ground arith),
)

pub any_closed :
    (k : ℕ) (actor now : ℕ) (totals : List (PaymentMethod × ℤ)) (counted expected : ℤ)
    (remark : Option Text) (p : CashDrawerSession) (ss : List CashDrawerSession)
    → any (clashes_with p) ss ≡ false
    → any
        (clashes_with p)
        (update_where (λ s. s.id == k) (closed_session actor now totals counted expected remark) ss)
      ≡ false
any_closed k actor now totals counted expected remark p [] h = refl
any_closed k actor now totals counted expected remark p (s ∷ ss) h =
    ground (arith, any_closed k actor now totals counted expected remark p ss)

close-IsExclusive :
    (k : ℕ) (actor now : ℕ) (totals : List (PaymentMethod × ℤ)) (counted expected : ℤ)
    (remark : Option Text) (ss : List CashDrawerSession)
    → IsExclusive ss
    → IsExclusive
        (update_where (λ s. s.id == k) (closed_session actor now totals counted expected remark) ss)
close-IsExclusive k actor now totals counted expected remark [] u = tt
close-IsExclusive k actor now totals counted expected remark (s ∷ ss) (alone, u) =
    let kept = any_closed k actor now totals counted expected remark s ss in
    (
      elim (Bool-cases (s.id == k)) [
        | inl here ↦ rw here (λ e. cc)
        | inr elsewhere ↦ rw elsewhere (λ e. kept (alone e))
      ],
      close-IsExclusive k actor now totals counted expected remark ss u,
    )

module _ (context : TenantContext) (now session_id : ℕ) (db : Db) where
  open_cash_drawer-writes :
      (input : OpenDrawerInput)
      → let db' = (open_cash_drawer context now session_id input db).1 in
        (db'.drawer_sessions ≡ db.drawer_sessions)
        ⊎ ((any (clashes_with (new_session context now session_id input)) db.drawer_sessions
              ≡ false)
            × (db'.drawer_sessions
                ≡ db.drawer_sessions ++ (new_session context now session_id input ∷ [])))
  unfolding open_cash_drawer
  open_cash_drawer-writes input =
      elim (Result-cases (
        assert_tenant_access context
          (record {
            organization_id = context.organization_id;
            location_id = some input.location_id;
          })
          payments_record)) [
            | inr (e, denied) ↦ inl (ground arith)
            | inl (_, allowed) ↦
                elim (Option-cases (
                  find_first
                    (λ l. l.id == input.location_id && l.organization_id == context.organization_id)
                    db.locations)) [
                      | inl missing ↦ inl (ground arith)
                      | inr (l, found) ↦
                          elim (Bool-cases (
                            any (clashes_with (new_session context now session_id input))
                              db.drawer_sessions)) [
                                | inl clash ↦ inl (ground arith)
                                | inr free ↦
                                    elim (Bool-cases
                                      (holds is_invalid_amount input.opening_float_minor)) [
                                        | inl bad ↦ inl (ground arith)
                                        | inr good ↦ inr (free, ground arith)
                                      ]
                              ]
                    ]
          ]

  -- If no two open sessions have the same organization, location and owner (the shared drawer
  -- counts as one owner), this still holds after a call of openCashDrawer, however the call ends.
  pub open_cash_drawer-IsExclusive :
      (input : OpenDrawerInput)
      → IsExclusive db.drawer_sessions
      → IsExclusive (open_cash_drawer context now session_id input db).1.drawer_sessions
  open_cash_drawer-IsExclusive input u = elim (open_cash_drawer-writes input) [
    | inl same ↦ rw same u
    | inr (free, added) ↦ rw added (
        append-IsExclusive db.drawer_sessions (new_session context now session_id input) refl u
          free)
  ]

  close_body-writes :
      (counted : ℤ) (remark : Option Text)
      → let db' = (close_body context now session_id counted remark db).1 in
        (db'.drawer_sessions ≡ db.drawer_sessions)
        ⊎ ((k : ℕ) × (totals : List (PaymentMethod × ℤ)) × (expected : ℤ) × (db'.drawer_sessions
              ≡ update_where
                  (λ s. s.id == k)
                  (closed_session context.actor_id now totals counted expected remark)
                  db.drawer_sessions))
  unfolding close_body
  close_body-writes counted remark =
      elim (Option-cases (
        find_first (λ s. s.id == session_id && s.organization_id == context.organization_id)
          db.drawer_sessions)) [
            | inl missing ↦ inl (ground arith)
            | inr (s, found) ↦ elim (Bool-cases s.is_open) [
              | inr shut ↦ inl (ground arith)
              | inl still ↦
                  elim (Result-cases (
                    assert_tenant_access context
                      (record {
                        organization_id = context.organization_id;
                        location_id = some s.location_id;
                      })
                      payments_record)) [
                        | inr (e, denied) ↦ inl (ground arith)
                        | inl (_, allowed) ↦ inr (
                          s.id,
                          method_totals_for_drawer context.organization_id s db,
                          s.opening_float_minor
                              +ℤ cash_taken_in (pos 0)
                                  (method_totals_for_drawer context.organization_id s db),
                          ground arith,
                        )
                      ]
            ]
          ]

  close_body-IsExclusive :
      (counted : ℤ) (remark : Option Text)
      → IsExclusive db.drawer_sessions
      → IsExclusive (close_body context now session_id counted remark db).1.drawer_sessions
  close_body-IsExclusive counted remark u = elim (close_body-writes counted remark) [
    | inl same ↦ rw same u
    | inr (k, totals, expected, closed) ↦ rw closed (
        close-IsExclusive k context.actor_id now totals counted expected remark db.drawer_sessions
          u)
  ]

-- If no two open sessions have the same organization, location and owner, this still holds after
-- a call of closeCashDrawer, however the call ends.
pub close_cash_drawer-IsExclusive :
    (context : TenantContext) (now session_id : ℕ) (counted : Number) (remark : Option Text)
    (db : Db)
    → IsExclusive db.drawer_sessions
    → IsExclusive (close_cash_drawer context now session_id counted remark db).1.drawer_sessions
unfolding close_cash_drawer
close_cash_drawer-IsExclusive context now session_id counted remark =
    demand-Keeps Exclusive (assert_tenant_access context (own_organization context) payments_record)
      (reject_if (is_invalid_amount counted) invalid >> transaction body)
      (reject_if-Keeps Exclusive (is_invalid_amount counted) invalid (transaction body) (
        transaction-Keeps Exclusive body (λ db db' d u done.
          let kept = close_body-IsExclusive context now session_id db (value_of counted) remark u in
          rw done at kept)))
  where
    Exclusive : Db → Type 0
    Exclusive db = IsExclusive db.drawer_sessions

    invalid : Failure
    invalid = cash_drawer_failed DrawerReason.invalid_amount

    body : Action ℤ
    body = close_body context now session_id (value_of counted) remark
