-- ===== src/CashDrawer/Closing.antt =====
-- `closeCashDrawer` of cash-drawer-service.ts: what a till that is closed leaves behind.
use shop_os.CashDrawer.{clashes_with, closed_session, close_body, close_cash_drawer}
use shop_os.CashDrawer.Exclusive.{
  IsExclusive, any_closed, clashes_with_sym, close_cash_drawer-IsExclusive,
}
use shop_os.Common.{
  [], ◌∷◌, List, ℕ, Bool, ◌≡◌, any, true, ℤ, Option, false, arith, refl, update_where, ◌==◌,
  Bool-cases, inl, inr, some, Option-cases, find_first, ◌&&◌, Number, ap, if◌then◌else◌, none,
  some-injective, ◌+ℤ◌, sym, pos, ◌∙◌, subst,
}
use shop_os.Db.{CashDrawerSession, PaymentMethod, Text, Db}
use shop_os.Tenancy.{TenantContext}
use shop_os.Result.{ok}
use shop_os.CashDrawer.Service.{method_totals_for_drawer, value_of, cash_taken_in}

any-find_first :
    (p test : CashDrawerSession → Bool) (ss : List CashDrawerSession) (s : CashDrawerSession)
    → any p ss ≡ false
    → find_first test ss ≡ some s
    → p s ≡ false
any-find_first p test [] s none_of found = cc
any-find_first p test (x ∷ xs) s none_of found = elim (Bool-cases (test x)) [
  | inl here ↦ ground (arith, here, found, none_of)
  | inr elsewhere ↦
      any-find_first p test xs s (ground (arith, none_of)) (ground (arith, elsewhere, found))
]

-- a session that does not clash with an open one, seen from the open one
clashes_with-unchanged :
    (s x : CashDrawerSession)
    → s.is_open ≡ true
    → (x.is_open ≡ true → clashes_with x s ≡ false)
    → clashes_with s x ≡ false
clashes_with-unchanged s x is_open apart = elim (Bool-cases x.is_open) [
  | inl open_too ↦ clashes_with_sym x s open_too is_open (apart open_too)
  | inr shut ↦ ground (arith, shut)
]

module _ (actor now : ℕ) (totals : List (PaymentMethod × ℤ)) (counted expected : ℤ)
    (remark : Option Text) (test : CashDrawerSession → Bool) (s : CashDrawerSession)
    (is_open : s.is_open ≡ true) where
  abbrev closed : CashDrawerSession → CashDrawerSession
  closed = closed_session actor now totals counted expected remark

  closed-clashes : (x : CashDrawerSession) → clashes_with s (closed x) ≡ false
  closed-clashes x = ground arith

  updated-clashes :
      (b : Bool) (x : CashDrawerSession)
      → (b ≡ false → clashes_with s x ≡ false)
      → clashes_with s (if b then closed x else x) ≡ false
  updated-clashes true x h = closed-clashes x
  updated-clashes false x h = h refl

  -- Once the only open session of a place and owner is closed, none is open there.
  close-frees :
      (ss : List CashDrawerSession)
      → IsExclusive ss
      → find_first test ss ≡ some s
      → any (clashes_with s) (update_where (λ x. x.id == s.id) closed ss) ≡ false
  close-frees [] u found = refl
  close-frees (x ∷ xs) (alone, u) found = elim (Bool-cases (test x)) [
    | inl here ↦
        let is_x : x ≡ s = some-injective (sym (rw here refl) ∙ found) in
        let others = subst (λ y. y.is_open ≡ true → any (clashes_with y) xs ≡ false) is_x alone in
        rw
          (
            updated-clashes (x.id == s.id) x (λ e. absurd (differ is_x e)),
            any_closed s.id actor now totals counted expected remark s xs (others is_open),
          )
          refl
    | inr elsewhere ↦
        let found' : find_first test xs ≡ some s = ground (arith, elsewhere, found) in
        let apart =
          clashes_with-unchanged s x is_open
            (λ open_too. any-find_first (clashes_with x) test xs s (alone open_too) found') in
        rw (updated-clashes (x.id == s.id) x (λ _. apart), close-frees xs u found') refl
  ]
    where
      differ : {y : CashDrawerSession} → y ≡ s → ¬ ((y.id == s.id) ≡ false)
      differ same e = ground (arith, ap (λ t. t.id) same, e)

module _ (context : TenantContext) (now session_id : ℕ) (db db' : Db) (difference : ℤ) where
  abbrev is_named : CashDrawerSession → Bool
  is_named s = s.id == session_id && s.organization_id == context.organization_id

  close_body_ok :
      (counted : ℤ) (remark : Option Text) (s : CashDrawerSession)
      → find_first is_named db.drawer_sessions ≡ some s
      → close_body context now session_id counted remark db ≡ (ok difference, db')
      → let totals = method_totals_for_drawer context.organization_id s db in
        let expected = s.opening_float_minor +ℤ cash_taken_in (pos 0) totals in
        (s.is_open ≡ true)
        × (db'.drawer_sessions
            ≡ update_where
                (λ x. x.id == s.id)
                (closed_session context.actor_id now totals counted expected remark)
                db.drawer_sessions)
  unfolding close_body
  close_body_ok counted remark s found done = (ground arith, ground arith)

  close_body_missing :
      (counted : ℤ) (remark : Option Text)
      → find_first is_named db.drawer_sessions ≡ none
      → ¬ (close_body context now session_id counted remark db ≡ (ok difference, db'))
  unfolding close_body
  close_body_missing counted remark missing done = ground arith

  -- If no two open sessions have the same organization, location and owner (the shared drawer
  -- counts as one owner), and a call of closeCashDrawer succeeds, then there was an open session
  -- of that id in the caller's organization, afterwards no session of its organization, location
  -- and owner is open, and still no two open sessions have the same.
  pub close_cash_drawer-frees :
      (counted : Number) (remark : Option Text)
      → IsExclusive db.drawer_sessions
      → close_cash_drawer context now session_id counted remark db ≡ (ok difference, db')
      → (s : CashDrawerSession) × (find_first
            (λ s. s.id == session_id && s.organization_id == context.organization_id)
            db.drawer_sessions
          ≡ some s)
        × (s.is_open ≡ true)
        × (any (clashes_with s) db'.drawer_sessions ≡ false)
        × IsExclusive db'.drawer_sessions
  unfolding close_cash_drawer
  close_cash_drawer-frees counted remark u done =
      let body : close_body context now session_id (value_of counted) remark db
          ≡ (ok difference, db') =
        ground arith in
      let kept = close_cash_drawer-IsExclusive context now session_id counted remark db u in
      elim (Option-cases (find_first is_named db.drawer_sessions)) [
        | inl missing ↦ absurd (close_body_missing (value_of counted) remark missing body)
        | inr (s, found) ↦
            let (is_open, wrote) = close_body_ok (value_of counted) remark s found body in
            let totals = method_totals_for_drawer context.organization_id s db in
            let expected = s.opening_float_minor +ℤ cash_taken_in (pos 0) totals in
            (
              s,
              found,
              is_open,
              rw wrote (
                  close-frees context.actor_id now totals (value_of counted) expected remark
                    is_named s is_open db.drawer_sessions u found),
              subst (λ q. IsExclusive q.1.drawer_sessions) done kept,
            )
      ]
