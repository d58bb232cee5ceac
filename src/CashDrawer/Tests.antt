-- ===== src/CashDrawer/Tests.antt =====
-- Witness of the totals of a till: 40.00 in cash over a float of 10.00, and 49.50 counted.
use shop_os.Common.{
  refl, find_first, int, pos, ◌==◌, none, ◌&&◌, ◌≡◌, some, ◌+ℤ◌, ◌-ℤ◌, negsuc, true, any, false,
}
use shop_os.Samples.{clerk, paid_desk, desk, usd}
use shop_os.Db.{CashDrawerSession, Db}
use shop_os.CashDrawer.{
  close_cash_drawer, close_body, method_totals_for_drawer, totals_of, add_to_totals, cash_taken_in,
  PaymentMethod-discrete, OpenDrawerInput, open_cash_drawer,
}
use shop_os.Tenancy.{assert_tenant_access, assert_location, Permission-discrete}
use shop_os.CashDrawer.Totals.{cash_of, counted_in, close_cash_drawer-difference}
use shop_os.Result.{ok}
use shop_os.CashDrawer.Exclusive.{IsExclusive, open_cash_drawer-IsExclusive}
use shop_os.CashDrawer.Service.{clashes_with}
use shop_os.CashDrawer.Closing.{close_cash_drawer-frees}

abbrev counted_till : Db
counted_till = (close_cash_drawer clerk 30 4 (int (pos 4_950)) none paid_desk).1

closed_at :
    close_cash_drawer clerk 30 4 (int (pos 4_950)) none paid_desk ≡ (ok (negsuc 49), counted_till)
unfolding close_cash_drawer close_body method_totals_for_drawer totals_of add_to_totals
    cash_taken_in PaymentMethod-discrete ◌+ℤ◌ ◌-ℤ◌ assert_tenant_access assert_location
    Permission-discrete
closed_at = refl

close_cash_drawer-difference_example :
    (s : CashDrawerSession) × (find_first
        (λ s. s.id == 4 && s.organization_id == 1)
        paid_desk.drawer_sessions
      ≡ some s)
    × (pos 4_950 ≡ s.opening_float_minor +ℤ cash_of (counted_in 1 s paid_desk) +ℤ negsuc 49)
close_cash_drawer-difference_example =
    close_cash_drawer-difference clerk 30 4 (pos 4_950) none paid_desk counted_till (negsuc 49)
      closed_at

abbrev shared_till : OpenDrawerInput
shared_till = record {
  location_id = 2;
  currency = usd;
  opening_float_minor = some (int (pos 500));
  note = none;
  label = none;
  shared = true;
}

open_cash_drawer-IsExclusive_example :
    IsExclusive (open_cash_drawer clerk 30 11 shared_till desk).1.drawer_sessions
open_cash_drawer-IsExclusive_example =
    open_cash_drawer-IsExclusive clerk 30 11 desk shared_till (λ _. refl, tt)

close_cash_drawer-frees_example :
    (s : CashDrawerSession) × (find_first
        (λ s. s.id == 4 && s.organization_id == 1)
        paid_desk.drawer_sessions
      ≡ some s)
    × (s.is_open ≡ true)
    × (any (clashes_with s) counted_till.drawer_sessions ≡ false)
    × IsExclusive counted_till.drawer_sessions
close_cash_drawer-frees_example =
    close_cash_drawer-frees clerk 30 4 paid_desk counted_till (negsuc 49) (int (pos 4_950)) none
      (λ _. refl, tt) closed_at
