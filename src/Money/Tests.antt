-- ===== src/Money/Tests.antt =====
-- Runs of the money kernel.
use shop_os.Common.{
  ◌≡◌, refl, true, none, pos, negsuc, ◌+ℤ◌, ◌-ℤ◌, ◌*ℤ◌, int, number_add, ◌*◌, ◌≤ℤ◌, magnitude, ◌∷◌,
  ◌≤◌, [], arith, ◌<◌, All,
}
use shop_os.Result.{ok}
use shop_os.Money.Defs.{
  PricedLineInput, part, approved, calculate_line, line_tax, rounded_ratio, ratio_rounded, safe_add,
  assert_safe_integer, assert_non_negative_safe_integer, CalculatedLine, Totals, calculate_estimate,
  finish_line, calculate_lines, add_lines, add_line,
}
use shop_os.Money.Rounding.{minus, negated, ratio_rounded-minus, rounded_ratio_nearest}
use shop_os.Money.Line.{IsPriced, calculate_line-IsPriced, line_tax_bounds}
use shop_os.Money.Totals.{
  calculate_estimate-sums, calculate_estimate_balances, sum_of, approved_part,
}

-- 2.5 units at 9.99 with 8.25 % tax on top
abbrev part_line : PricedLineInput
part_line = record {
  id = 1;
  kind = part;
  quantity_milli = int (pos 2500);
  unit_price_minor = int (pos 999);
  discount_minor = int (pos 98);
  taxable = true;
  tax_rate_basis_points = int (pos 825);
  authorization = approved;
  tax_mode = none;
}

line_at :
    calculate_line part_line
    ≡ ok (record {
      input = part_line;
      discount_minor = pos 98;
      gross_minor = pos 2498;
      net_minor = pos 2400;
      tax_minor = pos 198;
      total_minor = pos 2598;
    })
unfolding calculate_line finish_line line_tax ratio_rounded rounded_ratio safe_add
    assert_safe_integer assert_non_negative_safe_integer ◌+ℤ◌ ◌-ℤ◌ ◌*ℤ◌
line_at = refl

half_cent_credit : rounded_ratio (negsuc 1499) 1000 ≡ negsuc 1
unfolding rounded_ratio ◌+ℤ◌
half_cent_credit = refl

vat_at : line_tax true true (pos 12000) (pos 2000) ≡ ok (pos 2000)
unfolding line_tax ratio_rounded rounded_ratio assert_safe_integer ◌+ℤ◌ ◌-ℤ◌ ◌*ℤ◌ number_add
vat_at = refl

abbrev part_priced : CalculatedLine
part_priced = record {
  input = part_line;
  discount_minor = pos 98;
  gross_minor = pos 2498;
  net_minor = pos 2400;
  tax_minor = pos 198;
  total_minor = pos 2598;
}

rounded_ratio_nearest_example :
    let distance = magnitude (rounded_ratio (negsuc 1499) 1000 *ℤ pos 1000 -ℤ negsuc 1499) in
    (2 * distance ≤ 1000)
    × (2 * distance ≡ 1000
        → magnitude (negsuc 1499) < magnitude (rounded_ratio (negsuc 1499) 1000 *ℤ pos 1000))
rounded_ratio_nearest_example = rounded_ratio_nearest (negsuc 1499) 1000 (omega arith)

ratio_rounded-minus_example :
    ratio_rounded (minus (pos 1500)) 1000 ≡ negated (ratio_rounded (pos 1500) 1000)
ratio_rounded-minus_example = ratio_rounded-minus (pos 1500) 1000 (omega arith)

line_tax_bounds_example : (pos 0 ≤ℤ pos 2000) × (true ≡ true → pos 2000 ≤ℤ pos 12000)
line_tax_bounds_example = line_tax_bounds true 12000 2000 (pos 2000) vat_at

calculate_line-IsPriced_example : IsPriced part_priced
calculate_line-IsPriced_example = calculate_line-IsPriced part_line part_priced line_at

abbrev part_totals : Totals
part_totals = record {
  subtotal_minor = pos 2498;
  discount_minor = pos 98;
  tax_minor = pos 198;
  total_minor = pos 2598;
  approved_total_minor = pos 2598;
}

estimate_at : calculate_estimate (part_line ∷ []) ≡ ok (part_priced ∷ [], part_totals)
unfolding calculate_estimate calculate_lines add_lines add_line calculate_line finish_line line_tax
    ratio_rounded rounded_ratio safe_add assert_safe_integer assert_non_negative_safe_integer ◌+ℤ◌
    ◌-ℤ◌ ◌*ℤ◌
estimate_at = refl

calculate_estimate-sums_example :
    All IsPriced (part_priced ∷ [])
    × (part_totals.subtotal_minor ≡ sum_of (λ line. line.gross_minor) (part_priced ∷ []))
    × (part_totals.discount_minor ≡ sum_of (λ line. line.discount_minor) (part_priced ∷ []))
    × (part_totals.tax_minor ≡ sum_of (λ line. line.tax_minor) (part_priced ∷ []))
    × (part_totals.total_minor ≡ sum_of (λ line. line.total_minor) (part_priced ∷ []))
    × (part_totals.approved_total_minor ≡ sum_of approved_part (part_priced ∷ []))
calculate_estimate-sums_example =
    calculate_estimate-sums (part_line ∷ []) (part_priced ∷ []) part_totals estimate_at

calculate_estimate_balances_example :
    part_totals.total_minor
    ≡ part_totals.subtotal_minor -ℤ part_totals.discount_minor +ℤ part_totals.tax_minor
calculate_estimate_balances_example =
    calculate_estimate_balances (part_line ∷ []) (part_priced ∷ []) part_totals estimate_at
      (refl, tt)
