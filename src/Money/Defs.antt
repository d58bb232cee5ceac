-- ===== src/Money/Defs.antt =====
-- Definitions of src/modules/shared/money.ts.
use shop_os.Common.{
  ℕ, zero, suc, ◌*◌, ◌/◌, ◌%◌, Bool, true, false, ◌&&◌, Option, List, [], ◌∷◌, leb, if◌then◌else◌,
  or_default, ℤ, pos, negsuc, ◌+ℤ◌, ◌-ℤ◌, ◌*ℤ◌, ltb_ℤ, leb_ℤ, pos_part, neg_part, Number, int,
  other, is_safe_integer, number_add,
}
use shop_os.Result.{
  Result, ok, err, ◌>>=◌, ◌>>◌, throw_if, money_error, negative_value, unsafe_integer,
  discount_on_credit, discount_exceeds_line,
}

pub data PricedLineKind : Type 0 where
  labor part fee : PricedLineKind

pub data AuthorizationState : Type 0 where
  pending approved declined not_required : AuthorizationState

pub data TaxMode : Type 0 where
  exclusive inclusive : TaxMode

-- `PricedLineInput`, with the optional `taxMode` that `calculateLine` also reads
pub record PricedLineInput : Type 0 where
  pub id : ℕ
  pub kind : PricedLineKind
  pub quantity_milli : Number
  pub unit_price_minor : Number
  pub discount_minor : Number
  pub taxable : Bool
  pub tax_rate_basis_points : Number
  pub authorization : AuthorizationState
  pub tax_mode : Option TaxMode

-- `CalculatedLine`; its discount is the checked one of the input
pub record CalculatedLine : Type 0 where
  pub input : PricedLineInput
  pub discount_minor : ℤ
  pub gross_minor : ℤ
  pub net_minor : ℤ
  pub tax_minor : ℤ
  pub total_minor : ℤ

-- the running totals of `calculateEstimate`
pub record Totals : Type 0 where
  pub subtotal_minor : ℤ
  pub discount_minor : ℤ
  pub tax_minor : ℤ
  pub total_minor : ℤ
  pub approved_total_minor : ℤ

unfoldable pub assert_safe_integer : Number → Result ℤ
assert_safe_integer other = err (money_error unsafe_integer)
assert_safe_integer (int z) =
    if is_safe_integer (int z) then ok z else err (money_error unsafe_integer)

unfoldable pub assert_non_negative_safe_integer : Number → Result ℤ
assert_non_negative_safe_integer value = do
  z ← assert_safe_integer value
  throw_if (ltb_ℤ z (pos 0)) (money_error negative_value)
  ok z

-- the sum of two safe integers; a sum that is not exact is not safe either
unfoldable pub safe_add : ℤ → ℤ → Result ℤ
safe_add left right = assert_safe_integer (int (left +ℤ right))

-- `-n`
abbrev pub negate : ℕ → ℤ
negate zero = pos 0
negate (suc n) = negsuc n

-- `/` and `%` on `bigint` cut toward zero; every divisor of the kernel is positive.
abbrev pub quotient : ℤ → ℕ → ℤ
quotient (pos n) d = pos (n / d)
quotient (negsuc n) d = negate (suc n / d)

abbrev pub remainder : ℤ → ℕ → ℤ
remainder (pos n) d = pos (n % d)
remainder (negsuc n) d = negate (suc n % d)

-- the value of `rounded` in `ratioRounded`
unfoldable pub rounded_ratio : ℤ → ℕ → ℤ
rounded_ratio numerator denominator =
    let rest = remainder numerator denominator in
    let absolute_remainder = if ltb_ℤ rest (pos 0) then neg_part rest else pos_part rest in
    let direction = if ltb_ℤ numerator (pos 0) then negsuc 0 else pos 1 in
    if leb denominator (absolute_remainder * 2)
    then quotient numerator denominator +ℤ direction
    else quotient numerator denominator

unfoldable pub ratio_rounded : ℤ → ℕ → Result ℤ
ratio_rounded numerator denominator =
    assert_safe_integer (int (rounded_ratio numerator denominator))

abbrev pub is_inclusive : PricedLineInput → Bool
is_inclusive input =
    elim (or_default input.tax_mode exclusive) [ inclusive ↦ true | exclusive ↦ false ]
    && input.taxable

-- The tax on a net amount, at a checked rate. `10_000 + rate` is a sum of doubles.
unfoldable pub line_tax : Bool → Bool → ℤ → ℤ → Result ℤ
line_tax false inclusive_price net rate = ok (pos 0)
line_tax true true net rate = do
  back ← ratio_rounded (net *ℤ pos 10_000) (number_add 10_000 (pos_part rate))
  ok (net -ℤ back)
line_tax true false net rate = ratio_rounded (net *ℤ rate) 10_000

-- `calculateLine` from the gross amount on, with its checked inputs
unfoldable pub finish_line : PricedLineInput → (discount rate gross : ℤ) → Result CalculatedLine
finish_line input discount rate gross = do
  throw_if (ltb_ℤ gross (pos 0) && ltb_ℤ (pos 0) discount) (money_error discount_on_credit)
  throw_if (leb_ℤ (pos 0) gross && ltb_ℤ gross discount) (money_error discount_exceeds_line)
  let net = gross -ℤ discount
  tax ← line_tax input.taxable (is_inclusive input) net rate
  total ← if is_inclusive input then ok net else safe_add net tax
  ok (record {
    input = input;
    discount_minor = discount;
    gross_minor = gross;
    net_minor = net;
    tax_minor = tax;
    total_minor = total;
  })

unfoldable pub calculate_line : PricedLineInput → Result CalculatedLine
calculate_line input = do
  quantity ← assert_non_negative_safe_integer input.quantity_milli
  price ← assert_safe_integer input.unit_price_minor
  discount ← assert_non_negative_safe_integer input.discount_minor
  rate ← assert_non_negative_safe_integer input.tax_rate_basis_points
  gross ← ratio_rounded (quantity *ℤ price) 1_000
  finish_line input discount rate gross

abbrev pub counts_as_approved : AuthorizationState → Bool
counts_as_approved approved = true
counts_as_approved not_required = true
counts_as_approved _ = false

-- `inputs.map(calculateLine)`: the first line that throws ends the call.
unfoldable pub calculate_lines : List PricedLineInput → Result (List CalculatedLine)
calculate_lines [] = ok []
calculate_lines (input ∷ inputs) = do
  line ← calculate_line input
  lines ← calculate_lines inputs
  ok (line ∷ lines)

-- one round of the `reduce` of `calculateEstimate`
unfoldable pub add_line : Totals → CalculatedLine → Result Totals
add_line result line = do
  subtotal ← safe_add result.subtotal_minor line.gross_minor
  discount ← safe_add result.discount_minor line.discount_minor
  tax ← safe_add result.tax_minor line.tax_minor
  total ← safe_add result.total_minor line.total_minor
  approved_total ←
      if counts_as_approved line.input.authorization
      then safe_add result.approved_total_minor line.total_minor
      else ok result.approved_total_minor
  ok (record {
    subtotal_minor = subtotal;
    discount_minor = discount;
    tax_minor = tax;
    total_minor = total;
    approved_total_minor = approved_total;
  })

unfoldable pub add_lines : Totals → List CalculatedLine → Result Totals
add_lines result [] = ok result
add_lines result (line ∷ lines) = do next ← add_line result line; add_lines next lines

abbrev pub zero_totals : Totals
zero_totals = record {
  subtotal_minor = pos 0;
  discount_minor = pos 0;
  tax_minor = pos 0;
  total_minor = pos 0;
  approved_total_minor = pos 0;
}

-- The currency is copied to the result, and is left out.
unfoldable pub calculate_estimate : List PricedLineInput → Result (List CalculatedLine × Totals)
calculate_estimate inputs = do
  lines ← calculate_lines inputs
  totals ← add_lines zero_totals lines
  ok (lines, totals)
