-- ===== src/Money/Line.antt =====
-- What `calculateLine` promises of a line that it does not refuse.
use native.Mathlib.Nat.{mul-le-mul, le_refl}
use shop_os.Common.{
  subst, ℕ, ◌+◌, ◌*◌, ◌<◌, ◌≤◌, ◌≡◌, refl, inl, inr, arith, Bool, true, false, ◌&&◌, leb, ltb,
  if◌then◌else◌, Bool-cases, ℤ, pos, negsuc, ◌+ℤ◌, ◌-ℤ◌, ◌*ℤ◌, ◌≤ℤ◌, ltb_ℤ, leb_ℤ, int_laws,
  magnitude, Number, int, other, safe_limit, number_add, number_add_lower, number_add_exact, leb→le,
  ltb→lt, ◌∙◌, leb-false, ltb-false, -ℤ_parts, sym,
}
use shop_os.Result.{ok, throw_if, >>=-eq-ok, ok-injective, throw_if-ok}
use shop_os.Money.Defs.{
  PricedLineInput, CalculatedLine, rounded_ratio, ratio_rounded, assert_safe_integer,
  assert_non_negative_safe_integer, safe_add, line_tax, is_inclusive, calculate_line, finish_line,
}
use shop_os.Money.Rounding.{half_up, half_up_nearest, rounded_ratio-pos}

assert_safe_integer-ok :
    (n : Number) (z : ℤ) → assert_safe_integer n ≡ ok z → (n ≡ int z) × (magnitude z < safe_limit)
unfolding assert_safe_integer
assert_safe_integer-ok (int y) z h = ground arith
assert_safe_integer-ok other z h = cc

assert_non_negative-ok :
    (n : Number) (z : ℤ)
    → assert_non_negative_safe_integer n ≡ ok z
    → (n ≡ int z) × (magnitude z < safe_limit) × (pos 0 ≤ℤ z)
unfolding assert_non_negative_safe_integer assert_safe_integer
assert_non_negative-ok (int y) z h = ground arith
assert_non_negative-ok other z h = cc

pub safe_add-ok : (a b c : ℤ) → safe_add a b ≡ ok c → (c ≡ a +ℤ b) × (magnitude c < safe_limit)
unfolding safe_add assert_safe_integer
safe_add-ok a b c h = ground arith

ratio_rounded-ok :
    (z : ℤ) (d : ℕ) (r : ℤ)
    → ratio_rounded z d ≡ ok r
    → (r ≡ rounded_ratio z d) × (magnitude r < safe_limit)
unfolding ratio_rounded assert_safe_integer
ratio_rounded-ok z d r h = ground arith

number_add_wide : (rate : ℕ) → 10_000 ≤ number_add 10_000 rate
number_add_wide rate = elim (Bool-cases (ltb (10_000 + rate) safe_limit)) [
  | inl e ↦ rw (number_add_exact 10_000 rate (ltb→lt _ _ e)) (omega arith)
  | inr e ↦ omega (arith, number_add_lower 10_000 rate, ltb-false _ _ e)
]

*ℤ_pos : (a b : ℕ) → pos a *ℤ pos b ≡ pos (a * b)
unfolding ◌*ℤ◌
*ℤ_pos a b = ground arith

-- Rounding does not pass a whole number that bounds the exact ratio.
half_up-le : (m d n : ℕ) → 0 < d → m ≤ n * d → half_up m d ≤ n
half_up-le m d n h le = elim (Bool-cases (leb (half_up m d) n)) [
  | inl e ↦ leb→le _ _ e
  | inr e ↦ absurd (omega (arith, half_up_nearest m d h, mul-le-mul (leb-false _ _ e) (le_refl d)))
]

take_back :
    (net k : ℕ) (back tax : ℤ)
    → back ≡ pos k
    → k ≤ net
    → (pos net -ℤ back) ≡ tax
    → (pos 0 ≤ℤ tax) × (tax ≤ℤ pos net)
take_back net k back tax e le t =
    rw (← t, e)
      (omega (arith, -ℤ_parts (pos net) (pos k)), omega (arith, -ℤ_parts (pos net) (pos k)))

-- At a net amount and a rate that are not negative, a tax that is computed is not negative, and
-- where the price includes it, it is at most the net amount.
pub line_tax_bounds :
    (inclusive_price : Bool) (net rate : ℕ) (tax : ℤ)
    → line_tax true inclusive_price (pos net) (pos rate) ≡ ok tax
    → (pos 0 ≤ℤ tax) × (inclusive_price ≡ true → tax ≤ℤ pos net)
unfolding line_tax
line_tax_bounds true net rate tax h =
    let divisor = number_add 10_000 rate in
    let (back, e, done) = >>=-eq-ok (ratio_rounded (pos net *ℤ pos 10_000) divisor) _ h in
    let same : back ≡ pos (half_up (net * 10_000) divisor) =
      (ratio_rounded-ok _ divisor back e).0
      ∙ rw (*ℤ_pos net 10_000) (rounded_ratio-pos _ divisor) in
    let wide : 10_000 ≤ divisor = number_add_wide rate in
    let short =
      half_up-le (net * 10_000) divisor net (omega arith) (mul-le-mul (le_refl net) wide) in
    let (low, high) = take_back net _ back tax same short (ok-injective _ _ done) in
    (low, λ _. high)
line_tax_bounds false net rate tax h =
    let exact : tax ≡ pos (half_up (net * rate) 10_000) =
      (ratio_rounded-ok (pos net *ℤ pos rate) 10_000 tax h).0
      ∙ rw (*ℤ_pos net rate) (rounded_ratio-pos _ 10_000) in
    (rw exact (omega arith), λ e. cc)

line_tax_facts :
    (taxable inclusive_price : Bool) (net rate tax : ℤ)
    → line_tax taxable inclusive_price net rate ≡ ok tax
    → pos 0 ≤ℤ rate
    → (taxable ≡ false → tax ≡ pos 0)
      × (pos 0 ≤ℤ net → pos 0 ≤ℤ tax)
      × (inclusive_price ≡ true → pos 0 ≤ℤ net → tax ≤ℤ net)
line_tax_facts false p net rate tax h r =
    let e : pos 0 ≡ tax = unfold line_tax in ok-injective (pos 0) tax h in
    (λ _. sym e, λ _. rw (← e) (omega arith), λ _ n. rw (← e) (omega arith))
line_tax_facts true p (pos net) (pos rate) tax h r =
    let (low, high) = line_tax_bounds p net rate tax h in (λ e. cc, λ _. low, λ e _. high e)
line_tax_facts true p (negsuc net) (pos rate) tax h r =
    (λ e. cc, λ n. absurd (omega arith), λ _ n. absurd (omega arith))
line_tax_facts true p net (negsuc rate) tax h r = absurd (omega arith)

-- What a line that `calculateLine` returns satisfies.
pub record IsPriced (line : CalculatedLine) : Type 0 where
  -- the discount is not negative, and comes off the gross
  discount_nonneg : pos 0 ≤ℤ line.discount_minor
  pub net_eq : line.net_minor ≡ line.gross_minor -ℤ line.discount_minor
  -- a charge is discounted at most to nothing, and its tax is not negative
  charge_net : pos 0 ≤ℤ line.gross_minor → pos 0 ≤ℤ line.net_minor
  charge_tax : pos 0 ≤ℤ line.gross_minor → pos 0 ≤ℤ line.tax_minor
  -- a credit has no discount
  credit_net : ¬ (pos 0 ≤ℤ line.gross_minor) → line.net_minor ≡ line.gross_minor
  -- the total has the tax on top, or inside it
  pub total_exclusive :
      is_inclusive line.input ≡ false → line.total_minor ≡ line.net_minor +ℤ line.tax_minor
  total_inclusive : is_inclusive line.input ≡ true → line.total_minor ≡ line.net_minor
  tax_inside :
      is_inclusive line.input ≡ true
      → pos 0 ≤ℤ line.gross_minor
      → line.tax_minor ≤ℤ line.total_minor
  untaxed : line.input.taxable ≡ false → line.tax_minor ≡ pos 0

total_facts :
    (inclusive_price : Bool) (net tax total : ℤ)
    → (if inclusive_price then ok net else safe_add net tax) ≡ ok total
    → (inclusive_price ≡ false → total ≡ net +ℤ tax) × (inclusive_price ≡ true → total ≡ net)
total_facts true net tax total h = (λ e. cc, λ _. sym (ok-injective _ _ h))
total_facts false net tax total h = (λ _. (safe_add-ok net tax total h).0, λ e. cc)

charge_guard :
    (gross discount : ℤ)
    → (leb_ℤ (pos 0) gross && ltb_ℤ gross discount) ≡ false
    → pos 0 ≤ℤ gross
    → discount ≤ℤ gross
charge_guard gross discount h g = ground arith

credit_guard :
    (gross discount : ℤ)
    → (ltb_ℤ gross (pos 0) && ltb_ℤ (pos 0) discount) ≡ false
    → ¬ (pos 0 ≤ℤ gross)
    → discount ≤ℤ pos 0
credit_guard gross discount h g = ground arith

module _ (input : PricedLineInput) (discount rate gross : ℤ) (discount_sign : pos 0 ≤ℤ discount)
    (rate_sign : pos 0 ≤ℤ rate) where
  abbrev line_of : (tax total : ℤ) → CalculatedLine
  line_of tax total = record {
    input = input;
    discount_minor = discount;
    gross_minor = gross;
    net_minor = gross -ℤ discount;
    tax_minor = tax;
    total_minor = total;
  }

  line_of-IsPriced :
      (tax total : ℤ)
      → (pos 0 ≤ℤ gross → discount ≤ℤ gross)
      → (¬ (pos 0 ≤ℤ gross) → discount ≤ℤ pos 0)
      → line_tax input.taxable (is_inclusive input) (gross -ℤ discount) rate ≡ ok tax
      → (if is_inclusive input then ok (gross -ℤ discount) else safe_add (gross -ℤ discount) tax)
        ≡ ok total
      → IsPriced (line_of tax total)
  line_of-IsPriced tax total charge credit et es =
      let net : ℤ = gross -ℤ discount in
      let (flat, low, high) =
        line_tax_facts input.taxable (is_inclusive input) net rate tax et rate_sign in
      let (on_top, inside) = total_facts (is_inclusive input) net tax total es in
      let charged : (pos 0 ≤ℤ gross → pos 0 ≤ℤ net) = λ g. let c = charge g in omega int_laws in
      record {
        discount_nonneg = discount_sign;
        net_eq = refl;
        charge_net = charged;
        charge_tax = λ g. low (charged g);
        credit_net = λ g. let c = credit g in omega int_laws;
        total_exclusive = on_top;
        total_inclusive = inside;
        tax_inside = λ e g. rw (inside e) (high e (charged g));
        untaxed = flat;
      }

  finish_line-IsPriced :
      (line : CalculatedLine) → finish_line input discount rate gross ≡ ok line → IsPriced line
  unfolding finish_line
  finish_line-IsPriced line h =
      let (u, e₁, h₁) =
        >>=-eq-ok (throw_if (ltb_ℤ gross (pos 0) && ltb_ℤ (pos 0) discount) _) _ h in
      let (v, e₂, h₂) = >>=-eq-ok (throw_if (leb_ℤ (pos 0) gross && ltb_ℤ gross discount) _) _ h₁ in
      let (tax, e₃, h₃) =
        >>=-eq-ok (line_tax input.taxable (is_inclusive input) (gross -ℤ discount) rate) _ h₂ in
      let (total, e₄, h₄) =
        >>=-eq-ok
          (if is_inclusive input then ok (gross -ℤ discount) else safe_add (gross -ℤ discount) tax)
          _ h₃ in
      subst IsPriced (ok-injective (line_of tax total) line h₄) (
        line_of-IsPriced tax total (charge_guard gross discount (throw_if-ok _ _ v e₂))
          (credit_guard gross discount (throw_if-ok _ _ u e₁)) e₃ e₄)

-- When calculateLine does not throw: the discount is not negative and never passes a charge; a
-- credit has none; the total is the net amount with its tax on top, or with the tax inside it; the
-- tax of a charge is not negative and an included one not above the total; a line that is not
-- taxable has no tax.
pub calculate_line-IsPriced :
    (input : PricedLineInput) (line : CalculatedLine)
    → calculate_line input ≡ ok line
    → IsPriced line
unfolding calculate_line
calculate_line-IsPriced input line h =
    let (quantity, e₁, h₁) =
      >>=-eq-ok (assert_non_negative_safe_integer input.quantity_milli) _ h in
    let (price, e₂, h₂) = >>=-eq-ok (assert_safe_integer input.unit_price_minor) _ h₁ in
    let (discount, e₃, h₃) =
      >>=-eq-ok (assert_non_negative_safe_integer input.discount_minor) _ h₂ in
    let (rate, e₄, h₄) =
      >>=-eq-ok (assert_non_negative_safe_integer input.tax_rate_basis_points) _ h₃ in
    let (gross, e₅, h₅) = >>=-eq-ok (ratio_rounded (quantity *ℤ price) 1_000) _ h₄ in
    finish_line-IsPriced input discount rate gross
      (assert_non_negative-ok input.discount_minor discount e₃).2
      (assert_non_negative-ok input.tax_rate_basis_points rate e₄).2 line h₅
