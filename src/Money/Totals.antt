-- ===== src/Money/Totals.antt =====
-- What `calculateEstimate` promises of the totals that it returns.
use shop_os.Common.{
  ◌≡◌, Bool, true, false, List, [], ◌∷◌, if◌then◌else◌, All, ℤ, pos, ◌+ℤ◌, ◌-ℤ◌, int_laws, subst,
}
use shop_os.Result.{ok, >>=-eq-ok, ok-injective}
use shop_os.Money.Defs.{
  PricedLineInput, CalculatedLine, Totals, is_inclusive, safe_add, calculate_line, calculate_lines,
  counts_as_approved, add_line, add_lines, zero_totals, calculate_estimate,
}
use shop_os.Money.Line.{IsPriced, calculate_line-IsPriced, safe_add-ok}

-- a sum over the lines
abbrev pub sum_of : (CalculatedLine → ℤ) → List CalculatedLine → ℤ
sum_of f [] = pos 0
sum_of f (line ∷ lines) = f line +ℤ sum_of f lines

-- what a line adds to the approved total
abbrev pub approved_part : CalculatedLine → ℤ
approved_part line = if counts_as_approved line.input.authorization then line.total_minor else pos 0

-- The totals are those of `start` with the sums over the lines added.
record Adds (start : Totals) (lines : List CalculatedLine) (t : Totals) : Type 0 where
  pub subtotal : t.subtotal_minor ≡ start.subtotal_minor +ℤ sum_of (λ line. line.gross_minor) lines
  pub discount :
      t.discount_minor ≡ start.discount_minor +ℤ sum_of (λ line. line.discount_minor) lines
  pub tax : t.tax_minor ≡ start.tax_minor +ℤ sum_of (λ line. line.tax_minor) lines
  pub total : t.total_minor ≡ start.total_minor +ℤ sum_of (λ line. line.total_minor) lines
  pub approved : t.approved_total_minor ≡ start.approved_total_minor +ℤ sum_of approved_part lines

add_approved :
    (counts : Bool) (old total new : ℤ)
    → (if counts then safe_add old total else ok old) ≡ ok new
    → new ≡ old +ℤ (if counts then total else pos 0)
add_approved true old total new h = (safe_add-ok old total new h).0
add_approved false old total new h = rw (← ok-injective old new h) (omega int_laws)

add_line-Adds :
    (start : Totals) (line : CalculatedLine) (t : Totals)
    → add_line start line ≡ ok t
    → Adds start (line ∷ []) t
unfolding add_line
add_line-Adds start line t h =
    let (a, e₁, h₁) = >>=-eq-ok (safe_add start.subtotal_minor line.gross_minor) _ h in
    let (b, e₂, h₂) = >>=-eq-ok (safe_add start.discount_minor line.discount_minor) _ h₁ in
    let (c, e₃, h₃) = >>=-eq-ok (safe_add start.tax_minor line.tax_minor) _ h₂ in
    let (d, e₄, h₄) = >>=-eq-ok (safe_add start.total_minor line.total_minor) _ h₃ in
    let (e, e₅, h₅) =
      >>=-eq-ok
        (if counts_as_approved line.input.authorization
          then safe_add start.approved_total_minor line.total_minor
          else ok start.approved_total_minor)
        _ h₄ in
    subst (Adds start (line ∷ [])) (ok-injective _ t h₅) (record {
      subtotal = rw (safe_add-ok _ _ a e₁).0 (omega int_laws);
      discount = rw (safe_add-ok _ _ b e₂).0 (omega int_laws);
      tax = rw (safe_add-ok _ _ c e₃).0 (omega int_laws);
      total = rw (safe_add-ok _ _ d e₄).0 (omega int_laws);
      approved = rw (add_approved _ _ _ e e₅) (omega int_laws);
    })

then-Adds :
    (s m t : Totals) (line : CalculatedLine) (lines : List CalculatedLine)
    → Adds s (line ∷ []) m
    → Adds m lines t
    → Adds s (line ∷ lines) t
then-Adds s m t line lines p q = record {
  subtotal = rw (q.subtotal, p.subtotal) (omega int_laws);
  discount = rw (q.discount, p.discount) (omega int_laws);
  tax = rw (q.tax, p.tax) (omega int_laws);
  total = rw (q.total, p.total) (omega int_laws);
  approved = rw (q.approved, p.approved) (omega int_laws);
}

add_lines-Adds :
    (start : Totals) (lines : List CalculatedLine) (t : Totals)
    → add_lines start lines ≡ ok t
    → Adds start lines t
unfolding add_lines
add_lines-Adds start [] t h = subst (Adds start []) (ok-injective start t h) (omega int_laws)
add_lines-Adds start (line ∷ lines) t h =
    let (m, e₁, h₁) = >>=-eq-ok (add_line start line) _ h in
    then-Adds start m t line lines (add_line-Adds start line m e₁) (add_lines-Adds m lines t h₁)

calculate_lines-IsPriced :
    (inputs : List PricedLineInput) (lines : List CalculatedLine)
    → calculate_lines inputs ≡ ok lines
    → All IsPriced lines
unfolding calculate_lines
calculate_lines-IsPriced [] lines h = subst (All IsPriced) (ok-injective [] lines h) tt
calculate_lines-IsPriced (input ∷ inputs) lines h =
    let (line, e₁, h₁) = >>=-eq-ok (calculate_line input) _ h in
    let (rest, e₂, h₂) = >>=-eq-ok (calculate_lines inputs) _ h₁ in
    subst (All IsPriced) (ok-injective (line ∷ rest) lines h₂)
      (calculate_line-IsPriced input line e₁, calculate_lines-IsPriced inputs rest e₂)

calculate_estimate-ok :
    (inputs : List PricedLineInput) (lines : List CalculatedLine) (t : Totals)
    → calculate_estimate inputs ≡ ok (lines, t)
    → All IsPriced lines × Adds zero_totals lines t
unfolding calculate_estimate
calculate_estimate-ok inputs lines t h =
    let (ls, e₁, h₁) = >>=-eq-ok (calculate_lines inputs) _ h in
    let (ts, e₂, h₂) = >>=-eq-ok (add_lines zero_totals ls) _ h₁ in
    subst (λ r. All IsPriced r.0 × Adds zero_totals r.0 r.1) (ok-injective (ls, ts) (lines, t) h₂)
      (calculate_lines-IsPriced inputs ls e₁, add_lines-Adds zero_totals ls ts e₂)

-- When calculateEstimate does not throw, every line is consistently priced, the totals are the
-- sums over the lines, and the approved total is the sum over the lines that are approved or need
-- no authorization.
pub calculate_estimate-sums :
    (inputs : List PricedLineInput) (lines : List CalculatedLine) (t : Totals)
    → calculate_estimate inputs ≡ ok (lines, t)
    → All IsPriced lines
      × (t.subtotal_minor ≡ sum_of (λ line. line.gross_minor) lines)
      × (t.discount_minor ≡ sum_of (λ line. line.discount_minor) lines)
      × (t.tax_minor ≡ sum_of (λ line. line.tax_minor) lines)
      × (t.total_minor ≡ sum_of (λ line. line.total_minor) lines)
      × (t.approved_total_minor ≡ sum_of approved_part lines)
calculate_estimate-sums inputs lines t h =
    let (priced, a) = calculate_estimate-ok inputs lines t h in
    (
      priced,
      rw a.subtotal (omega int_laws),
      rw a.discount (omega int_laws),
      rw a.tax (omega int_laws),
      rw a.total (omega int_laws),
      rw a.approved (omega int_laws),
    )

exclusive_total :
    (lines : List CalculatedLine)
    → All IsPriced lines
    → All (λ line. is_inclusive line.input ≡ false) lines
    → sum_of (λ line. line.total_minor) lines
      ≡ sum_of (λ line. line.gross_minor) lines
        -ℤ sum_of (λ line. line.discount_minor) lines
        +ℤ sum_of (λ line. line.tax_minor) lines
exclusive_total [] p x = omega int_laws
exclusive_total (line ∷ lines) (p, ps) (x, xs) =
    rw (exclusive_total lines ps xs, p.total_exclusive x, p.net_eq) (omega int_laws)

-- When calculateEstimate does not throw and no line includes its tax, the total is the subtotal
-- less the discounts plus the tax.
pub calculate_estimate_balances :
    (inputs : List PricedLineInput) (lines : List CalculatedLine) (t : Totals)
    → calculate_estimate inputs ≡ ok (lines, t)
    → All (λ line. is_inclusive line.input ≡ false) lines
    → t.total_minor ≡ t.subtotal_minor -ℤ t.discount_minor +ℤ t.tax_minor
calculate_estimate_balances inputs lines t h x =
    let (priced, sub, dis, tax, total, _) = calculate_estimate-sums inputs lines t h in
    rw (total, sub, dis, tax) (exclusive_total lines priced x)
