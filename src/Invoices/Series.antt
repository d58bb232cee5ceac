-- ===== src/Invoices/Series.antt =====
-- The number after an invoice number of the series: printing a number and reading it back.
use mathlib.Core.List.{reverse, reverse-append, reverse-reverse, reverse-cons}
use shop_os.Common.{
  ℕ, zero, suc, ◌+◌, ◌/◌, ◌%◌, ◌<◌, ◌≡◌, ◌≢◌, [], ◌∷◌, ◌++◌, some, true, All, All-append, refl,
  arith, ltb, inl, inr, Bool-cases, ap, none, ◌∙◌, Option, ltb→lt, sym, ltb-false, Bool, safe_limit,
}
use shop_os.Common.Text.{
  is_digit, parse_from, take_digits, digits_at_end, print_from, print_decimal,
}
use shop_os.Db.{Text, Db}
use shop_os.Invoices.Numbering.{
  next_number, generate_invoice_number, invoice_prefix, latest_of, series, text_of_next,
}

-- Reading back what was printed, in front of any text.
parse_from-print_from :
    (fuel n : ℕ) (rest : Text)
    → n < fuel
    → parse_from 0 (print_from fuel n rest) ≡ parse_from n rest
unfolding parse_from print_from
parse_from-print_from zero n rest h = ground (arith, h)
parse_from-print_from (suc fuel) n rest h = elim (Bool-cases (ltb n 10)) [
  | inl last ↦ rw last (ap (λ m. parse_from m rest) (omega (arith, ltb→lt n 10 last)))
  | inr more ↦ rw more (
      parse_from-print_from fuel (n / 10) ((48 + n % 10) ∷ rest)
        (omega (arith, h, ltb-false n 10 more))
      ∙ ap (λ m. parse_from m rest) (omega arith))
]

abbrev AreDigits : Text → Type 0
AreDigits t = All (λ c. is_digit c ≡ true) t

print_from-AreDigits :
    (fuel n : ℕ) (rest : Text) → AreDigits rest → AreDigits (print_from fuel n rest)
unfolding print_from
print_from-AreDigits zero n rest d = d
print_from-AreDigits (suc fuel) n rest d = elim (Bool-cases (ltb n 10)) [
  | inl last ↦ rw last (ground arith, d)
  | inr more ↦ rw more (print_from-AreDigits fuel (n / 10) ((48 + n % 10) ∷ rest) (ground arith, d))
]

-- The digits at the end of a text whose front does not end in one.
take_digits-append :
    (ds rest : Text) → AreDigits ds → take_digits rest ≡ [] → take_digits (ds ++ rest) ≡ ds
unfolding take_digits
take_digits-append [] rest _ h = h
take_digits-append (d ∷ ds) rest (digit, digits) h =
    rw digit (ap (λ t. d ∷ t) (take_digits-append ds rest digits h))

reverse-AreDigits : (ds : Text) → AreDigits ds → AreDigits (reverse ds)
reverse-AreDigits [] _ = tt
reverse-AreDigits (d ∷ ds) (digit, digits) = rw (reverse-cons d ds) (
    All-append (λ c. is_digit c ≡ true) (reverse ds) (d ∷ []) (reverse-AreDigits ds digits)
      (digit, tt))

-- What is printed is not empty.
print_from-keeps : (fuel n c : ℕ) (rest : Text) → print_from fuel n (c ∷ rest) ≢ []
unfolding print_from
print_from-keeps zero n c rest = λ h. cc
print_from-keeps (suc fuel) n c rest = elim (Bool-cases (ltb n 10)) [
  | inl last ↦ rw last (λ h. cc)
  | inr more ↦ rw more (print_from-keeps fuel (n / 10) (48 + n % 10) (c ∷ rest))
]

print_decimal-ne-nil : (n : ℕ) → print_decimal n ≢ []
unfolding print_decimal print_from
print_decimal-ne-nil n = elim (Bool-cases (ltb n 10)) [
  | inl last ↦ rw last (λ h. cc)
  | inr more ↦ rw more (print_from-keeps n (n / 10) (48 + n % 10) [])
]

-- the match of the digits, once they are taken in reverse
match_of : Text → Option Text
match_of [] = none
match_of (d ∷ ds) = some (reverse (d ∷ ds))

match_of-none : (t : Text) → match_of t ≡ none → t ≡ []
unfolding match_of
match_of-none [] h = refl
match_of-none (d ∷ ds) h = cc

match_of-reverse : (t ds : Text) → t ≡ reverse ds → ds ≢ [] → match_of t ≡ some ds
unfolding match_of
match_of-reverse [] ds h some_digit =
    absurd (some_digit (sym (reverse-reverse ds) ∙ ap reverse (sym h)))
match_of-reverse (d ∷ t) ds h some_digit = ap some (ap reverse h ∙ reverse-reverse ds)

digits_at_end-match_of : (t : Text) → digits_at_end t ≡ match_of (take_digits (reverse t))
unfolding digits_at_end match_of
digits_at_end-match_of t = refl

digits_at_end-append :
    (prefix ds : Text)
    → AreDigits ds
    → ds ≢ []
    → digits_at_end prefix ≡ none
    → digits_at_end (prefix ++ ds) ≡ some ds
unfolding digits_at_end
digits_at_end-append prefix ds digits some_digit ends =
    let empty =
      match_of-none (take_digits (reverse prefix)) (sym (digits_at_end-match_of prefix) ∙ ends) in
    let taken =
      ap take_digits (reverse-append prefix ds)
      ∙ take_digits-append (reverse ds) (reverse prefix) (reverse-AreDigits ds digits) empty in
    digits_at_end-match_of (prefix ++ ds)
    ∙ match_of-reverse (take_digits (reverse (prefix ++ ds))) ds taken some_digit

print_decimal-AreDigits : (n : ℕ) → AreDigits (print_decimal n)
unfolding print_decimal
print_decimal-AreDigits n = print_from-AreDigits (suc n) n [] tt

-- What is printed reads back as the same number.
parse_from-print_decimal : (n : ℕ) → parse_from 0 (print_decimal n) ≡ n
unfolding print_decimal parse_from
parse_from-print_decimal n = parse_from-print_from (suc n) n [] (omega arith)

next_number_of_digits :
    (beyond : Text → Text) (prefix latest ds : Text)
    → digits_at_end latest ≡ some ds
    → next_number beyond prefix (some latest) ≡ prefix ++ text_of_next beyond ds
unfolding next_number
next_number_of_digits beyond prefix latest ds h = rw (next_number, h) refl

text_of_next-print_decimal :
    (beyond : Text → Text) (n : ℕ)
    → n < safe_limit
    → text_of_next beyond (print_decimal n) ≡ print_decimal (n + 1)
unfolding text_of_next
text_of_next-print_decimal beyond n small =
    let yes : ltb n safe_limit ≡ true = ground (arith, small) in
    rw (parse_from-print_decimal n, yes) refl

-- The number after a prefix with a numeral.
next_number-print_decimal :
    (beyond : Text → Text) (prefix : Text) (n : ℕ)
    → n < safe_limit
    → digits_at_end prefix ≡ none
    → next_number beyond prefix (some (prefix ++ print_decimal n)) ≡ prefix ++ print_decimal (n + 1)
next_number-print_decimal beyond prefix n small ends =
    let read =
      digits_at_end-append prefix (print_decimal n) (print_decimal-AreDigits n)
        (print_decimal-ne-nil n) ends in
    next_number_of_digits beyond prefix (prefix ++ print_decimal n) (print_decimal n) read
    ∙ ap (λ t. prefix ++ t) (text_of_next-print_decimal beyond n small)

-- If the prefix of the location's series does not end in a digit, and the latest invoice number
-- of the series is the prefix with a decimal numeral below 2 ^ 53, then generateInvoiceNumber
-- returns the prefix with the next numeral.
pub generate_invoice_number-next :
    (later : Text → Text → Bool) (beyond : Text → Text) (org location n : ℕ) (db : Db)
    → n < safe_limit
    → digits_at_end (invoice_prefix org location db) ≡ none
    → latest_of later (series org location (invoice_prefix org location db) db)
      ≡ some (invoice_prefix org location db ++ print_decimal n)
    → generate_invoice_number later beyond org location db
      ≡ invoice_prefix org location db ++ print_decimal (n + 1)
unfolding generate_invoice_number
generate_invoice_number-next later beyond org location n db small ends latest =
    let prefix = invoice_prefix org location db in
    ap (next_number beyond prefix) latest ∙ next_number-print_decimal beyond prefix n small ends
