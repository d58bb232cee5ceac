-- ===== src/Invoices/Numbering.antt =====
-- `generateInvoiceNumber` of src/modules/invoices/invoice-service.ts. The order of texts is that of
-- the database's collation, a parameter: `later a b` says that `a` sorts after `b`. The sums and the
-- decimals of numbers beyond 2 ^ 53 are a parameter too, `beyond`.
use mathlib.Core.Option
use shop_os.Common.{
  ℕ, ◌+◌, Bool, ◌&&◌, Option, none, some, List, [], ◌∷◌, ◌++◌, ◌==◌, if◌then◌else◌, or_default,
  or_else, filter, find_first, map, ltb, safe_limit,
}
use shop_os.Common.Text.{starts_with, digits_at_end, parse_from, print_decimal}
use shop_os.Db.{Text, Db}

-- the first of the latest, as `findFirst` with a descending order returns it
unfoldable pub latest_of : (later : Text → Text → Bool) → List Text → Option Text
latest_of later [] = none
latest_of later (t ∷ ts) = elim (latest_of later ts) [
  | none ↦ some t
  | some u ↦ some (if later u t then u else t)
]

-- "INV-"
abbrev pub default_prefix : Text
default_prefix = 73 ∷ 78 ∷ 86 ∷ 45 ∷ []

unfoldable pub invoice_prefix : (organization_id location_id : ℕ) → Db → Text
invoice_prefix org location db =
    let own : Option Text =
      elim (find_first (λ l. l.id == location && l.organization_id == org) db.locations) [
        | none ↦ none
        | some l ↦ l.invoice_number_prefix
      ] in
    let shared =
      Option.map (λ o. o.invoice_number_prefix) (find_first (λ o. o.id == org) db.organizations) in
    or_default (or_else own shared) default_prefix

-- the numbers of the location's series
unfoldable pub series : (organization_id location_id : ℕ) → (prefix : Text) → Db → List Text
series org location prefix db =
    map (λ i. i.number)
      (filter
        (λ i. i.organization_id == org && i.location_id == location && starts_with prefix i.number)
        db.invoices)

-- the text of `parseInt(digits, 10) + 1`: a double holds a number below 2 ^ 53 and its successor
-- exactly and prints their decimals; for larger ones the language rounds, which `beyond` stands for
unfoldable pub text_of_next : (beyond : Text → Text) → (digits : Text) → Text
text_of_next beyond digits =
    let n = parse_from 0 digits in if ltb n safe_limit then print_decimal (n + 1) else beyond digits

-- the number after `latest`; a text that does not end in digits starts at 1001 again
unfoldable pub next_number : (beyond : Text → Text) → (prefix : Text) → Option Text → Text
next_number beyond prefix none = prefix ++ print_decimal 1001
next_number beyond prefix (some latest) = elim (digits_at_end latest) [
  | none ↦ prefix ++ print_decimal 1001
  | some digits ↦ prefix ++ text_of_next beyond digits
]

unfoldable pub generate_invoice_number :
    (later : Text → Text → Bool)
    → (beyond : Text → Text) → (organization_id location_id : ℕ) → Db
    → Text
generate_invoice_number later beyond org location db =
    let prefix = invoice_prefix org location db in
    next_number beyond prefix (latest_of later (series org location prefix db))
