-- ===== src/Invoices/Tests.antt =====
-- Witnesses of the theorem on the numbers of invoices.
use shop_os.Common.{◌≡◌, refl, [], ◌∷◌, ◌++◌, Bool, true, arith, safe_limit}
use shop_os.Db.{Db, Text, InvoiceStatus}
use shop_os.Samples.{desk, bill}
use shop_os.Common.Text.{print_decimal, starts_with, digits_at_end, take_digits, print_from}
use shop_os.Invoices.Numbering.{generate_invoice_number, invoice_prefix, latest_of, series}
use shop_os.Invoices.Series.{generate_invoice_number-next}

-- the bill is number I1041
abbrev numbered_desk : Db
numbered_desk = record desk {
  invoices = record (bill InvoiceStatus.issued 0) { number = 73 ∷ 49 ∷ 48 ∷ 52 ∷ 49 ∷ [] } ∷ [];
}

abbrev always : Text → Text → Bool
always _ _ = true

-- `9007199254740992 + 1` on doubles
abbrev rounded : Text → Text
rounded _ = print_decimal safe_limit

generate_invoice_number-next_example :
    generate_invoice_number always rounded 1 2 numbered_desk
    ≡ invoice_prefix 1 2 numbered_desk ++ print_decimal 1_042
unfolding invoice_prefix latest_of series starts_with digits_at_end take_digits print_decimal
    print_from
generate_invoice_number-next_example =
    generate_invoice_number-next always rounded 1 2 1_041 numbered_desk (omega arith) refl refl
