-- ===== src/Common/Text.antt =====
-- Text as a list of code units: `trim`, `toUpperCase` on the letters of ASCII, prefixes, the digits at
-- the end of a text, and numbers in decimal.
use Prim.Native.Nat.{ℕ, zero, suc, ◌+◌, ◌-◌, ◌*◌, ◌/◌, ◌%◌}
use mathlib.Core.Bool.{Bool, true, false, ◌&&◌, ◌||◌}
use mathlib.Core.Option.{Option, none, some}
use mathlib.Core.List.{List, [], ◌∷◌, map, reverse}
use shop_os.Common.Tests.{leb, ltb, ◌==◌, if◌then◌else◌}

-- the white space of `String.prototype.trim`
abbrev pub is_space : ℕ → Bool
is_space c =
    (leb 9 c && leb c 13)
    || c == 32
    || c == 160
    || c == 5760
    || (leb 8192 c && leb c 8202)
    || c == 8232
    || c == 8233
    || c == 8239
    || c == 8287
    || c == 12288
    || c == 65279

unfoldable pub drop_spaces : List ℕ → List ℕ
drop_spaces [] = []
drop_spaces (c ∷ cs) = if is_space c then drop_spaces cs else c ∷ cs

unfoldable pub trim : List ℕ → List ℕ
unfolding drop_spaces
trim text = reverse (drop_spaces (reverse (drop_spaces text)))

abbrev pub upper_code : ℕ → ℕ
upper_code c = if leb 97 c && leb c 122 then c - 32 else c

unfoldable pub to_upper_case : List ℕ → List ℕ
to_upper_case = map upper_code

unfoldable pub starts_with : (prefix text : List ℕ) → Bool
starts_with [] text = true
starts_with (p ∷ ps) [] = false
starts_with (p ∷ ps) (c ∷ cs) = p == c && starts_with ps cs

abbrev pub is_digit : ℕ → Bool
is_digit c = leb 48 c && leb c 57

-- the number that a run of digits writes, after those already read
unfoldable pub parse_from : ℕ → List ℕ → ℕ
parse_from n [] = n
parse_from n (c ∷ cs) = parse_from (n * 10 + (c - 48)) cs

-- The longest run of digits at the front.
unfoldable pub take_digits : List ℕ → List ℕ
take_digits [] = []
take_digits (c ∷ cs) = if is_digit c then c ∷ take_digits cs else []

-- the match of `/(\d+)$/`
unfoldable pub digits_at_end : List ℕ → Option (List ℕ)
unfolding take_digits
digits_at_end text = elim (take_digits (reverse text)) [
  | [] ↦ none
  | d ∷ ds ↦ some (reverse (d ∷ ds))
]

-- A number in decimal, in front of `rest`; the fuel bounds the digits.
unfoldable pub print_from : (fuel n : ℕ) → List ℕ → List ℕ
print_from zero n rest = rest
print_from (suc fuel) n rest =
    let out = (48 + n % 10) ∷ rest in
    let more = print_from fuel (n / 10) out in if ltb n 10 then out else more

unfoldable pub print_decimal : ℕ → List ℕ
unfolding print_from
print_decimal n = print_from (suc n) n []

unfoldable pub same_text : List ℕ → List ℕ → Bool
same_text [] [] = true
same_text [] (d ∷ ds) = false
same_text (c ∷ cs) [] = false
same_text (c ∷ cs) (d ∷ ds) = c == d && same_text cs ds

-- `text ? text : undefined`: the empty text counts as missing
abbrev pub truthy : Option (List ℕ) → Option (List ℕ)
truthy none = none
truthy (some []) = none
truthy (some (c ∷ cs)) = some (c ∷ cs)
