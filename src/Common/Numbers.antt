-- ===== src/Common/Numbers.antt =====
-- The JavaScript `number` of an input, as far as the services look at one: an integer, or anything
-- else (a fraction, an infinity, NaN), which every check refuses; and the rounding of a sum of
-- integers to the nearest double.
use Prim.Native.Nat.{ℕ, zero, suc, ◌^◌, ◌+◌, ◌*◌, ◌/◌, ◌%◌, ◌≤◌, ◌<◌}
use mathlib.Core.Path.{◌≡◌}
use mathlib.Core.Logic.{inl, inr}
use native.Mathlib.Nat.{pow-suc, div-add-mod, mod-lt}
use mathlib.Core.Bool.{Bool, false}
use native.Mathlib.Omega.{arith}
use shop_os.Common.Tests.{ltb, Bool-cases, ◌==◌, if◌then◌else◌}
use shop_os.Common.Int.{ℤ, magnitude, pos, negsuc, ◌-ℤ◌}

pub data Number : Type 0 where
  int : ℤ → Number
  other : Number

-- `Number.MAX_SAFE_INTEGER + 1`
abbrev pub safe_limit : ℕ
safe_limit = 9_007_199_254_740_992

-- `Number.isSafeInteger`
abbrev pub is_safe_integer : Number → Bool
is_safe_integer (int z) = ltb (magnitude z) safe_limit
is_safe_integer other = false

-- The distance between the doubles around `n`, for `n` below `2 ^ 53 * ulp * 2 ^ levels`.
pub ulp_of : (levels ulp n : ℕ) → ℕ
ulp_of zero ulp n = ulp
ulp_of (suc levels) ulp n =
    let wider = ulp_of levels (2 * ulp) n in if ltb n (safe_limit * ulp) then ulp else wider

-- Rounds to a multiple of `ulp`, a tie to the even one.
pub round_even : ℕ → ℕ → ℕ
round_even n ulp =
    let q = n / ulp in
    let r = n % ulp in
    if ltb (2 * r) ulp
    then q * ulp
    else if ltb ulp (2 * r)
    then (q + 1) * ulp
    else if q % 2 == 0
    then q * ulp
    else (q + 1) * ulp

-- `a + b` on doubles that hold integers at or above 0, for sums below 2 ^ 64.
unfoldable pub number_add : ℕ → ℕ → ℕ
unfolding ulp_of round_even
number_add a b = round_even (a + b) (ulp_of 11 1 (a + b))

-- `Number(z)` for a `bigint` of 64 bits: the nearest double.
unfoldable pub to_number : ℤ → ℤ
to_number (pos n) = pos (number_add n 0)
to_number (negsuc n) = pos 0 -ℤ pos (number_add (suc n) 0)

round_even_one : (n : ℕ) → round_even n 1 ≡ n
unfolding round_even
round_even_one n = ground arith

ulp_of_safe : (n : ℕ) → n < safe_limit → ulp_of 11 1 n ≡ 1
unfolding ulp_of
ulp_of_safe n h = ground arith

-- Below the limit of the safe integers a sum is exact.
pub number_add_exact : (a b : ℕ) → a + b < safe_limit → number_add a b ≡ a + b
unfolding number_add
number_add_exact a b h = rw (ulp_of_safe (a + b) h) (round_even_one (a + b))

le-pow-mul : (k u : ℕ) → u ≤ 2 ^ k * u
le-pow-mul zero u = omega arith
le-pow-mul (suc k) u = rw pow-suc (omega (arith, le-pow-mul k u))

ulp_of-le : (levels ulp n : ℕ) → ulp_of levels ulp n ≤ 2 ^ levels * ulp
unfolding ulp_of
ulp_of-le zero ulp n = omega arith
ulp_of-le (suc levels) ulp n = elim (Bool-cases (ltb n (safe_limit * ulp))) [
  | inl e ↦ rw e (le-pow-mul (suc levels) ulp)
  | inr e ↦ rw (e, pow-suc) (omega (arith, ulp_of-le levels (2 * ulp) n))
]

ulp_of-pos : (levels ulp n : ℕ) → 0 < ulp → 0 < ulp_of levels ulp n
unfolding ulp_of
ulp_of-pos zero ulp n h = h
ulp_of-pos (suc levels) ulp n h = elim (Bool-cases (ltb n (safe_limit * ulp))) [
  | inl e ↦ rw e h
  | inr e ↦ rw e (ulp_of-pos levels (2 * ulp) n (omega arith))
]

-- Rounding loses less than one step.
round_even-lower : (n ulp : ℕ) → 0 < ulp → n < round_even n ulp + ulp
unfolding round_even
round_even-lower n ulp h = elim (Bool-cases (ltb (2 * (n % ulp)) ulp)) [
  | inl e ↦ rw e (omega (arith, div-add-mod n ulp, mod-lt n h))
  | inr e ↦ rw e (elim (Bool-cases (ltb ulp (2 * (n % ulp)))) [
    | inl d ↦ rw d (omega (arith, div-add-mod n ulp, mod-lt n h))
    | inr d ↦ rw d (elim (Bool-cases (n / ulp % 2 == 0)) [
      | inl c ↦ rw c (omega (arith, div-add-mod n ulp, mod-lt n h))
      | inr c ↦ rw c (omega (arith, div-add-mod n ulp, mod-lt n h))
    ])
  ])
]

-- A rounded sum is short of the exact one by less than 2048.
pub number_add_lower : (a b : ℕ) → a + b < number_add a b + 2048
unfolding number_add
number_add_lower a b = omega (
  arith,
  round_even-lower (a + b) (ulp_of 11 1 (a + b)) (ulp_of-pos 11 1 (a + b) (omega arith)),
  ulp_of-le 11 1 (a + b),
)
