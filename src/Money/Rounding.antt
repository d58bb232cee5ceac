-- ===== src/Money/Rounding.antt =====
-- `ratioRounded` is the whole number nearest to the exact ratio, ties go away from zero, and a
-- credit rounds like the charge of the same size.
use native.Mathlib.Nat.{div-add-mod, mod-lt}
use shop_os.Common.{
  ℕ, zero, suc, ◌+◌, ◌*◌, ◌/◌, ◌%◌, ◌<◌, ◌≤◌, ◌≡◌, refl, sym, inl, inr, arith, leb, leb→le,
  leb-false, Bool-cases, if◌then◌else◌, ℤ, pos, negsuc, ◌+ℤ◌, magnitude, ltb_ℤ, neg_part, pos_part,
  int, ◌*ℤ◌, ◌-ℤ◌, ◌-◌, sub_ℕ, ◌∙◌, ap,
}
use shop_os.Result.{Result, ok, err}
use shop_os.Money.Defs.{negate, rounded_ratio, ratio_rounded, assert_safe_integer}

-- n / d rounded to the nearest whole number, a half up
unfoldable pub half_up : ℕ → ℕ → ℕ
half_up n d = if leb d (n % d * 2) then n / d + 1 else n / d

-- `-z`
abbrev pub minus : ℤ → ℤ
minus (pos n) = negate n
minus (negsuc n) = pos (suc n)

-- the same with the sign of a result changed
abbrev pub negated : Result ℤ → Result ℤ
negated (ok z) = ok (minus z)
negated (err e) = err e

pub half_up_nearest :
    (n d : ℕ) → 0 < d → (2 * (half_up n d * d) ≤ 2 * n + d) × (2 * n < 2 * (half_up n d * d) + d)
unfolding half_up
half_up_nearest n d h = elim (Bool-cases (leb d (n % d * 2))) [
  | inl e ↦ rw e (omega (arith, div-add-mod n d, mod-lt n h, leb→le _ _ e))
  | inr e ↦ rw e (omega (arith, div-add-mod n d, mod-lt n h, leb-false _ _ e))
]

negate_step : (q : ℕ) → negate q +ℤ negsuc 0 ≡ negate (q + 1)
unfolding ◌+ℤ◌
negate_step zero = refl
negate_step (suc q) = ground arith

absolute_negate :
    (k : ℕ) → (if ltb_ℤ (negate k) (pos 0) then neg_part (negate k) else pos_part (negate k)) ≡ k
absolute_negate zero = refl
absolute_negate (suc k) = ground arith

half_up_zero : (d : ℕ) → 0 < d → half_up 0 d ≡ 0
unfolding half_up
half_up_zero d h = ground arith

pub rounded_ratio-pos : (n d : ℕ) → rounded_ratio (pos n) d ≡ pos (half_up n d)
unfolding rounded_ratio half_up ◌+ℤ◌
rounded_ratio-pos n d = ground arith

direction_negsuc : (n : ℕ) → (if ltb_ℤ (negsuc n) (pos 0) then negsuc 0 else pos 1) ≡ negsuc 0
direction_negsuc n = ground arith

rounded_ratio-negsuc : (n d : ℕ) → rounded_ratio (negsuc n) d ≡ negate (half_up (suc n) d)
unfolding rounded_ratio half_up
rounded_ratio-negsuc n d = elim (Bool-cases (leb d (suc n % d * 2))) [
  | inl e ↦ rw (absolute_negate (suc n % d), e, direction_negsuc n) (negate_step (suc n / d))
  | inr e ↦ rw (absolute_negate (suc n % d), e)
]

rounded_ratio-negate : (n d : ℕ) → 0 < d → rounded_ratio (negate n) d ≡ negate (half_up n d)
rounded_ratio-negate zero d h = rw (rounded_ratio-pos 0 d, half_up_zero d h)
rounded_ratio-negate (suc n) d h = rounded_ratio-negsuc n d

minus-negate : (k : ℕ) → minus (negate k) ≡ pos k
minus-negate zero = refl
minus-negate (suc k) = refl

magnitude-negate : (k : ℕ) → magnitude (negate k) ≡ k
magnitude-negate zero = omega arith
magnitude-negate (suc k) = omega arith

-- r times d is at most half of d away from z, and farther from 0 where it is half of d away
abbrev IsNearest : ℤ → ℕ → ℤ → Type 0
IsNearest z d r =
    let distance = magnitude (r *ℤ pos d -ℤ z) in
    (2 * distance ≤ d) × (2 * distance ≡ d → magnitude z < magnitude (r *ℤ pos d))

magnitude-sub_pos : (a b : ℕ) → magnitude (pos a -ℤ pos b) ≡ (a - b) + (b - a)
unfolding ◌-ℤ◌
magnitude-sub_pos a b = ground arith

magnitude-sub_negate : (a b : ℕ) → magnitude (negate a -ℤ negsuc b) ≡ (a - suc b) + (suc b - a)
unfolding ◌-ℤ◌
magnitude-sub_negate zero b = ground arith
magnitude-sub_negate (suc a) b = ground arith

pos-mul : (q d : ℕ) → pos q *ℤ pos d ≡ pos (q * d)
unfolding ◌*ℤ◌
pos-mul q d = ground arith

sub_ℕ_zero : (k m : ℕ) → k ≡ 0 → sub_ℕ k m ≡ negate m
sub_ℕ_zero k zero h = ground (arith, h)
sub_ℕ_zero k (suc m) h = ground (arith, h)

negate-mul : (q d : ℕ) → negate q *ℤ pos d ≡ negate (q * d)
unfolding ◌*ℤ◌
negate-mul zero d = ground arith
negate-mul (suc q) d =
    sub_ℕ_zero (0 * d + suc q * 0) (0 * 0 + suc q * d) (omega arith) ∙ ap negate (omega arith)

half_up-IsNearest-pos : (n d : ℕ) → 0 < d → IsNearest (pos n) d (pos (half_up n d))
half_up-IsNearest-pos n d h =
    let near = half_up_nearest n d h in
    rw (pos-mul (half_up n d) d, magnitude-sub_pos (half_up n d * d) n)
      (omega (arith, near), λ tie. omega (arith, near, tie))

half_up-IsNearest-negate : (n d : ℕ) → 0 < d → IsNearest (negsuc n) d (negate (half_up (suc n) d))
half_up-IsNearest-negate n d h =
    let near = half_up_nearest (suc n) d h in
    rw
      (
        negate-mul (half_up (suc n) d) d,
        magnitude-sub_negate (half_up (suc n) d * d) n,
        magnitude-negate (half_up (suc n) d * d),
      )
      (omega (arith, near), λ tie. omega (arith, near, tie))

-- For a positive divisor, the rounded ratio times the divisor, with its sign, is at most half a
-- divisor away from the numerator, and where it is half a divisor away it is farther from zero
-- than the numerator: the rounded ratio is the nearest whole number, a tie away from zero.
pub rounded_ratio_nearest :
    (z : ℤ) (d : ℕ)
    → 0 < d
    → let distance = magnitude (rounded_ratio z d *ℤ pos d -ℤ z) in
      (2 * distance ≤ d) × (2 * distance ≡ d → magnitude z < magnitude (rounded_ratio z d *ℤ pos d))
rounded_ratio_nearest (pos n) d h = rw (rounded_ratio-pos n d) (half_up-IsNearest-pos n d h)
rounded_ratio_nearest (negsuc n) d h =
    rw (rounded_ratio-negsuc n d) (half_up-IsNearest-negate n d h)

magnitude-minus : (z : ℤ) → magnitude (minus z) ≡ magnitude z
magnitude-minus (pos n) = rw (magnitude-negate n) (omega arith)
magnitude-minus (negsuc n) = omega arith

rounded_ratio-minus :
    (z : ℤ) (d : ℕ) → 0 < d → rounded_ratio (minus z) d ≡ minus (rounded_ratio z d)
rounded_ratio-minus (pos n) d h = rw (rounded_ratio-negate n d h, rounded_ratio-pos n d)
rounded_ratio-minus (negsuc n) d h =
    rw (rounded_ratio-pos (suc n) d, rounded_ratio-negsuc n d) (sym (minus-negate _))

negated-assert :
    (z : ℤ) → assert_safe_integer (int (minus z)) ≡ negated (assert_safe_integer (int z))
unfolding assert_safe_integer
negated-assert z = rw (magnitude-minus z) (ground arith)

-- For a positive divisor, rounding the negated numerator gives the negated result, or the same
-- error.
pub ratio_rounded-minus :
    (z : ℤ) (d : ℕ) → 0 < d → ratio_rounded (minus z) d ≡ negated (ratio_rounded z d)
unfolding ratio_rounded
ratio_rounded-minus z d h = rw (rounded_ratio-minus z d h) (negated-assert (rounded_ratio z d))
