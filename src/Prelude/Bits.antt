-- ===== src/Prelude/Bits.antt =====
-- `&` with masks, as arithmetic. The library defines the operation by its binary digits.
use Prim.Native.Nat.{
  ℕ, zero, suc, ◌+◌, ◌-◌, ◌*◌, ◌/◌, ◌%◌, ◌^◌, ◌≤◌, ◌<◌, min, max, bit_and, bit_or, digits,
  bit_and-bitwise, bit_or-bitwise,
}
use mathlib.Core.Path.{◌≡◌, refl, ap}
use native.Mathlib.Omega.{arith}
use native.Mathlib.Nat.{div-add-mod', div-lt_iff_lt-mul, mod-lt, mod-eq_of_lt, pow-suc, one-le-pow}

abbrev meet : ℕ → ℕ → ℕ → ℕ
meet rounds x y = digits (λ _. zero) min rounds x y

-- Rounds beyond the first operand change nothing.
meet_agree : (r s x y : ℕ) → x ≤ r → x ≤ s → meet r x y ≡ meet s x y
meet_agree zero zero x y h k = refl
meet_agree zero (suc s) zero y h k = refl
meet_agree zero (suc s) (suc x) y h k = absurd (omega arith)
meet_agree (suc r) zero zero y h k = refl
meet_agree (suc r) zero (suc x) y h k = absurd (omega arith)
meet_agree (suc r) (suc s) zero y h k = refl
meet_agree (suc r) (suc s) (suc x) y h k =
    ap (λ (t : ℕ). t * 2 + min (suc x % 2) (y % 2))
      (meet_agree r s (suc x / 2) (y / 2) (omega arith) (omega arith))

-- The lowest digit, and the digits above it.
bit_and_unroll : (x y : ℕ) → bit_and x y ≡ 2 * bit_and (x / 2) (y / 2) + min (x % 2) (y % 2)
bit_and_unroll zero y = omega (arith, bit_and-bitwise 0 y, bit_and-bitwise 0 (y / 2))
bit_and_unroll (suc x) y = omega (
  arith,
  bit_and-bitwise (suc x) y,
  bit_and-bitwise (suc x / 2) (y / 2),
  meet_agree x (suc x / 2) (suc x / 2) (y / 2) (omega arith) (omega arith),
)

-- A bound on the operand is the fuel of the halving.
and_zero_below : (n x : ℕ) → x ≤ n → bit_and x 0 ≡ 0
and_zero_below n zero h = refl
and_zero_below zero (suc x) h = absurd (omega arith)
and_zero_below (suc n) (suc x) h =
    omega (arith, bit_and_unroll (suc x) 0, and_zero_below n (suc x / 2) (omega arith))

bit_and-zero : (x : ℕ) → bit_and x 0 ≡ 0
bit_and-zero x = and_zero_below x x (omega arith)

pow_double : (c k : ℕ) → c * 2 ^ suc k ≡ 2 * (c * 2 ^ k)
pow_double c k = omega (arith, ap (λ (t : ℕ). c * t) (pow-suc 2 k))

mask_low : (k c d : ℕ) → d < 2 ^ k → bit_and (c * 2 ^ k + d) (2 ^ k - 1) ≡ d
mask_low zero c d h = omega (arith, bit_and-zero (c * 2 ^ zero + d))
mask_low (suc k) c d h = ground (
  arith,
  bit_and_unroll (c * 2 ^ suc k + d) (2 ^ suc k - 1),
  pow_double c k,
  pow-suc 2 k,
  one-le-pow k 2,
  mask_low k c (d / 2) (omega (arith, pow-suc 2 k)),
)

-- Masking by 2 ^ k - 1 is the remainder.
pub bit_and-mask : (k x : ℕ) → bit_and x (2 ^ k - 1) ≡ x % 2 ^ k
bit_and-mask k x = grind (arith, one-le-pow k 2, mask_low k (x / 2 ^ k) (x % 2 ^ k))

mask_high : (k c d m : ℕ) → d < 2 ^ k → bit_and (c * 2 ^ k + d) (m * 2 ^ k) ≡ bit_and c m * 2 ^ k
mask_high zero c d m h = ground arith
mask_high (suc k) c d m h = ground (
  arith,
  bit_and_unroll (c * 2 ^ suc k + d) (m * 2 ^ suc k),
  pow_double c k,
  pow_double m k,
  pow_double (bit_and c m) k,
  pow-suc 2 k,
  mask_high k c (d / 2) m (omega (arith, pow-suc 2 k)),
)

-- `value & !(alignment - 1)` in words of 64 bits clears the lowest `k` bits, for an alignment 2 ^ k.
bit_and-high : (k j x : ℕ) → x < 2 ^ j * 2 ^ k → bit_and x ((2 ^ j - 1) * 2 ^ k) ≡ x / 2 ^ k * 2 ^ k
bit_and-high k j x h = ground (
  arith,
  one-le-pow k 2,
  div-add-mod' x (2 ^ k),
  mod-lt x (one-le-pow k 2 (omega arith)),
  mask_high k (x / 2 ^ k) (x % 2 ^ k) (2 ^ j - 1),
  bit_and-mask j (x / 2 ^ k),
  mod-eq_of_lt ((div-lt_iff_lt-mul (one-le-pow k 2 (omega arith))).1 h),
)

abbrev join : ℕ → ℕ → ℕ → ℕ
join rounds x y = digits (λ b. b) max rounds x y

join_agree : (r s x y : ℕ) → x ≤ r → x ≤ s → join r x y ≡ join s x y
join_agree zero zero x y h k = refl
join_agree zero (suc s) zero y h k = refl
join_agree zero (suc s) (suc x) y h k = absurd (omega arith)
join_agree (suc r) zero zero y h k = refl
join_agree (suc r) zero (suc x) y h k = absurd (omega arith)
join_agree (suc r) (suc s) zero y h k = refl
join_agree (suc r) (suc s) (suc x) y h k =
    ap (λ (t : ℕ). t * 2 + max (suc x % 2) (y % 2))
      (join_agree r s (suc x / 2) (y / 2) (omega arith) (omega arith))

bit_or_unroll : (x y : ℕ) → bit_or x y ≡ 2 * bit_or (x / 2) (y / 2) + max (x % 2) (y % 2)
bit_or_unroll zero y = omega (arith, bit_or-bitwise 0 y, bit_or-bitwise 0 (y / 2))
bit_or_unroll (suc x) y = omega (
  arith,
  bit_or-bitwise (suc x) y,
  bit_or-bitwise (suc x / 2) (y / 2),
  join_agree x (suc x / 2) (suc x / 2) (y / 2) (omega arith) (omega arith),
)

or_zero_below : (n x : ℕ) → x ≤ n → bit_or x 0 ≡ x
or_zero_below zero zero h = omega (arith, bit_or-bitwise 0 0)
or_zero_below zero (suc x) h = absurd (omega arith)
or_zero_below (suc n) zero h = omega (arith, bit_or-bitwise 0 0)
or_zero_below (suc n) (suc x) h =
    omega (arith, bit_or_unroll (suc x) 0, or_zero_below n (suc x / 2) (omega arith))

-- `|` of parts that have no bit in common, the high one first.
pub bit_or-parts : (k c d : ℕ) → d < 2 ^ k → bit_or (c * 2 ^ k) d ≡ c * 2 ^ k + d
bit_or-parts zero c d h = ground (arith, or_zero_below (c * 1) (c * 1) (omega arith))
bit_or-parts (suc k) c d h = ground (
  arith,
  bit_or_unroll (c * 2 ^ suc k) d,
  pow_double c k,
  pow-suc 2 k,
  bit_or-parts k c (d / 2) (omega (arith, pow-suc 2 k)),
)

-- The same with the low part first.
pub bit_or-parts_low : (k c d : ℕ) → d < 2 ^ k → bit_or d (c * 2 ^ k) ≡ c * 2 ^ k + d
bit_or-parts_low zero c d h = ground (arith, bit_or-bitwise 0 (c * 1))
bit_or-parts_low (suc k) c d h = ground (
  arith,
  bit_or_unroll d (c * 2 ^ suc k),
  pow_double c k,
  pow-suc 2 k,
  bit_or-parts_low k c (d / 2) (omega (arith, pow-suc 2 k)),
)
