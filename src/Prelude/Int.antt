-- ===== src/Prelude/Int.antt =====
-- Signed integers over the native numbers, and the two's complement patterns of `i16` and `i32`.
use Prim.Native.Nat.{ℕ, zero, suc, ◌+◌, ◌-◌, ◌%◌, ◌<◌, ◌^◌}
use mathlib.Core.Path.{◌≡◌}
use mathlib.Core.Bool.{Bool, true, false, ◌&&◌}
use native.Mathlib.Omega.{arith}
use native.Mathlib.Nat.{mod-eq_of_lt}
use retoc.Prelude.Tests.{lt→ltb, ltb, leb, if◌then◌else◌}

-- `negsuc n` is -(n + 1).
pub data ℤ : Type 0 where
  pos : ℕ → ℤ
  negsuc : ℕ → ℤ

abbrev pub is_negative : ℤ → Bool
is_negative (pos n) = false
is_negative (negsuc n) = true

-- -z
abbrev pub neg : ℤ → ℤ
neg (pos zero) = pos 0
neg (pos (suc n)) = negsuc n
neg (negsuc n) = pos (suc n)

abbrev pub eq_ℤ : ℤ → ℤ → Bool
eq_ℤ (pos a) (pos b) = leb a b && leb b a
eq_ℤ (negsuc a) (negsuc b) = leb a b && leb b a
eq_ℤ _ _ = false

-- a <= b
abbrev pub leb_ℤ : ℤ → ℤ → Bool
leb_ℤ (pos a) (pos b) = leb a b
leb_ℤ (pos a) (negsuc b) = false
leb_ℤ (negsuc a) (pos b) = true
leb_ℤ (negsuc a) (negsuc b) = leb b a

-- z - 1
abbrev pub pred_ℤ : ℤ → ℤ
pred_ℤ (pos zero) = negsuc 0
pred_ℤ (pos (suc n)) = pos n
pred_ℤ (negsuc n) = negsuc (suc n)

-- z + 1
abbrev pub succ_ℤ : ℤ → ℤ
succ_ℤ (pos n) = pos (suc n)
succ_ℤ (negsuc zero) = pos 0
succ_ℤ (negsuc (suc n)) = negsuc n

-- The value as a `usize` where it is not negative.
abbrev magnitude : ℤ → ℕ
magnitude (pos n) = n
magnitude (negsuc n) = suc n

-- a - b
abbrev sub_ℕ : ℕ → ℕ → ℤ
sub_ℕ a b = if leb b a then pos (a - b) else negsuc (b - a - 1)

-- a + b
abbrev pub add_ℤ : ℤ → ℤ → ℤ
add_ℤ (pos a) (pos b) = pos (a + b)
add_ℤ (pos a) (negsuc b) = sub_ℕ a (suc b)
add_ℤ (negsuc a) (pos b) = sub_ℕ b (suc a)
add_ℤ (negsuc a) (negsuc b) = negsuc (suc (a + b))

-- The bit pattern in words below `m`, a power of two.
abbrev pub to_pattern : ℕ → ℤ → ℕ
to_pattern m (pos n) = n % m
to_pattern m (negsuc n) = m - 1 - n % m

-- The number that a bit pattern below `m` stands for; `h` is half of `m`.
abbrev pub of_pattern : ℕ → ℕ → ℤ
of_pattern h b = if ltb b h then pos b else negsuc (h + h - b - 1)

abbrev pub InRange : ℕ → ℤ → Type 0
InRange h (pos n) = n < h
InRange h (negsuc n) = n < h

pub of_pattern-to_pattern : (h : ℕ) (z : ℤ) → InRange h z → of_pattern h (to_pattern (h + h) z) ≡ z
of_pattern-to_pattern h (pos n) r = ground (arith, mod-eq_of_lt {n = n} {m = h + h} (omega arith))
of_pattern-to_pattern h (negsuc n) r =
    ground (arith, mod-eq_of_lt {n = n} {m = h + h} (omega arith))

pub to_pattern-lt : (m : ℕ) (z : ℤ) → 0 < m → to_pattern m z < m
to_pattern-lt m (pos n) r = grind arith
to_pattern-lt m (negsuc n) r = grind arith

-- The result of `i32` arithmetic without overflow checks.
abbrev pub wrap_i32 : ℤ → ℤ
wrap_i32 z = of_pattern (2 ^ 31) (to_pattern (2 ^ 32) z)

-- `x as i32` for a `u32`
abbrev pub as_i32 : ℕ → ℤ
as_i32 x = of_pattern (2 ^ 31) x

-- `z as u32` for an `i32`
abbrev pub as_u32 : ℤ → ℕ
as_u32 z = to_pattern (2 ^ 32) z

pub wrap_i32_small : (z : ℤ) → InRange (2 ^ 31) z → wrap_i32 z ≡ z
wrap_i32_small z h = of_pattern-to_pattern (2 ^ 31) z h

pub as_i32_small : (x : ℕ) → x < 2 ^ 31 → as_i32 x ≡ pos x
as_i32_small x h = rw (lt→ltb x (2 ^ 31) h)
