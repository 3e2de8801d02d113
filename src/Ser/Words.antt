-- ===== src/Ser/Words.antt =====
-- The instances of `Readable` and `Writeable` for integers and `bool`.
use retoc.Prelude.{
  ℕ, ◌^◌, ◌<◌, refl, Bool, true, false, not, List, [], ◌∷◌, arith, ◌==◌, if◌then◌else◌, ◌++◌, ◌≡◌,
  lt→ltb,
}
use retoc.Prelude.Int.{
  ℤ, of_pattern, to_pattern, InRange, of_pattern-to_pattern, to_pattern-lt, pos,
}
use retoc.Outcome.{ok, err, unexpected_eof}
use retoc.Ser.Stream.{Reader, pure, ◌>>=◌, RoundTrips, to_le_bytes, de_uint, de_uint-to_le_bytes}

unfoldable pub de_u8 : Reader ℕ
de_u8 [] = err unexpected_eof
de_u8 (b ∷ s) = ok (b, s)

unfoldable pub ser_u8 : ℕ → List ℕ
ser_u8 b = b ∷ []

unfoldable pub de_u16 : Reader ℕ
de_u16 = de_uint 2

unfoldable pub ser_u16 : ℕ → List ℕ
ser_u16 x = to_le_bytes 2 x

unfoldable pub de_u32 : Reader ℕ
de_u32 = de_uint 4

unfoldable pub ser_u32 : ℕ → List ℕ
ser_u32 x = to_le_bytes 4 x

unfoldable pub de_u64 : Reader ℕ
de_u64 = de_uint 8

unfoldable pub ser_u64 : ℕ → List ℕ
ser_u64 x = to_le_bytes 8 x

unfoldable pub de_i32 : Reader ℤ
de_i32 = do b ← de_uint 4; pure (of_pattern (2 ^ 31) b)

unfoldable pub ser_i32 : ℤ → List ℕ
ser_i32 z = to_le_bytes 4 (to_pattern (2 ^ 32) z)

unfoldable pub de_i64 : Reader ℤ
de_i64 = do b ← de_uint 8; pure (of_pattern (2 ^ 63) b)

unfoldable pub ser_i64 : ℤ → List ℕ
ser_i64 z = to_le_bytes 8 (to_pattern (2 ^ 64) z)

unfoldable pub de_bool : Reader Bool
de_bool = do n ← de_u32; pure (not (n == 0))

unfoldable pub ser_bool : Bool → List ℕ
ser_bool b = ser_u32 (if b then 1 else 0)

pub de_u8-ser_u8 : RoundTrips de_u8 ser_u8 (λ x. x < 256)
unfolding de_u8 ser_u8
de_u8-ser_u8 x rest h = refl

pub de_u16-ser_u16 : RoundTrips de_u16 ser_u16 (λ x. x < 2 ^ 16)
unfolding de_u16 ser_u16
de_u16-ser_u16 x rest h = de_uint-to_le_bytes 2 x rest h

pub de_u32-ser_u32 : RoundTrips de_u32 ser_u32 (λ x. x < 2 ^ 32)
unfolding de_u32 ser_u32
de_u32-ser_u32 x rest h = de_uint-to_le_bytes 4 x rest h

pub de_u64-ser_u64 : RoundTrips de_u64 ser_u64 (λ x. x < 2 ^ 64)
unfolding de_u64 ser_u64
de_u64-ser_u64 x rest h = de_uint-to_le_bytes 8 x rest h

pub de_i32-ser_i32 : RoundTrips de_i32 ser_i32 (InRange (2 ^ 31))
unfolding de_i32 ser_i32
de_i32-ser_i32 z rest h =
    rw (de_uint-to_le_bytes 4 (to_pattern (2 ^ 32) z) rest (to_pattern-lt (2 ^ 32) z (omega arith)))
      (rw (of_pattern-to_pattern (2 ^ 31) z h))

pub de_i64-ser_i64 : RoundTrips de_i64 ser_i64 (InRange (2 ^ 63))
unfolding de_i64 ser_i64
de_i64-ser_i64 z rest h =
    rw (de_uint-to_le_bytes 8 (to_pattern (2 ^ 64) z) rest (to_pattern-lt (2 ^ 64) z (omega arith)))
      (rw (of_pattern-to_pattern (2 ^ 63) z h))

pub de_bool-ser_bool : RoundTrips de_bool ser_bool (λ b. Unit {0})
unfolding de_bool ser_bool
de_bool-ser_bool true rest h = rw (de_u32-ser_u32 1 rest (omega arith))
de_bool-ser_bool false rest h = rw (de_u32-ser_u32 0 rest (omega arith))

-- A small length is the same as an `i32`.
pub de_i32-ser_u32 :
    (n : ℕ) (rest : List ℕ) → n < 2 ^ 31 → de_i32 (ser_u32 n ++ rest) ≡ ok (pos n, rest)
unfolding de_i32 ser_u32
de_i32-ser_u32 n rest h = rw (de_uint-to_le_bytes 4 n rest (omega arith)) (rw (lt→ltb n (2 ^ 31) h))
