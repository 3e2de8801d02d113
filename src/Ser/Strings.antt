-- ===== src/Ser/Strings.antt =====
-- `read_string` and `write_string` of src/ser.rs.
use native.Mathlib.Nat.{mod-eq_of_lt}
use retoc.Prelude.{
  refl, ℕ, ◌+◌, ◌-◌, ◌<◌, ◌≡◌, List, [], ◌∷◌, ◌++◌, length, append_assoc, if◌then◌else◌, arith,
  ◌==◌, ◌≢◌, ◌^◌, ◌%◌, false, true, ◌∙◌, append-nil, length-append, Bool-cases, inl, inr,
}
use retoc.Prelude.Int.{ℤ, pos, negsuc}
use retoc.Outcome.{Outcome, ok, panicked}
use retoc.Ser.Stream.{Reader, pure, lift, ◌>>=◌, read_exact, read_exact-append}
use retoc.Ser.Words.{
  de_i32, ser_i32, de_i32-ser_i32, de_u16, ser_u16, de_u16-ser_u16, ser_u8, ser_u32, de_i32-ser_u32,
}
use retoc.Ser.Arrays.{
  All, read_array, ser_array, read_array-ser_array, ser_array-append, All-append, All-map,
}
use retoc.Ser.Utf.{
  Text, is_ascii, encode_utf16, from_utf16, from_utf8_lossy, IsText, IsText-chars, IsUnit,
  encode_utf16-IsUnit, from_utf16-encode_utf16, from_utf8_lossy-ascii, IsChar,
}
use retoc.Outcome

-- `chars[..length]` with `length` the position of the first 0, or all of them.
unfoldable pub until_nul : List ℕ → List ℕ
until_nul [] = []
until_nul (c ∷ cs) = if c == 0 then [] else c ∷ until_nul cs

-- `-len` overflows at the least `i32`, and the capacity of the vector is refused in a build without
-- overflow checks.
unfoldable pub read_string : ℤ → Reader Text
read_string (negsuc n) =
    if n == 2 ^ 31 - 1
    then (λ s. panicked)
    else do chars ← read_array (n + 1) de_u16; lift (Outcome.unwrap (from_utf16 (until_nul chars)))
read_string (pos len) = do chars ← read_exact len; pure (from_utf8_lossy (until_nul chars))

-- The lengths are below 2 ^ 31 - 1 in every text that fits the memory of a run.
unfoldable pub write_string : Text → List ℕ
write_string [] = ser_u32 0
write_string (c ∷ s) =
    let value : Text = c ∷ s in
    if is_ascii value
    then ser_u32 ((length value + 1) % 2 ^ 32) ++ (value ++ ser_u8 0)
    else (let chars = encode_utf16 value in
        ser_i32 (negsuc (length chars)) ++ (ser_array ser_u16 chars ++ ser_u16 0))

unfoldable pub de_string : Reader Text
de_string = do len ← de_i32; read_string len

-- The texts whose length fits the length field.
abbrev pub IsShort : Text → Type 0
IsShort s = (length s + 1 < 2 ^ 31) × (length (encode_utf16 s) + 1 < 2 ^ 31)

until_nul-append : (cs : List ℕ) → All (λ c. c ≢ 0) cs → until_nul (cs ++ 0 ∷ []) ≡ cs
unfolding until_nul
until_nul-append [] h = refl
until_nul-append (c ∷ cs) h = ground (arith, until_nul-append cs h.1, h.0)

pub IsText-nonzero : (s : Text) → IsText s → All (λ c. c ≢ 0) s
IsText-nonzero s h = All-map (λ c. IsChar c × (c ≢ 0)) (λ c. c ≢ 0) (λ c p. p.1) s h

pub IsUnit-nonzero : (us : List ℕ) → All IsUnit us → All (λ c. c ≢ 0) us
IsUnit-nonzero us h = All-map IsUnit (λ c. c ≢ 0) (λ c p. p.1) us h

-- The units with the 0 behind them are read back.
read_array-units :
    (us rest : List ℕ)
    → All IsUnit us
    → read_array (length us + 1) de_u16 (ser_array ser_u16 us ++ (ser_u16 0 ++ rest))
      ≡ ok (us ++ 0 ∷ [], rest)
read_array-units us rest h =
    rw (← length-append us (0 ∷ []), ← append_assoc, ← units)
      (read_array-ser_array de_u16 ser_u16 (λ u. u < 2 ^ 16) de_u16-ser_u16 (us ++ 0 ∷ []) rest
        (All-append (λ u. u < 2 ^ 16) us (0 ∷ [])
          (All-map IsUnit (λ u. u < 2 ^ 16) (λ u p. p.0) us h) (omega arith, tt)))
  where
    units : ser_array ser_u16 (us ++ 0 ∷ []) ≡ ser_array ser_u16 us ++ ser_u16 0
    units = ser_array-append ser_u16 us (0 ∷ []) ∙ (unfold ser_array in rw append-nil)

read_string-ascii :
    (v : Text) (rest : List ℕ)
    → IsText v
    → is_ascii v ≡ true
    → read_string (pos (length v + 1)) (v ++ (ser_u8 0 ++ rest)) ≡ ok (v, rest)
unfolding read_string
read_string-ascii v rest text a =
    rw
      (
        ← append_assoc,
        read_exact-append (length v + 1) (v ++ ser_u8 0) rest
            (unfold ser_u8 in length-append v (0 ∷ [])),
      )
      (unfold ser_u8 in rw (until_nul-append v (IsText-nonzero v text), from_utf8_lossy-ascii v a))

read_string-wide :
    (v : Text) (rest : List ℕ)
    → IsText v
    → length (encode_utf16 v) + 1 < 2 ^ 31
    → read_string
        (negsuc (length (encode_utf16 v)))
        (ser_array ser_u16 (encode_utf16 v) ++ (ser_u16 0 ++ rest))
      ≡ ok (v, rest)
unfolding read_string
read_string-wide v rest text short =
    let units = encode_utf16-IsUnit v text in
    let small : (length (encode_utf16 v) == 2 ^ 31 - 1) ≡ false = ground arith in
    rw (
      small,
      read_array-units (encode_utf16 v) rest units,
      until_nul-append (encode_utf16 v) (IsUnit-nonzero (encode_utf16 v) units),
      from_utf16-encode_utf16 v (IsText-chars v text),
    )

-- A text of scalar values other than NUL, whose ASCII or UTF-16 length fits the length field, is
-- read back as it was written, whatever follows it.
pub de_string-write_string :
    (s rest : List ℕ) → IsText s × IsShort s → de_string (write_string s ++ rest) ≡ ok (s, rest)
unfolding de_string write_string
de_string-write_string [] rest h =
    rw (de_i32-ser_u32 0 rest (omega arith))
      (unfold read_string read_exact until_nul from_utf8_lossy in refl)
de_string-write_string (c ∷ s) rest (text, short) = elim (Bool-cases (is_ascii (c ∷ s))) [
  | inl a ↦
      rw
        (
          a,
          mod-eq_of_lt {n = length (c ∷ s) + 1} {m = 2 ^ 32} (omega arith),
          append_assoc,
          append_assoc,
          de_i32-ser_u32 (length (c ∷ s) + 1) ((c ∷ s) ++ (ser_u8 0 ++ rest)) short.0,
        )
        (read_string-ascii (c ∷ s) rest text a)
  | inr a ↦
      rw
        (
          a,
          append_assoc,
          append_assoc,
          de_i32-ser_i32 (negsuc (length (encode_utf16 (c ∷ s))))
              (ser_array ser_u16 (encode_utf16 (c ∷ s)) ++ (ser_u16 0 ++ rest)) (omega arith),
        )
        (read_string-wide (c ∷ s) rest text short.1)
]
