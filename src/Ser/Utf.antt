-- ===== src/Ser/Utf.antt =====
-- The conversions of texts that `read_string` and `write_string` call: UTF-16 and UTF-8, as the
-- standard library of Rust does them. A text is the list of its code points.
use retoc.Prelude.{
  map, ℕ, zero, suc, ◌+◌, ◌-◌, ◌*◌, ◌/◌, ◌%◌, ◌<◌, ◌≤◌, ◌≡◌, ◌≢◌, refl, Bool, true, false, ◌&&◌,
  Option, none, some, List, [], ◌∷◌, ◌++◌, arith, ltb, leb, ◌==◌, if◌then◌else◌, ap, ◌⊎◌, ◌^◌, inl,
  inr, length,
}
use retoc.Ser.Arrays.{All}
use mathlib.Core.Option

abbrev pub Text : Type 0
Text = List ℕ

abbrev between : ℕ → ℕ → ℕ → Bool
between lo hi x = leb lo x && leb x hi

-- `char::is_ascii` on every character
unfoldable pub is_ascii : Text → Bool
is_ascii [] = true
is_ascii (c ∷ s) = ltb c 128 && is_ascii s

encode_char : ℕ → List ℕ
encode_char c =
    if ltb c 0x10000
    then c ∷ []
    else (0xd800 + (c - 0x10000) / 1024) ∷ (0xdc00 + (c - 0x10000) % 1024) ∷ []

-- `str::encode_utf16`
unfoldable pub encode_utf16 : Text → List ℕ
unfolding encode_char
encode_utf16 [] = []
encode_utf16 (c ∷ s) = encode_char c ++ encode_utf16 s

pub length-encode_utf16 : (s : Text) → is_ascii s ≡ false → 0 < length (encode_utf16 s)
unfolding is_ascii encode_utf16 encode_char
length-encode_utf16 [] h = grind arith
length-encode_utf16 (c ∷ s) h = ground arith

-- `String::from_utf16`; `none` is its error.
unfoldable pub from_utf16 : List ℕ → Option Text
from_utf16 [] = some []
from_utf16 (u ∷ []) = if between 0xd800 0xdfff u then none else some (u ∷ [])
from_utf16 (u ∷ w ∷ us) =
    let alone = Option.map (λ s. u ∷ s) (from_utf16 (w ∷ us)) in
    let pair =
      Option.map (λ s. (0x10000 + ((u - 0xd800) * 1024 + (w - 0xdc00))) ∷ s) (from_utf16 us) in
    if between 0xd800 0xdfff u
    then (if ltb u 0xdc00 && between 0xdc00 0xdfff w then pair else none)
    else alone

is_continuation : ℕ → Bool
is_continuation c = between 0x80 0xbf c

-- The character at the front of a UTF-8 sequence and the number of bytes taken behind the first.
-- With `none` these bytes are the longest prefix of a well-formed sequence.
two : ℕ → List ℕ → Option ℕ × ℕ
two b [] = (none, 0)
two b (c ∷ r) = if is_continuation c then (some ((b - 0xc0) * 64 + (c - 0x80)), 1) else (none, 0)

three_last : ℕ → ℕ → List ℕ → Option ℕ × ℕ
three_last b c [] = (none, 1)
three_last b c (d ∷ r) =
    if is_continuation d
    then (some ((b - 0xe0) * 4096 + (c - 0x80) * 64 + (d - 0x80)), 2)
    else (none, 1)

three_second : ℕ → ℕ → Bool
three_second b c =
    if b == 0xe0
    then between 0xa0 0xbf c
    else if b == 0xed
    then between 0x80 0x9f c
    else is_continuation c

three : ℕ → List ℕ → Option ℕ × ℕ
three b [] = (none, 0)
three b (c ∷ r) = if three_second b c then three_last b c r else (none, 0)

four_last : ℕ → ℕ → ℕ → List ℕ → Option ℕ × ℕ
four_last b c d [] = (none, 2)
four_last b c d (e ∷ r) =
    if is_continuation e
    then (some ((b - 0xf0) * 262144 + (c - 0x80) * 4096 + (d - 0x80) * 64 + (e - 0x80)), 3)
    else (none, 2)

four_third : ℕ → ℕ → List ℕ → Option ℕ × ℕ
four_third b c [] = (none, 1)
four_third b c (d ∷ r) = if is_continuation d then four_last b c d r else (none, 1)

four_second : ℕ → ℕ → Bool
four_second b c =
    if b == 0xf0
    then between 0x90 0xbf c
    else if b == 0xf4
    then between 0x80 0x8f c
    else is_continuation c

four : ℕ → List ℕ → Option ℕ × ℕ
four b [] = (none, 0)
four b (c ∷ r) = if four_second b c then four_third b c r else (none, 0)

decode_first : ℕ → List ℕ → Option ℕ × ℕ
decode_first b r =
    if ltb b 0x80
    then (some b, 0)
    else if between 0xc2 0xdf b
    then two b r
    else if between 0xe0 0xef b
    then three b r
    else if between 0xf0 0xf4 b
    then four b r
    else (none, 0)

-- The characters of a sequence of bytes, with `none` for each maximal ill-formed part. The first
-- argument is the number of bytes that belong to the character before.
decode_utf8 : ℕ → List ℕ → List (Option ℕ)
decode_utf8 skip [] = []
decode_utf8 zero (b ∷ r) = let (c, skip) = decode_first b r in c ∷ decode_utf8 skip r
decode_utf8 (suc skip) (b ∷ r) = decode_utf8 skip r

replace_invalid : List (Option ℕ) → Text
replace_invalid [] = []
replace_invalid (none ∷ cs) = 0xfffd ∷ replace_invalid cs
replace_invalid (some c ∷ cs) = c ∷ replace_invalid cs

all_valid : List (Option ℕ) → Option Text
all_valid [] = some []
all_valid (none ∷ cs) = none
all_valid (some c ∷ cs) = Option.map (λ s. c ∷ s) (all_valid cs)

-- `String::from_utf8_lossy`
unfoldable pub from_utf8_lossy : List ℕ → Text
unfolding replace_invalid decode_utf8 decode_first two three three_last three_second four four_last
    four_third four_second is_continuation
from_utf8_lossy bytes = replace_invalid (decode_utf8 0 bytes)

-- `String::from_utf8`
unfoldable pub from_utf8 : List ℕ → Option Text
unfolding all_valid decode_utf8 decode_first two three three_last three_second four four_last
    four_third four_second is_continuation
from_utf8 bytes = all_valid (decode_utf8 0 bytes)

-- A Unicode scalar value.
abbrev pub IsChar : ℕ → Type 0
IsChar c = (c < 0x110000) × (between 0xd800 0xdfff c ≡ false)

decode_utf8-ascii : (s : Text) → is_ascii s ≡ true → decode_utf8 0 s ≡ map some s
unfolding decode_utf8 decode_first is_ascii
decode_utf8-ascii [] h = refl
decode_utf8-ascii (c ∷ s) h = ground (arith, decode_utf8-ascii s)

replace_invalid-map-some : (s : Text) → replace_invalid (map some s) ≡ s
unfolding replace_invalid
replace_invalid-map-some [] = refl
replace_invalid-map-some (c ∷ s) = ap (λ r. c ∷ r) (replace_invalid-map-some s)

all_valid-map-some : (s : Text) → all_valid (map some s) ≡ some s
unfolding all_valid
all_valid-map-some [] = refl
all_valid-map-some (c ∷ s) = rw (all_valid-map-some s)

pub from_utf8_lossy-ascii : (s : Text) → is_ascii s ≡ true → from_utf8_lossy s ≡ s
from_utf8_lossy-ascii s h =
    unfold from_utf8_lossy in rw (decode_utf8-ascii s h) (replace_invalid-map-some s)

from_utf8-ascii : (s : Text) → is_ascii s ≡ true → from_utf8 s ≡ some s
from_utf8-ascii s h = unfold from_utf8 in rw (decode_utf8-ascii s h) (all_valid-map-some s)

from_utf16-unit :
    (u : ℕ) (us : List ℕ)
    → between 0xd800 0xdfff u ≡ false
    → from_utf16 (u ∷ us) ≡ Option.map (λ s. u ∷ s) (from_utf16 us)
unfolding from_utf16
from_utf16-unit u [] h = rw h
from_utf16-unit u (w ∷ us) h = rw h

from_utf16-pair :
    (u w : ℕ) (us : List ℕ)
    → (0xd800 ≤ u) × (u < 0xdc00) × (0xdc00 ≤ w) × (w ≤ 0xdfff)
    → from_utf16 (u ∷ w ∷ us)
      ≡ Option.map (λ s. (0x10000 + ((u - 0xd800) * 1024 + (w - 0xdc00))) ∷ s) (from_utf16 us)
unfolding from_utf16
from_utf16-pair u w us h = ground arith

encode_char_cases :
    (c : ℕ)
    → ((encode_char c ≡ c ∷ []) × (c < 0x10000))
      ⊎ ((encode_char c ≡ (0xd800 + (c - 0x10000) / 1024) ∷ (0xdc00 + (c - 0x10000) % 1024) ∷ [])
          × (0x10000 ≤ c))
unfolding encode_char
encode_char_cases c = ground arith

-- Decoding the UTF-16 encoding of a text of scalar values gives the text.
pub from_utf16-encode_utf16 : (s : Text) → All IsChar s → from_utf16 (encode_utf16 s) ≡ some s
unfolding encode_utf16
from_utf16-encode_utf16 [] h = unfold from_utf16 in refl
from_utf16-encode_utf16 (c ∷ s) h = elim (encode_char_cases c) [
  | inl e ↦ rw (e.0, from_utf16-unit c (encode_utf16 s) h.0.1, from_utf16-encode_utf16 s h.1)
  | inr e ↦
      let range : c < 0x110000 = h.0.0 in
      rw
        (
          e.0,
          from_utf16-pair (0xd800 + (c - 0x10000) / 1024) (0xdc00 + (c - 0x10000) % 1024)
              (encode_utf16 s) (omega arith),
          from_utf16-encode_utf16 s h.1,
        )
        (ap (λ d. some (d ∷ s)) (omega arith))
]

-- A text that a string field can carry: scalar values, and no NUL.
abbrev pub IsText : Text → Type 0
IsText s = All (λ c. IsChar c × (c ≢ 0)) s

abbrev pub IsUnit : ℕ → Type 0
IsUnit u = (u < 2 ^ 16) × (u ≢ 0)

pub IsText-chars : (s : Text) → IsText s → All IsChar s
IsText-chars [] h = tt
IsText-chars (c ∷ s) h = (h.0.0, IsText-chars s h.1)

-- The units of an encoded text are words, and none is 0.
pub encode_utf16-IsUnit : (s : Text) → IsText s → All IsUnit (encode_utf16 s)
unfolding encode_utf16
encode_utf16-IsUnit [] h = tt
encode_utf16-IsUnit (c ∷ s) h =
    let range : c < 0x110000 = h.0.0.0 in
    let nonzero : c ≢ 0 = h.0.1 in
    elim (encode_char_cases c) [
      | inl e ↦ rw e.0 ((omega arith, nonzero), encode_utf16-IsUnit s h.1)
      | inr e ↦
          rw e.0
            ((omega arith, omega arith), ((omega arith, omega arith), encode_utf16-IsUnit s h.1))
    ]
