-- ===== src/Ser/BigEndian.antt =====
-- Big-endian conversions and `copy_from_slice`.
use retoc.Prelude.{ℕ, zero, suc, ◌+◌, ◌*◌, ◌/◌, ◌%◌, List, [], ◌∷◌, ◌++◌, take, drop, length}

-- `to_be_bytes` of a word of `n` bytes
unfoldable pub to_be_bytes : ℕ → ℕ → List ℕ
to_be_bytes zero x = []
to_be_bytes (suc n) x = to_be_bytes n (x / 256) ++ x % 256 ∷ []

from_be_bytes_onto : ℕ → List ℕ → ℕ
from_be_bytes_onto high [] = high
from_be_bytes_onto high (b ∷ bs) = from_be_bytes_onto (high * 256 + b) bs

unfoldable pub from_be_bytes : List ℕ → ℕ
unfolding from_be_bytes_onto
from_be_bytes bs = from_be_bytes_onto 0 bs

-- `data[i..i + n].copy_from_slice(xs)` for the `n` bytes of `xs`, inside the array
unfoldable pub copy_from_slice : List ℕ → ℕ → List ℕ → List ℕ
copy_from_slice bytes i xs = take i bytes ++ (xs ++ drop (i + length xs) bytes)
