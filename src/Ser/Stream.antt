-- ===== src/Ser/Stream.antt =====
-- Streams of bytes. A reader takes the bytes that are left and returns its value with the rest; a
-- writer is the list of bytes that it appends.
use retoc.Prelude.{
  ℕ, zero, suc, ◌+◌, ◌*◌, ◌/◌, ◌%◌, ◌^◌, ◌<◌, ◌≡◌, refl, ap, List, [], ◌∷◌, ◌++◌, arith, length,
}
use retoc.Outcome
use retoc.Outcome.{Outcome, ok, err, unexpected_eof}
use native.Mathlib.Nat.{pow-suc}

abbrev pub Reader {ℓ} : Type ℓ → Type ℓ
Reader A = List ℕ → Outcome (A × List ℕ)

abbrev pub pure {ℓ} : {A : Type ℓ} → A → Reader A
pure a s = ok (a, s)

-- Code that may fail and reads nothing.
abbrev pub lift {ℓ} : {A : Type ℓ} → Outcome A → Reader A
lift m s = Outcome.bind m (λ a. ok (a, s))

infixl 5 ◌>>=◌ ◌>>◌
abbrev pub ◌>>=◌ {ℓ κ} : {A : Type ℓ} {B : Type κ} → Reader A → (A → Reader B) → Reader B
◌>>=◌ m f s = Outcome.bind (m s) (λ (a, r). f a r)

abbrev pub ◌>>◌ {ℓ κ} : {A : Type ℓ} {B : Type κ} → Reader A → Reader B → Reader B
m >> k = m >>= λ _. k

-- `r` reads back what `w` writes, whatever follows it, for the values that `P` admits.
abbrev pub RoundTrips : {A : Type 0} → Reader A → (A → List ℕ) → (A → Type 0) → Type 0
RoundTrips {A} r w P = (a : A) (rest : List ℕ) → P a → r (w a ++ rest) ≡ ok (a, rest)

unfoldable pub read_exact : ℕ → Reader (List ℕ)
read_exact zero s = ok ([], s)
read_exact (suc n) [] = err unexpected_eof
read_exact (suc n) (b ∷ s) = Outcome.bind (read_exact n s) (λ (bs, r). ok (b ∷ bs, r))

pub read_exact-append :
    (n : ℕ) (xs rest : List ℕ) → length xs ≡ n → read_exact n (xs ++ rest) ≡ ok (xs, rest)
unfolding read_exact
read_exact-append zero [] rest h = refl
read_exact-append zero (x ∷ xs) rest h = absurd (omega arith)
read_exact-append (suc n) [] rest h = absurd (omega arith)
read_exact-append (suc n) (x ∷ xs) rest h = rw (read_exact-append n xs rest (omega arith))

-- The bytes of `x`, lowest first: `to_le_bytes` of a word of `n` bytes.
unfoldable pub to_le_bytes : ℕ → ℕ → List ℕ
to_le_bytes zero x = []
to_le_bytes (suc n) x = x % 256 ∷ to_le_bytes n (x / 256)

unfoldable pub from_le_bytes : List ℕ → ℕ
from_le_bytes [] = 0
from_le_bytes (b ∷ bs) = b + 256 * from_le_bytes bs

length-to_le_bytes : (n x : ℕ) → length (to_le_bytes n x) ≡ n
unfolding to_le_bytes
length-to_le_bytes zero x = refl
length-to_le_bytes (suc n) x = ap suc (length-to_le_bytes n (x / 256))

pub from_le_bytes-to_le_bytes : (n x : ℕ) → x < 256 ^ n → from_le_bytes (to_le_bytes n x) ≡ x
unfolding to_le_bytes from_le_bytes
from_le_bytes-to_le_bytes zero x h = omega arith
from_le_bytes-to_le_bytes (suc n) x h =
    omega
      (arith, pow-suc 256 n, from_le_bytes-to_le_bytes n (x / 256) (omega (arith, pow-suc 256 n)))

-- A little-endian word of `n` bytes.
unfoldable pub de_uint : ℕ → Reader ℕ
de_uint n = do bs ← read_exact n; pure (from_le_bytes bs)

pub de_uint-to_le_bytes :
    (n x : ℕ) (rest : List ℕ) → x < 256 ^ n → de_uint n (to_le_bytes n x ++ rest) ≡ ok (x, rest)
unfolding de_uint
de_uint-to_le_bytes n x rest h =
    rw (read_exact-append n (to_le_bytes n x) rest (length-to_le_bytes n x))
      (rw (from_le_bytes-to_le_bytes n x h))
