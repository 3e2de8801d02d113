-- ===== src/Ser/Arrays.antt =====
-- Arrays and vectors: `read_array`, `ser_array`, and the instances for `[T; N]` and `Vec<T>`.
use retoc.Prelude.{
  ℕ, zero, suc, ◌%◌, ◌^◌, ◌<◌, ◌≡◌, refl, List, [], ◌∷◌, ◌++◌, length, append_assoc,
}
use retoc.Outcome.{ok}
use retoc.Ser.Stream.{Reader, pure, ◌>>=◌, RoundTrips, read_exact, read_exact-append}
use retoc.Ser.Words.{de_u32, ser_u32, de_u32-ser_u32}
use native.Mathlib.Nat.{mod-eq_of_lt}

abbrev pub All : {A : Type 0} → (A → Type 0) → List A → Type 0
All P [] = Unit
All P (x ∷ xs) = P x × All P xs

module _ {A : Type 0} where
  unfoldable pub read_array : ℕ → Reader A → Reader (List A)
  read_array zero f = pure []
  read_array (suc len) f = do x ← f; xs ← read_array len f; pure (x ∷ xs)

  unfoldable pub ser_array : (A → List ℕ) → List A → List ℕ
  ser_array w [] = []
  ser_array w (x ∷ xs) = w x ++ ser_array w xs

  unfoldable pub de_vec : Reader A → Reader (List A)
  de_vec f = do len ← de_u32; read_array len f

  unfoldable pub ser_vec : (A → List ℕ) → List A → List ℕ
  ser_vec w xs = ser_u32 (length xs % 2 ^ 32) ++ ser_array w xs

  pub read_array-ser_array :
      (f : Reader A) (w : A → List ℕ) (P : A → Type 0)
      → RoundTrips f w P
      → (xs : List A) (rest : List ℕ) → All P xs
      → read_array (length xs) f (ser_array w xs ++ rest) ≡ ok (xs, rest)
  unfolding read_array ser_array
  read_array-ser_array f w P back [] rest h = refl
  read_array-ser_array f w P back (x ∷ xs) rest h = rw (
    append_assoc,
    back x (ser_array w xs ++ rest) h.0,
    read_array-ser_array f w P back xs rest h.1,
  )

module _ {A : Type 0} where
  pub de_vec-ser_vec :
      (f : Reader A) (w : A → List ℕ) (P : A → Type 0)
      → RoundTrips f w P
      → RoundTrips (de_vec f) (ser_vec w) (λ xs. (length xs < 2 ^ 32) × All P xs)
  unfolding de_vec ser_vec
  de_vec-ser_vec f w P back xs rest h = rw (
    append_assoc,
    mod-eq_of_lt h.0,
    de_u32-ser_u32 (length xs) (ser_array w xs ++ rest) h.0,
    read_array-ser_array f w P back xs rest h.1,
  )

-- `Vec<u8>` and `[u8; N]` are read and written at once.
unfoldable pub de_bytes : Reader (List ℕ)
de_bytes = do len ← de_u32; read_exact len

unfoldable pub ser_bytes : List ℕ → List ℕ
ser_bytes xs = ser_u32 (length xs % 2 ^ 32) ++ xs

pub de_bytes-ser_bytes : RoundTrips de_bytes ser_bytes (λ xs. length xs < 2 ^ 32)
unfolding de_bytes ser_bytes
de_bytes-ser_bytes xs rest h =
    rw (append_assoc, mod-eq_of_lt h, de_u32-ser_u32 (length xs) (xs ++ rest) h)
      (read_exact-append (length xs) xs rest refl)

pub ser_array-append :
    {A : Type 0} (w : A → List ℕ) (xs ys : List A)
    → ser_array w (xs ++ ys) ≡ ser_array w xs ++ ser_array w ys
unfolding ser_array
ser_array-append w [] ys = refl
ser_array-append w (x ∷ xs) ys = rw (ser_array-append w xs ys, append_assoc)

pub All-append :
    {A : Type 0} (P : A → Type 0) (xs ys : List A) → All P xs → All P ys → All P (xs ++ ys)
All-append P [] ys h k = k
All-append P (x ∷ xs) ys h k = (h.0, All-append P xs ys h.1 k)

pub All-map :
    {A : Type 0} (P Q : A → Type 0) → ((a : A) → P a → Q a) → (xs : List A) → All P xs → All Q xs
All-map P Q f [] h = tt
All-map P Q f (x ∷ xs) h = (f x h.0, All-map P Q f xs h.1)
