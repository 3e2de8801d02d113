-- ===== src/Compression.antt =====
-- `CompressionMethod` of src/compression.rs, and its names in a table of contents (src/main.rs). The
-- codecs themselves are libraries.
use retoc.Ser.Utf.{Text, from_utf8}
use retoc.Outcome.{unknown_method, invalid_utf8, ok}
use retoc.Prelude.{
  List, Option, list_eq, ◌≡◌, map, codes, ℕ, Bool, if◌then◌else◌, length, ◌∷◌, take, some, none,
  leb, ◌==◌, ◌++◌, ◌↔◌, [], replicate, ◌&&◌, ◌+◌, refl, list_eq_iff, true, arith,
}
use retoc.Ser.Stream.{Reader, read_exact, ◌>>=◌, lift, RoundTrips}
use retoc.Ser.Arrays.{ser_array, read_array, All, read_array-ser_array}
use retoc.Outcome

pub data CompressionMethod : Type 0 where
  zlib zstd lz4 oodle : CompressionMethod

-- `CompressionMethod::VARIANTS`
abbrev variants : List CompressionMethod
variants = zlib ∷ zstd ∷ lz4 ∷ oodle ∷ []

-- `as_ref`
abbrev pub name : CompressionMethod → Text
name zlib = codes "Zlib"
name zstd = codes "Zstd"
name lz4 = codes "LZ4"
name oodle = codes "Oodle"

pub to_lower : ℕ → ℕ
to_lower c = if leb 65 c && leb c 90 then c + 32 else c

-- `str::to_ascii_lowercase`
unfoldable pub to_ascii_lowercase : Text → Text
unfolding to_lower
to_ascii_lowercase s = map to_lower s

unfoldable pub eq_ignore_ascii_case : Text → Text → Bool
eq_ignore_ascii_case a b = list_eq (to_ascii_lowercase a) (to_ascii_lowercase b)

find_name : Text → List CompressionMethod → Option CompressionMethod
find_name value [] = none
find_name value (v ∷ vs) =
    if eq_ignore_ascii_case (name v) value then some v else find_name value vs

unfoldable pub from_str_ignore_case : Text → Option CompressionMethod
unfolding find_name
from_str_ignore_case value = find_name value variants

-- The bytes before the first 0.
take_while_nonzero : List ℕ → List ℕ
take_while_nonzero [] = []
take_while_nonzero (b ∷ bs) = if b == 0 then [] else b ∷ take_while_nonzero bs

unfoldable pub read_compression_method : ℕ → Reader CompressionMethod
unfolding take_while_nonzero
read_compression_method name_length = do
  buffer ← read_exact name_length
  name ← lift (Outcome.context invalid_utf8 (from_utf8 (take_while_nonzero buffer)))
  lift (Outcome.context unknown_method (from_str_ignore_case name))

unfoldable pub read_compression_methods : ℕ → ℕ → Reader (List CompressionMethod)
read_compression_methods name_count name_length =
    read_array name_count (read_compression_method name_length)

-- The name, with zeros up to 32 bytes.
unfoldable pub write_compression_method : CompressionMethod → List ℕ
write_compression_method method = take 32 (name method ++ replicate 32 0)

unfoldable pub write_compression_methods : List CompressionMethod → List ℕ
write_compression_methods methods = ser_array write_compression_method methods

read_compression_method-write_compression_method :
    RoundTrips (read_compression_method 32) write_compression_method (λ m. Unit {0})
unfolding read_compression_method write_compression_method from_utf8 from_str_ignore_case
    eq_ignore_ascii_case to_ascii_lowercase list_eq read_exact
read_compression_method-write_compression_method zlib rest h = refl
read_compression_method-write_compression_method zstd rest h = refl
read_compression_method-write_compression_method lz4 rest h = refl
read_compression_method-write_compression_method oodle rest h = refl

-- The 32-byte names that are written for any methods are read back as the methods.
pub read_compression_methods-write_compression_methods :
    (methods : List CompressionMethod) (rest : List ℕ)
    → read_compression_methods (length methods) 32 (write_compression_methods methods ++ rest)
      ≡ ok (methods, rest)
unfolding read_compression_methods write_compression_methods
read_compression_methods-write_compression_methods methods rest =
    read_array-ser_array (read_compression_method 32) write_compression_method (λ m. Unit {0})
      read_compression_method-write_compression_method methods rest (All-true methods)
  where
    All-true : (ms : List CompressionMethod) → All (λ m. Unit {0}) ms
    All-true [] = tt
    All-true (m ∷ ms) = (tt, All-true ms)

find_name-eq_some :
    (value : Text) (m : CompressionMethod) (vs : List CompressionMethod)
    → find_name value vs ≡ some m
    → eq_ignore_ascii_case (name m) value ≡ true
unfolding find_name
find_name-eq_some value m [] h = cc
find_name-eq_some value m (v ∷ vs) h = ground (arith, find_name-eq_some value m vs)

find_name_complete :
    (value : Text) (m : CompressionMethod)
    → to_ascii_lowercase (name m) ≡ to_ascii_lowercase value
    → find_name value variants ≡ some m
unfolding find_name eq_ignore_ascii_case to_ascii_lowercase list_eq
find_name_complete value zlib h = rw (← h)
find_name_complete value zstd h = rw (← h)
find_name_complete value lz4 h = rw (← h)
find_name_complete value oodle h = rw (← h)

-- A method is found for a name exactly when the name is the method's, but for the case of letters.
from_str_ignore_case-eq_some :
    (value : Text) (m : CompressionMethod)
    → (from_str_ignore_case value ≡ some m)
      ↔ (to_ascii_lowercase (name m) ≡ to_ascii_lowercase value)
unfolding from_str_ignore_case eq_ignore_ascii_case
from_str_ignore_case-eq_some value m =
    (λ h. (list_eq_iff _ _).0 (find_name-eq_some value m variants h), find_name_complete value m)
