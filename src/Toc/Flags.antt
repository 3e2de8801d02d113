-- ===== src/Toc/Flags.antt =====
-- `EIoContainerFlags` and `FIoStoreTocEntryMetaFlags` of src/main.rs. `from_bits` refuses a byte
-- with a bit that names no flag.
use retoc.Prelude.{ℕ, ◌≡◌, Bool, Option, none, some, List, bit_and, ◌==◌, if◌then◌else◌, ◌<◌, arith}
use retoc.Outcome.{invalid_data}
use retoc.Ser.Stream.{Reader, lift, ◌>>=◌, RoundTrips}
use retoc.Ser.Words.{de_u8, ser_u8, de_u8-ser_u8}
use retoc.Outcome

abbrev pub compressed : ℕ
compressed = 1

abbrev pub encrypted : ℕ
encrypted = 2

abbrev pub signed : ℕ
signed = 4

abbrev pub indexed : ℕ
indexed = 8

abbrev memory_mapped : ℕ
memory_mapped = 2

-- `flags.contains(flag)`
unfoldable pub contains : ℕ → ℕ → Bool
contains flags flag = bit_and flags flag == flag

-- `from_bits` where the flags are the lowest bits, with all of them in `all`.
unfoldable pub from_bits : ℕ → ℕ → Option ℕ
from_bits all bits = if bit_and bits all == bits then some bits else none

unfoldable pub de_container_flags : Reader ℕ
de_container_flags = do bits ← de_u8; lift (Outcome.context invalid_data (from_bits 15 bits))

unfoldable pub de_meta_flags : Reader ℕ
de_meta_flags = do bits ← de_u8; lift (Outcome.context invalid_data (from_bits 3 bits))

unfoldable pub ser_flags : ℕ → List ℕ
ser_flags bits = ser_u8 bits

-- The values that the types can hold.
abbrev pub AreFlags : ℕ → ℕ → Type 0
AreFlags all bits = (bits < 256) × (bit_and bits all ≡ bits)

from_bits-eq-some : (all bits : ℕ) → AreFlags all bits → from_bits all bits ≡ some bits
unfolding from_bits
from_bits-eq-some all bits h = ground arith

pub de_container_flags-ser_flags : RoundTrips de_container_flags ser_flags (AreFlags 15)
unfolding de_container_flags ser_flags
de_container_flags-ser_flags bits rest h =
    rw (de_u8-ser_u8 bits rest h.0, from_bits-eq-some 15 bits h)

pub de_meta_flags-ser_flags : RoundTrips de_meta_flags ser_flags (AreFlags 3)
unfolding de_meta_flags ser_flags
de_meta_flags-ser_flags bits rest h = rw (de_u8-ser_u8 bits rest h.0, from_bits-eq-some 3 bits h)
