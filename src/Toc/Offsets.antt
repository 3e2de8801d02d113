-- ===== src/Toc/Offsets.antt =====
-- `FIoOffsetAndLength` of src/main.rs: two big-endian fields of 40 bits, in 10 bytes.
use retoc.Prelude.{ℕ, ◌%◌, ◌^◌, ◌≡◌, refl, List, [], ◌∷◌, arith, get_or, drop, replicate, length}
use retoc.Ser.Stream.{Reader, pure, ◌>>=◌, RoundTrips, read_exact, read_exact-append}
use retoc.Ser.BigEndian.{to_be_bytes, from_be_bytes, copy_from_slice}

pub record FIoOffsetAndLength : Type 0 where
  pub bytes : List ℕ

unfoldable pub set_offset : FIoOffsetAndLength → ℕ → FIoOffsetAndLength
set_offset self offset = record {
  bytes = copy_from_slice self.bytes 0 (drop 3 (to_be_bytes 8 offset));
}

unfoldable pub set_length : FIoOffsetAndLength → ℕ → FIoOffsetAndLength
set_length self offset = record {
  bytes = copy_from_slice self.bytes 5 (drop 3 (to_be_bytes 8 offset));
}

unfoldable pub new : ℕ → ℕ → FIoOffsetAndLength
new offset size = set_length (set_offset (record { bytes = replicate 10 0 }) offset) size

unfoldable pub get_offset : FIoOffsetAndLength → ℕ
get_offset self =
    let d = λ (i : ℕ). get_or self.bytes i 0 in
    from_be_bytes (0 ∷ 0 ∷ 0 ∷ d 0 ∷ d 1 ∷ d 2 ∷ d 3 ∷ d 4 ∷ [])

unfoldable pub get_length : FIoOffsetAndLength → ℕ
get_length self =
    let d = λ (i : ℕ). get_or self.bytes i 0 in
    from_be_bytes (0 ∷ 0 ∷ 0 ∷ d 5 ∷ d 6 ∷ d 7 ∷ d 8 ∷ d 9 ∷ [])

unfoldable pub de_offset_and_length : Reader FIoOffsetAndLength
de_offset_and_length = do bytes ← read_exact 10; pure (record { bytes = bytes })

unfoldable pub ser_offset_and_length : FIoOffsetAndLength → List ℕ
ser_offset_and_length self = self.bytes

pub de_offset_and_length-ser_offset_and_length :
    RoundTrips de_offset_and_length ser_offset_and_length (λ o. length o.bytes ≡ 10)
unfolding de_offset_and_length ser_offset_and_length
de_offset_and_length-ser_offset_and_length o rest h = rw (read_exact-append 10 o.bytes rest h)

-- A new entry holds the low 40 bits of the offset and of the length.
new_offset_fields :
    (offset size : ℕ)
    → (get_offset (new offset size) ≡ offset % 2 ^ 40)
      × (get_length (new offset size) ≡ size % 2 ^ 40)
unfolding new set_offset set_length get_offset get_length to_be_bytes from_be_bytes copy_from_slice
new_offset_fields offset size = (omega arith, omega arith)

pub length-new_offset : (o l : ℕ) → length (new o l).bytes ≡ 10
unfolding new set_offset set_length to_be_bytes copy_from_slice
length-new_offset o l = refl
