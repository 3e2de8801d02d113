-- ===== src/Toc/Block.antt =====
-- `FIoStoreTocCompressedBlockEntry` of src/main.rs: 40 bits of offset, 24 bits for each size and 8
-- bits for the compression method, in 12 bytes.
use retoc.Prelude.{
  ℕ, ◌%◌, ◌^◌, ◌≡◌, refl, List, [], ◌∷◌, arith, get_or, set, take, replicate, length,
}
use retoc.Ser.Stream.{
  Reader, pure, ◌>>=◌, RoundTrips, read_exact, read_exact-append, to_le_bytes, from_le_bytes,
}
use retoc.Ser.BigEndian.{copy_from_slice}

pub record FIoStoreTocCompressedBlockEntry : Type 0 where
  pub bytes : List ℕ

unfoldable pub set_offset : FIoStoreTocCompressedBlockEntry → ℕ → FIoStoreTocCompressedBlockEntry
set_offset self value = record {
  bytes = copy_from_slice self.bytes 0 (take 5 (to_le_bytes 8 value));
}

unfoldable pub set_compressed_size :
    FIoStoreTocCompressedBlockEntry → ℕ → FIoStoreTocCompressedBlockEntry
set_compressed_size self value = record {
  bytes = copy_from_slice self.bytes 5 (take 3 (to_le_bytes 4 value));
}

unfoldable pub set_uncompressed_size :
    FIoStoreTocCompressedBlockEntry → ℕ → FIoStoreTocCompressedBlockEntry
set_uncompressed_size self value = record {
  bytes = copy_from_slice self.bytes 8 (take 3 (to_le_bytes 4 value));
}

unfoldable pub set_compression_method_index :
    FIoStoreTocCompressedBlockEntry → ℕ → FIoStoreTocCompressedBlockEntry
set_compression_method_index self value = record { bytes = set self.bytes 11 value }

unfoldable pub new : ℕ → ℕ → ℕ → ℕ → FIoStoreTocCompressedBlockEntry
new offset compressed_size uncompressed_size compression_method_index =
    let empty : FIoStoreTocCompressedBlockEntry = record { bytes = replicate 12 0 } in
    set_compression_method_index
      (set_uncompressed_size (set_compressed_size (set_offset empty offset) compressed_size)
        uncompressed_size)
      compression_method_index

unfoldable pub get_offset : FIoStoreTocCompressedBlockEntry → ℕ
get_offset self =
    let d = λ (i : ℕ). get_or self.bytes i 0 in
    from_le_bytes (d 0 ∷ d 1 ∷ d 2 ∷ d 3 ∷ d 4 ∷ 0 ∷ 0 ∷ 0 ∷ [])

unfoldable pub get_compressed_size : FIoStoreTocCompressedBlockEntry → ℕ
get_compressed_size self =
    let d = λ (i : ℕ). get_or self.bytes i 0 in from_le_bytes (d 5 ∷ d 6 ∷ d 7 ∷ 0 ∷ [])

unfoldable pub get_uncompressed_size : FIoStoreTocCompressedBlockEntry → ℕ
get_uncompressed_size self =
    let d = λ (i : ℕ). get_or self.bytes i 0 in from_le_bytes (d 8 ∷ d 9 ∷ d 10 ∷ 0 ∷ [])

unfoldable pub get_compression_method_index : FIoStoreTocCompressedBlockEntry → ℕ
get_compression_method_index self = get_or self.bytes 11 0

unfoldable pub de_block : Reader FIoStoreTocCompressedBlockEntry
de_block = do bytes ← read_exact 12; pure (record { bytes = bytes })

unfoldable pub ser_block : FIoStoreTocCompressedBlockEntry → List ℕ
ser_block self = self.bytes

pub de_block-ser_block : RoundTrips de_block ser_block (λ b. length b.bytes ≡ 12)
unfolding de_block ser_block
de_block-ser_block b rest h = rw (read_exact-append 12 b.bytes rest h)

-- A new block entry holds the low 40 bits of the offset, the low 24 bits of the sizes and the
-- method.
pub new_block_fields :
    (offset compressed_size uncompressed_size method : ℕ)
    → let b = new offset compressed_size uncompressed_size method in
      (get_offset b ≡ offset % 2 ^ 40)
      × (get_compressed_size b ≡ compressed_size % 2 ^ 24)
      × (get_uncompressed_size b ≡ uncompressed_size % 2 ^ 24)
      × (get_compression_method_index b ≡ method)
unfolding new set_offset set_compressed_size set_uncompressed_size set_compression_method_index
    get_offset get_compressed_size get_uncompressed_size get_compression_method_index to_le_bytes
    from_le_bytes copy_from_slice
new_block_fields offset compressed_size uncompressed_size method =
    (omega arith, omega arith, omega arith, refl)

pub length-new_block : (o c u m : ℕ) → length (new o c u m).bytes ≡ 12
unfolding new set_offset set_compressed_size set_uncompressed_size set_compression_method_index
    to_le_bytes copy_from_slice
length-new_block o c u m = refl
