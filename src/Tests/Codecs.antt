-- ===== src/Tests/Codecs.antt =====
-- The theorems on the parts of a file, at concrete inputs.
use retoc.Prelude.{◌≡◌, refl, ℕ, arith, ◌∷◌, [], List, ◌++◌}
use retoc.Outcome.{ok}
use retoc.Ser.Strings.{de_string, write_string, de_string-write_string, IsShort}
use retoc.Ser.Utf.{encode_utf16, IsText, IsChar}
use retoc.Toc.Version.{perfect_hash_with_overflow, partition_size}
use retoc.Toc.ChunkId.{
  FIoChunkIdRaw, get_chunk_id, get_raw, from_raw, FIoChunkId, create, with_version, get_chunk_type,
}
use retoc.Toc.ChunkId.Raw.{get_raw-from_raw, get_raw-with_version_new}
use retoc.Toc.ChunkType.{value-new, bulk_data}
use retoc.Toc.Block.{new_block_fields}
use retoc.Ser.Arrays.{All}
use retoc.Ser.Stream.{to_le_bytes}
use retoc.Toc.ChunkId
use retoc.Toc.ChunkType
use retoc.Toc.Block

-- `é`, and a character outside the basic plane
abbrev wide : List ℕ
wide = 0xe9 ∷ 0x1f600 ∷ []

wide_chars : All IsChar wide
wide_chars = ((omega arith, refl), ((omega arith, refl), tt))

wide-IsText : IsText wide
wide-IsText = (((omega arith, refl), omega arith), (((omega arith, refl), omega arith), tt))

wide-IsShort : IsShort wide
unfolding encode_utf16
wide-IsShort = (omega arith, omega arith)

de_string-write_string_example : de_string (write_string wide ++ 7 ∷ []) ≡ ok (wide, 7 ∷ [])
de_string-write_string_example = de_string-write_string wide (7 ∷ []) (wide-IsText, wide-IsShort)

-- Bulk data is 3 before UE5 and 2 from then on.
abbrev raw_bulk : ℕ → FIoChunkIdRaw
raw_bulk b = record { id = 1 ∷ 2 ∷ 3 ∷ 4 ∷ 5 ∷ 6 ∷ 7 ∷ 8 ∷ 0 ∷ 0 ∷ 0 ∷ b ∷ [] }

abbrev bulk_id : ℕ → FIoChunkId
bulk_id b = record { id = 1 ∷ 2 ∷ 3 ∷ 4 ∷ 5 ∷ 6 ∷ 7 ∷ 8 ∷ 0 ∷ 0 ∷ 0 ∷ b ∷ [] }

from_raw_bulk : from_raw (raw_bulk 3) partition_size ≡ ok (bulk_id 66)
unfolding from_raw ChunkType.new ChunkId.stamp
from_raw_bulk = refl

from_raw_bulk_new : from_raw (raw_bulk 2) perfect_hash_with_overflow ≡ ok (bulk_id 194)
unfolding from_raw ChunkType.new ChunkId.stamp
from_raw_bulk_new = refl

get_raw-from_raw_example : get_raw (bulk_id 66) ≡ ok (raw_bulk 3)
get_raw-from_raw_example =
    get_raw-from_raw (raw_bulk 3) partition_size (bulk_id 66) refl from_raw_bulk

get_raw-with_version_new_example :
    get_raw (with_version (bulk_id 194) partition_size) ≡ ok (raw_bulk 2)
get_raw-with_version_new_example =
    get_raw-with_version_new (raw_bulk 2) perfect_hash_with_overflow partition_size (bulk_id 194)
      refl refl from_raw_bulk_new

get_raw_created :
    get_raw (with_version (create 0x0807060504030201 0 bulk_data) partition_size) ≡ ok (raw_bulk 3)
unfolding get_raw with_version create to_le_bytes ChunkType.value ChunkId.stamp ChunkType.from_repr
get_raw_created = refl

new_block_fields_example :
    (Block.get_offset (Block.new 4096 100 200 1) ≡ 4096)
    × (Block.get_compressed_size (Block.new 4096 100 200 1) ≡ 100)
    × (Block.get_uncompressed_size (Block.new 4096 100 200 1) ≡ 200)
    × (Block.get_compression_method_index (Block.new 4096 100 200 1) ≡ 1)
new_block_fields_example = new_block_fields 4096 100 200 1
