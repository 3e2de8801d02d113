-- ===== src/Toc/File.antt =====
-- `Toc` of src/main.rs: the table of contents in memory, and how a file of it is read and written.
use retoc.Outcome
use retoc.Ser.Stream.{◌>>=◌, Reader, read_exact, pure}
use retoc.Ser.Utf.{Text}
use retoc.Directory.{FIoDirectoryIndexResource}
use retoc.Compression.{CompressionMethod}
use retoc.Toc.Header.{FIoStoreTocHeader, FGuid}
use retoc.Toc.Version.{EIoStoreTocVersion, at_least, perfect_hash_with_overflow, perfect_hash}
use retoc.Toc.ChunkId.{FIoChunkId, de_chunk_id}
use retoc.Toc.Offsets.{FIoOffsetAndLength, de_offset_and_length}
use retoc.Toc.Block.{FIoStoreTocCompressedBlockEntry, de_block}
use retoc.Toc.Meta.{FIoStoreTocEntryMeta}
use retoc.Prelude.{
  none, [], suc, zero, some, Option, List, ℕ, if◌then◌else◌, is_empty, drop, take, ◌++◌, ltb,
  length,
}
use retoc.Outcome.{Outcome, ok, out_of_fuel, panicked, missing_key}
use retoc.Prelude.Int.{ℤ}
use retoc.Ser.Arrays.{read_array}
use retoc.Ser.Words.{de_i32, de_u32}
use retoc.Toc.Maps.{Map}
use retoc.Toc.Flags

pub record TocSignatures : Type 0 where
  pub toc_signature : List ℕ
  pub block_signature : List ℕ
  pub chunk_block_signatures : List (List ℕ)

-- `Config`, for an abstract type of keys.
pub record Config (Key : Type 0) : Type 0 where
  pub aes_keys : FGuid → Option Key

pub record Toc : Type 0 where
  pub chunks : List FIoChunkId
  pub chunk_offset_lengths : List FIoOffsetAndLength
  pub chunk_perfect_hash_seeds : List ℤ
  pub chunk_indices_without_perfect_hash : List ℤ
  pub compression_blocks : List FIoStoreTocCompressedBlockEntry
  pub compression_methods : List CompressionMethod
  pub signatures : Option TocSignatures
  pub chunk_metas : List FIoStoreTocEntryMeta
  pub version : EIoStoreTocVersion
  pub container_id : ℕ
  pub compression_block_size : ℕ
  pub partition_size : ℕ
  pub partition_count : ℕ
  pub encryption_key_guid : FGuid
  pub container_flags : ℕ
  pub directory_index : FIoDirectoryIndexResource
  pub file_map : Map Text ℕ
  pub file_map_lower : Map Text ℕ
  pub file_map_rev : Map ℕ Text
  pub chunk_id_map : Map (List ℕ) ℕ

unfoldable pub read_chunk_ids : FIoStoreTocHeader → Reader (List FIoChunkId)
read_chunk_ids header = read_array header.toc_entry_count (de_chunk_id header.version)

unfoldable pub read_chunk_offsets : FIoStoreTocHeader → Reader (List FIoOffsetAndLength)
read_chunk_offsets header = read_array header.toc_entry_count de_offset_and_length

-- The counts of the header are read from the version on that has them.
unfoldable pub hash_map_counts : FIoStoreTocHeader → ℕ × ℕ
hash_map_counts header =
    if at_least header.version perfect_hash_with_overflow
    then (header.toc_chunk_perfect_hash_seeds_count, header.toc_chunks_without_perfect_hash_count)
    else (if at_least header.version perfect_hash
        then (header.toc_chunk_perfect_hash_seeds_count, 0)
        else (0, 0))

unfoldable pub read_hash_map : FIoStoreTocHeader → Reader (List ℤ × List ℤ)
read_hash_map header = do
  let counts = hash_map_counts header
  seeds ← read_array counts.0 de_i32
  indices ← read_array counts.1 de_i32
  pure (seeds, indices)

unfoldable pub read_compression_blocks :
    FIoStoreTocHeader → Reader (List FIoStoreTocCompressedBlockEntry)
read_compression_blocks header = read_array header.toc_compressed_block_entry_count de_block

unfoldable pub read_chunk_block_signatures : FIoStoreTocHeader → Reader (Option TocSignatures)
read_chunk_block_signatures header =
    if Flags.contains header.container_flags Flags.signed
    then (do
      size ← de_u32
      toc_signature ← read_exact size
      block_signature ← read_exact size
      chunk_block_signatures ← read_array header.toc_compressed_block_entry_count (read_exact 20)
      pure (
          some (record {
            toc_signature = toc_signature;
            block_signature = block_signature;
            chunk_block_signatures = chunk_block_signatures;
          })))
    else pure none

-- `for block in buf.chunks_mut(16)`: a last block of another length is no AES block, and panics.
unfoldable pub decrypt_blocks : (List ℕ → List ℕ) → ℕ → List ℕ → Outcome (List ℕ)
decrypt_blocks decrypt zero buf = if is_empty buf then ok [] else out_of_fuel
decrypt_blocks decrypt (suc fuel) buf =
    let rest =
      Outcome.bind (decrypt_blocks decrypt fuel (drop 16 buf))
        λ r. ok (decrypt (take 16 buf) ++ r) in
    if is_empty buf then ok [] else if ltb (length buf) 16 then panicked else rest
