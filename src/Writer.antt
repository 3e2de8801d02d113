-- ===== src/Writer.antt =====
-- `IoStoreWriter` of src/iostore_writer.rs, without a container header: the writer of chunks. The
-- two files are the table of contents in memory and the bytes of the container. blake3 and the path
-- library are parameters: `strip_prefix` gives the components of a path below the mount point.
pub mod Blocks
pub mod ReadBack
use retoc.Outcome
use retoc.Outcome.{◌>>=◌, ◌>>◌, Outcome, ok, panicked}
use retoc.Ser.Utf.{Text}
use retoc.Directory.Add.{add_file}
use retoc.Toc.File.{Toc}
use retoc.Toc.ChunkId.{FIoChunkId, FIoChunkIdRaw, from_raw, with_version}
use retoc.Toc.Version.{EIoStoreTocVersion}
use retoc.Toc.Meta.{from_blake3}
use retoc.Toc.Codec.{no_guid}
use retoc.Toc.Block.{FIoStoreTocCompressedBlockEntry}
use retoc.Prelude.{
  ◌∷◌, [], some, zero, none, suc, List, ℕ, length, Option, ◌++◌, ◌^◌, drop, if◌then◌else◌, ◌*◌, ◌-◌,
  ◌+◌, ◌==◌, is_empty, take, ◌%◌,
}
use retoc.Directory
use retoc.Toc.Offsets
use retoc.Toc.Block

pub record IoStoreWriter : Type 0 where
  pub cas_stream : List ℕ
  pub toc : Toc

-- The container id is the hash of the file's name, an argument here.
unfoldable pub new : EIoStoreTocVersion → ℕ → Text → IoStoreWriter
new toc_version container_id mount_point = record {
  cas_stream = [];
  toc = record {
    chunks = [];
    chunk_offset_lengths = [];
    chunk_perfect_hash_seeds = [];
    chunk_indices_without_perfect_hash = [];
    compression_blocks = [];
    compression_methods = [];
    signatures = none;
    chunk_metas = [];
    version = toc_version;
    container_id = container_id;
    compression_block_size = 0x10000;
    partition_size = 2 ^ 64 - 1;
    partition_count = 0;
    encryption_key_guid = no_guid;
    container_flags = 0;
    directory_index = record Directory.empty { mount_point = mount_point };
    file_map = λ k. none;
    file_map_lower = λ k. none;
    file_map_rev = λ k. none;
    chunk_id_map = λ k. none;
  };
}

-- `data.chunks(size)`: the last chunk may be shorter. The rounds are the length of the data.
unfoldable pub chunks_of : ℕ → ℕ → List ℕ → List (List ℕ)
chunks_of size zero bytes = []
chunks_of size (suc rounds) bytes =
    let rest = chunks_of size rounds (drop size bytes) in
    if is_empty bytes then [] else take size bytes ∷ rest

-- The loop over the blocks: one entry for each, stored as it is, at the offset where it goes.
unfoldable pub block_entries : ℕ → List (List ℕ) → List FIoStoreTocCompressedBlockEntry
block_entries offset [] = []
block_entries offset (block ∷ blocks) =
    Block.new offset (length block) (length block) 0 ∷ block_entries (offset + length block) blocks

unfoldable pub concat : List (List ℕ) → List ℕ
concat [] = []
concat (block ∷ blocks) = block ++ concat blocks

module _ (blake3 : List ℕ → List ℕ) (strip_prefix : Text → Text → Option (List Text)) where
  unfoldable index_path : Toc → Option Text → Outcome Toc
  index_path toc none = ok toc
  index_path toc (some path) = do
    relative ← Outcome.context Outcome.bad_path (strip_prefix toc.directory_index.mount_point path)
    index ← add_file toc.directory_index relative (length toc.chunks % 2 ^ 32)
    ok (record toc { directory_index = index })

  -- What follows the path: blocks, hash, and the entry of the chunk.
  unfoldable pub append_chunk : IoStoreWriter → FIoChunkId → List ℕ → IoStoreWriter
  append_chunk self chunk_id bytes =
      let toc = self.toc in
      let start_block = length toc.compression_blocks in
      let blocks = chunks_of toc.compression_block_size (length bytes) bytes in
      record {
        cas_stream = self.cas_stream ++ concat blocks;
        toc = record toc {
          compression_blocks =
              toc.compression_blocks ++ block_entries (length self.cas_stream) blocks;
          chunks = toc.chunks ++ with_version chunk_id toc.version ∷ [];
          chunk_offset_lengths =
              toc.chunk_offset_lengths
              ++ Offsets.new (start_block * toc.compression_block_size) (length bytes) ∷ [];
          chunk_metas =
              toc.chunk_metas
              ++ (record { chunk_hash = from_blake3 (blake3 (concat blocks)); flags = 0 }) ∷ [];
        };
      }

  -- A block size of 0 panics in `chunks`.
  unfoldable write_chunk : IoStoreWriter → FIoChunkId → Option Text → List ℕ → Outcome IoStoreWriter
  write_chunk self chunk_id path bytes = do
    toc ← index_path self.toc path
    if toc.compression_block_size == 0
        then panicked
        else ok (append_chunk (record self { toc = toc }) chunk_id bytes)

  unfoldable write_chunk_raw :
      IoStoreWriter → FIoChunkIdRaw → Option Text → List ℕ → Outcome IoStoreWriter
  write_chunk_raw self chunk_id_raw path bytes = do
    chunk_id ← from_raw chunk_id_raw self.toc.version
    write_chunk self chunk_id path bytes
