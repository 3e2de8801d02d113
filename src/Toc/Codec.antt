-- ===== src/Toc/Codec.antt =====
-- `Toc::de` and `Toc::ser` of src/main.rs. AES is a parameter: `decrypt_block` on blocks of 16
-- bytes.
use retoc.Outcome
use retoc.Ser.Stream.{◌>>=◌, Reader, read_exact, pure, lift}
use retoc.Directory.{FIoDirectoryIndexResource, ser_directory_index, de_directory_index}
use retoc.Compression.{read_compression_methods, write_compression_methods}
use retoc.Toc.Header.{FIoStoreTocHeader, FGuid, magic, de_header, ser_header}
use retoc.Toc.Offsets.{ser_offset_and_length}
use retoc.Toc.Block.{ser_block}
use retoc.Toc.Meta.{read_meta, write_meta}
use retoc.Prelude.{none, [], List, ℕ, if◌then◌else◌, is_empty, ◌++◌, length, ◌∷◌, ◌%◌, ◌^◌}
use retoc.Outcome.{Outcome, ok, out_of_fuel, panicked, missing_key}
use retoc.Ser.Arrays.{ser_array}
use retoc.Directory.Walk.{iter_root}
use retoc.Toc.Maps.{raw_ids, add_visits, no_files, index_chunks}
use retoc.Toc.File.{
  Toc, Config, decrypt_blocks, read_chunk_ids, read_chunk_offsets, read_hash_map,
  read_compression_blocks, read_chunk_block_signatures,
}
use retoc.Toc.Flags
use retoc.Directory

unfoldable pub de_index_buffer : List ℕ → Outcome FIoDirectoryIndexResource
de_index_buffer buffer =
    if is_empty buffer
    then ok Directory.empty
    else (Outcome.bind (de_directory_index buffer) λ r. ok r.0)

module _ {Key : Type 0} (decrypt_block : Key → List ℕ → List ℕ) where
  unfoldable pub decrypt_index : FIoStoreTocHeader → Config Key → List ℕ → Outcome (List ℕ)
  decrypt_index header config buf =
      if Flags.contains header.container_flags Flags.encrypted
      then (Outcome.bind (Outcome.context missing_key (config.aes_keys header.encryption_key_guid))
          λ key. decrypt_blocks (decrypt_block key) (length buf) buf)
      else ok buf

  unfoldable pub read_directory_index : FIoStoreTocHeader → Config Key → Reader (List ℕ)
  read_directory_index header config = do
    buf ← read_exact header.directory_index_size
    lift (decrypt_index header config buf)

  unfoldable pub de_toc : Config Key → Reader Toc
  de_toc config = do
    header ← de_header
    chunk_ids ← read_chunk_ids header
    chunk_offset_lengths ← read_chunk_offsets header
    hash_map ← read_hash_map header
    compression_blocks ← read_compression_blocks header
    compression_methods ←
        read_compression_methods header.compression_method_name_count
          header.compression_method_name_length
    signatures ← read_chunk_block_signatures header
    buffer ← read_directory_index header config
    chunk_metas ← read_meta header.toc_entry_count header.version
    directory_index ← lift (de_index_buffer buffer)
    visits ← lift (iter_root directory_index)
    raws ← lift (raw_ids chunk_ids)
    let files = add_visits no_files visits
    pure (record {
      chunks = chunk_ids;
      chunk_offset_lengths = chunk_offset_lengths;
      chunk_perfect_hash_seeds = hash_map.0;
      chunk_indices_without_perfect_hash = hash_map.1;
      compression_blocks = compression_blocks;
      compression_methods = compression_methods;
      signatures = signatures;
      chunk_metas = chunk_metas;
      version = header.version;
      container_id = header.container_id;
      compression_block_size = header.compression_block_size;
      partition_size = header.partition_size;
      partition_count = header.partition_count;
      encryption_key_guid = header.encryption_key_guid;
      container_flags = header.container_flags;
      directory_index = directory_index;
      file_map = files.file_map;
      file_map_lower = files.file_map_lower;
      file_map_rev = files.file_map_rev;
      chunk_id_map = index_chunks 0 raws (λ k. none);
    })

abbrev pub no_guid : FGuid
no_guid = record { a = 0; b = 0; c = 0; d = 0 }

-- The header that `Toc::ser` writes, for an index of `size` bytes. The sizes of the structs are
-- those of `FIoStoreTocHeader` and `FIoStoreTocCompressedBlockEntry`.
unfoldable pub header_of : Toc → ℕ → FIoStoreTocHeader
header_of self size = record {
  toc_magic = magic;
  version = self.version;
  reserved0 = 0;
  reserved1 = 0;
  toc_header_size = 0x90;
  toc_entry_count = length self.chunks % 2 ^ 32;
  toc_compressed_block_entry_count = length self.compression_blocks % 2 ^ 32;
  toc_compressed_block_entry_size = 12;
  compression_method_name_count = length self.compression_methods % 2 ^ 32;
  compression_method_name_length = 32;
  compression_block_size = self.compression_block_size;
  directory_index_size = size % 2 ^ 32;
  partition_count = 1;
  container_id = self.container_id;
  encryption_key_guid = no_guid;
  container_flags = Flags.indexed;
  reserved3 = 0;
  reserved4 = 0;
  toc_chunk_perfect_hash_seeds_count = 0;
  partition_size = self.partition_size;
  toc_chunks_without_perfect_hash_count = 0;
  reserved7 = 0;
  reserved8 = 0 ∷ 0 ∷ 0 ∷ 0 ∷ 0 ∷ [];
}

-- The bytes behind the check that every chunk has a version.
unfoldable pub toc_bytes : Toc → List (List ℕ) → List ℕ
toc_bytes self raws =
    let buffer = ser_directory_index self.directory_index in
    ser_header (header_of self (length buffer))
    ++ (ser_array (λ raw. raw) raws
        ++ (ser_array ser_offset_and_length self.chunk_offset_lengths
            ++ (ser_array ser_block self.compression_blocks
                ++ (write_compression_methods self.compression_methods
                    ++ (buffer ++ write_meta self.version self.chunk_metas)))))

unfoldable pub ser_toc : Toc → Outcome (List ℕ)
ser_toc self = Outcome.bind (raw_ids self.chunks) λ raws. ok (toc_bytes self raws)
