-- ===== src/Tests/Contents.antt =====
-- The theorems on a whole table of contents, at a container of one file.
use retoc.Prelude.{
  ◌≡◌, refl, ℕ, arith, ◌∷◌, [], List, codes, ◌++◌, length, none, some, replicate, ◌^◌, ◌-◌,
}
use retoc.Outcome.{ok}
use retoc.Directory.{
  FIoDirectoryIndexResource, IsDirectoryIndex, ser_directory_index, ser_directory_entry,
  ser_file_entry, ser_id,
}
use retoc.Directory.Walk.{iter_root, iter, directory_at, push_name, iter_files, name_at, file_at}
use retoc.Toc.Header.{
  FIoStoreTocHeader, IsHeader, ser_header, magic, de_header-ser_header, de_header_checks,
}
use retoc.Toc.File.{Toc}
use retoc.Toc.Codec.{no_guid, ser_toc, de_toc}
use retoc.Toc.Meta.{FIoStoreTocEntryMeta, IsMeta}
use retoc.Toc.Version.{partition_size}
use retoc.Toc.RoundTrip.{IsToc, reread, de_toc-ser_toc}
use retoc.Toc.ChunkId.{FIoChunkId, get_raw, from_raw}
use retoc.Compression.{zlib}
use retoc.Ser.Utf.{encode_utf16, is_ascii}
use retoc.Ser.Strings.{write_string}
use retoc.Toc.Offsets.{length-new_offset}
use retoc.Ser.Words.{ser_u32, ser_u8}
use retoc.Toc.Block.{length-new_block}
use retoc.Ser.Arrays.{ser_vec, ser_array}
use retoc.Ser.Stream.{to_le_bytes}
use retoc.Toc.ChunkType
use retoc.Toc.ChunkId
use retoc.Toc.Offsets
use retoc.Toc.Block

-- `a/b` with the data of chunk 0
abbrev index : FIoDirectoryIndexResource
index = record {
  mount_point = codes "../";
  directory_entries =
      (record {
        name = none;
        first_child_entry = some 1;
        next_sibling_entry = none;
        first_file_entry = none;
      })
      ∷ (record {
        name = some 0;
        first_child_entry = none;
        next_sibling_entry = none;
        first_file_entry = some 0;
      })
      ∷ [];
  file_entries = (record { name = 1; next_file_entry = none; user_data = 0 }) ∷ [];
  string_table = codes "a" ∷ codes "b" ∷ [];
}

index-IsDirectoryIndex : IsDirectoryIndex index
unfolding encode_utf16
index-IsDirectoryIndex = record {
  mount_point = (
    (
      ((omega arith, refl), omega arith),
      (((omega arith, refl), omega arith), (((omega arith, refl), omega arith), tt)),
    ),
    (omega arith, omega arith),
  );
  directories = (
    omega arith,
    (
      record {
        name = tt;
        first_child_entry = omega arith;
        next_sibling_entry = tt;
        first_file_entry = tt;
      },
      (
        record {
          name = omega arith;
          first_child_entry = tt;
          next_sibling_entry = tt;
          first_file_entry = omega arith;
        },
        tt,
      ),
    ),
  );
  files = (
    omega arith,
    (record { name = omega arith; next_file_entry = tt; user_data = omega arith }, tt),
  );
  names = (
    omega arith,
    (
      ((((omega arith, refl), omega arith), tt), (omega arith, omega arith)),
      (((((omega arith, refl), omega arith), tt), (omega arith, omega arith)), tt),
    ),
  );
}

abbrev meta : FIoStoreTocEntryMeta
meta = record { chunk_hash = replicate 20 7 ++ replicate 12 0; flags = 1 }

meta-IsMeta : IsMeta partition_size meta
meta-IsMeta = record { long = refl; flags = (omega arith, refl); short = λ h. refl }

abbrev header : FIoStoreTocHeader
header = record {
  toc_magic = magic;
  version = partition_size;
  reserved0 = 0;
  reserved1 = 0;
  toc_header_size = 0x90;
  toc_entry_count = 1;
  toc_compressed_block_entry_count = 1;
  toc_compressed_block_entry_size = 12;
  compression_method_name_count = 1;
  compression_method_name_length = 32;
  compression_block_size = 0x10000;
  directory_index_size = 80;
  partition_count = 1;
  container_id = 99;
  encryption_key_guid = no_guid;
  container_flags = 8;
  reserved3 = 0;
  reserved4 = 0;
  toc_chunk_perfect_hash_seeds_count = 0;
  partition_size = 2 ^ 64 - 1;
  toc_chunks_without_perfect_hash_count = 0;
  reserved7 = 0;
  reserved8 = replicate 5 0;
}

header-IsHeader : IsHeader header
header-IsHeader = record {
  toc_magic = refl;
  reserved0 = omega arith;
  reserved1 = omega arith;
  toc_header_size = omega arith;
  toc_entry_count = omega arith;
  toc_compressed_block_entry_count = omega arith;
  toc_compressed_block_entry_size = omega arith;
  compression_method_name_count = omega arith;
  compression_method_name_length = omega arith;
  compression_block_size = omega arith;
  directory_index_size = omega arith;
  partition_count = omega arith;
  container_id = omega arith;
  encryption_key_guid = record {
    a = omega arith;
    b = omega arith;
    c = omega arith;
    d = omega arith;
  };
  container_flags = (omega arith, refl);
  reserved3 = omega arith;
  reserved4 = omega arith;
  toc_chunk_perfect_hash_seeds_count = omega arith;
  partition_size = omega arith;
  toc_chunks_without_perfect_hash_count = omega arith;
  reserved7 = omega arith;
  reserved8 = (refl, (omega arith, (omega arith, (omega arith, (omega arith, (omega arith, tt))))));
}

de_header_checks_example : (header.toc_magic ≡ magic) × (header.toc_header_size ≡ 0x90)
de_header_checks_example =
    de_header_checks (ser_header header ++ 1 ∷ []) (1 ∷ []) header
      (de_header-ser_header header (1 ∷ []) header-IsHeader refl refl)

-- A chunk of bulk data as a reader of this version knows it.
abbrev toc : Toc
toc = record {
  chunks = (record { id = 1 ∷ replicate 10 0 ++ 66 ∷ [] }) ∷ [];
  chunk_offset_lengths = Offsets.new 0 3 ∷ [];
  chunk_perfect_hash_seeds = [];
  chunk_indices_without_perfect_hash = [];
  compression_blocks = Block.new 0 3 3 0 ∷ [];
  compression_methods = zlib ∷ [];
  signatures = none;
  chunk_metas = meta ∷ [];
  version = partition_size;
  container_id = 99;
  compression_block_size = 0x10000;
  partition_size = 2 ^ 64 - 1;
  partition_count = 0;
  encryption_key_guid = no_guid;
  container_flags = 0;
  directory_index = index;
  file_map = λ k. none;
  file_map_lower = λ k. none;
  file_map_rev = λ k. none;
  chunk_id_map = λ k. none;
}

abbrev raws : List (List ℕ)
raws = (1 ∷ replicate 10 0 ++ 3 ∷ []) ∷ []

index_length : length (ser_directory_index index) ≡ 76
unfolding ser_directory_index write_string ser_u32 ser_u8 is_ascii ser_vec ser_array to_le_bytes
    ser_directory_entry ser_file_entry ser_id
index_length = refl

toc-IsToc : IsToc toc raws
toc-IsToc = record {
  few_chunks = omega arith;
  chunks = (
    (
      refl,
      unfold get_raw ChunkType.value ChunkType.from_repr in refl,
      unfold from_raw ChunkType.new ChunkId.stamp in refl,
    ),
    tt,
  );
  offsets_count = refl;
  offsets = (length-new_offset 0 3, tt);
  few_blocks = omega arith;
  blocks = (length-new_block 0 3 3 0, tt);
  few_methods = omega arith;
  metas_count = refl;
  metas = (meta-IsMeta, tt);
  container_id = omega arith;
  compression_block_size = omega arith;
  partition_size = omega arith;
  index = index-IsDirectoryIndex;
  index_size = omega (arith, index_length);
}

-- The name of the only file, below its directory.
visited : iter_root index ≡ ok ((0, codes "a" ∷ codes "b" ∷ []) ∷ [])
unfolding iter_root iter directory_at push_name iter_files name_at file_at
visited = refl

-- Keys are numbers, and decryption does nothing.
de_toc-ser_toc_example :
    (bytes : List ℕ) × (ser_toc toc ≡ ok bytes)
    × (de_toc {Key = ℕ} (λ k b. b) (record { aes_keys = λ g. none }) (bytes ++ 4 ∷ [])
        ≡ ok (reread toc raws ((0, codes "a" ∷ codes "b" ∷ []) ∷ []), 4 ∷ []))
de_toc-ser_toc_example =
    de_toc-ser_toc {Key = ℕ} (λ k b. b) (record { aes_keys = λ g. none }) toc raws
      ((0, codes "a" ∷ codes "b" ∷ []) ∷ []) toc-IsToc visited (4 ∷ [])
