-- ===== src/Toc/RoundTrip.antt =====
-- A table of contents that is written and read again.
use retoc.Toc.Codec.{
  header_of, toc_bytes, ser_toc, de_toc, de_index_buffer, no_guid, read_directory_index,
  decrypt_index,
}
use retoc.Toc.File.{
  Toc, Config, read_chunk_ids, read_chunk_offsets, read_hash_map, hash_map_counts,
  read_compression_blocks, read_chunk_block_signatures,
}
use retoc.Toc.Maps.{add_visits, no_files, raw_ids, index_chunks}
use retoc.Toc.Header.{FIoStoreTocHeader, IsHeader, ser_header, de_header, de_header-ser_header}
use retoc.Toc.ChunkId.{FIoChunkId, de_raw, de_chunk_id, from_raw, get_raw}
use retoc.Toc.Offsets.{
  de_offset_and_length, ser_offset_and_length, de_offset_and_length-ser_offset_and_length,
}
use retoc.Toc.Block.{de_block, ser_block, de_block-ser_block}
use retoc.Toc.Meta.{IsMeta, read_meta, write_meta, read_meta-write_meta}
use retoc.Compression.{
  read_compression_methods, write_compression_methods,
  read_compression_methods-write_compression_methods,
}
use retoc.Directory.{
  FIoDirectoryIndexResource, IsDirectoryIndex, ser_directory_index, de_directory_index,
  de_directory_index-ser_directory_index,
}
use retoc.Directory.Walk.{Visit, iter_root}
use retoc.Ser.Stream.{read_exact, read_exact-append, de_uint}
use retoc.Ser.Arrays.{All, read_array, ser_array, read_array-ser_array}
use retoc.Toc.Version.{EIoStoreTocVersion}
use retoc.Prelude.{
  ◌∷◌, none, refl, [], List, ◌≡◌, if◌then◌else◌, is_empty, ℕ, ◌++◌, length, ◌<◌, append_assoc, ◌^◌,
  false, inl, true, inr, arith, Bool-cases, append-nil,
}
use retoc.Outcome.{ok}
use native.Mathlib.Nat.{mod-eq_of_lt}
use retoc.Ser.Strings.{de_string}
use retoc.Ser.Words.{de_i32}
use retoc.Toc.Flags
use retoc.Directory

-- Each chunk is the id that its raw id stands for in this version, and is written as that raw id.
abbrev AreChunks : EIoStoreTocVersion → List FIoChunkId → List (List ℕ) → Type 0
AreChunks version [] [] = Unit
AreChunks version (id ∷ ids) (raw ∷ raws) =
    ((length raw ≡ 12)
      × (get_raw id ≡ ok (record { id = raw }))
      × (from_raw (record { id = raw }) version ≡ ok id))
    × AreChunks version ids raws
AreChunks version _ _ = ⊥

-- What a file can hold, for the raw ids of the chunks.
pub record IsToc (t : Toc) (raws : List (List ℕ)) : Type 0 where
  pub few_chunks : length t.chunks < 2 ^ 32
  pub chunks : AreChunks t.version t.chunks raws
  pub offsets_count : length t.chunk_offset_lengths ≡ length t.chunks
  pub offsets : All (λ o. length o.bytes ≡ 10) t.chunk_offset_lengths
  pub few_blocks : length t.compression_blocks < 2 ^ 32
  pub blocks : All (λ b. length b.bytes ≡ 12) t.compression_blocks
  pub few_methods : length t.compression_methods < 2 ^ 32
  pub metas_count : length t.chunk_metas ≡ length t.chunks
  pub metas : All (IsMeta t.version) t.chunk_metas
  pub container_id : t.container_id < 2 ^ 64
  pub compression_block_size : t.compression_block_size < 2 ^ 32
  pub partition_size : t.partition_size < 2 ^ 64
  pub index : IsDirectoryIndex t.directory_index
  pub index_size : length (ser_directory_index t.directory_index) < 2 ^ 32

-- The index is written only if it has a file.
abbrev kept_index : FIoDirectoryIndexResource → FIoDirectoryIndexResource
kept_index index = if is_empty index.file_entries then Directory.empty else index

-- What reading gives back: the written parts as they were, the others reset, and new transient
-- indexes.
pub reread : Toc → List (List ℕ) → List Visit → Toc
reread t raws visits =
    let files = add_visits no_files visits in
    record t {
      chunk_perfect_hash_seeds = [];
      chunk_indices_without_perfect_hash = [];
      signatures = none;
      partition_count = 1;
      encryption_key_guid = no_guid;
      container_flags = Flags.indexed;
      directory_index = kept_index t.directory_index;
      file_map = files.file_map;
      file_map_lower = files.file_map_lower;
      file_map_rev = files.file_map_rev;
      chunk_id_map = index_chunks 0 raws (λ k. none);
    }

raw_ids-AreChunks :
    (v : EIoStoreTocVersion) (ids : List FIoChunkId) (raws : List (List ℕ))
    → AreChunks v ids raws
    → raw_ids ids ≡ ok raws
unfolding raw_ids
raw_ids-AreChunks v [] [] h = refl
raw_ids-AreChunks v [] (r ∷ rs) h = absurd h
raw_ids-AreChunks v (i ∷ is) [] h = absurd h
raw_ids-AreChunks v (i ∷ is) (r ∷ rs) h = rw (h.0.1, raw_ids-AreChunks v is rs h.1)

read_chunks :
    (v : EIoStoreTocVersion) (ids : List FIoChunkId) (raws : List (List ℕ)) (rest : List ℕ)
    → AreChunks v ids raws
    → read_array (length ids) (de_chunk_id v) (ser_array (λ raw. raw) raws ++ rest) ≡ ok (ids, rest)
unfolding read_array ser_array de_chunk_id de_raw
read_chunks v [] [] rest h = refl
read_chunks v [] (r ∷ rs) rest h = absurd h
read_chunks v (i ∷ is) [] rest h = absurd h
read_chunks v (i ∷ is) (r ∷ rs) rest h = rw (
  append_assoc,
  read_exact-append 12 r (ser_array (λ raw. raw) rs ++ rest) h.0.0,
  h.0.2,
  read_chunks v is rs rest h.1,
)

no_index :
    (index : FIoDirectoryIndexResource)
    → is_empty index.file_entries ≡ true
    → ser_directory_index index ≡ []
unfolding ser_directory_index
no_index index e = rw e

not_empty :
    (bytes : List ℕ) (index : FIoDirectoryIndexResource) (rest : List ℕ)
    → de_directory_index bytes ≡ ok (index, rest)
    → is_empty bytes ≡ false
unfolding de_directory_index de_string de_i32 de_uint read_exact
not_empty [] index rest h = cc
not_empty (b ∷ bytes) index rest h = refl

de_index_buffer-ser :
    (index : FIoDirectoryIndexResource)
    → IsDirectoryIndex index
    → de_index_buffer (ser_directory_index index) ≡ ok (kept_index index)
unfolding de_index_buffer
de_index_buffer-ser index h = elim (Bool-cases (is_empty index.file_entries)) [
  | inl e ↦ rw (e, no_index index e)
  | inr e ↦
      let read = rw append-nil at (de_directory_index-ser_directory_index index [] h e) in
      rw (e, not_empty (ser_directory_index index) index [] read, read)
]

module _ {Key : Type 0} (decrypt_block : Key → List ℕ → List ℕ) (config : Config Key) (t : Toc)
    (raws : List (List ℕ)) (visits : List Visit) (valid : IsToc t raws)
    (walked : iter_root (kept_index t.directory_index) ≡ ok visits) where
  abbrev size : ℕ
  size = length (ser_directory_index t.directory_index)

  abbrev header : FIoStoreTocHeader
  header = header_of t size

  header-IsHeader : IsHeader header
  unfolding header_of
  header-IsHeader = ground arith

  read_ids :
      (rest : List ℕ)
      → read_chunk_ids header (ser_array (λ raw. raw) raws ++ rest) ≡ ok (t.chunks, rest)
  unfolding read_chunk_ids header_of
  read_ids rest =
      rw (mod-eq_of_lt valid.few_chunks) (read_chunks t.version t.chunks raws rest valid.chunks)

  read_offsets :
      (rest : List ℕ)
      → read_chunk_offsets header (ser_array ser_offset_and_length t.chunk_offset_lengths ++ rest)
        ≡ ok (t.chunk_offset_lengths, rest)
  unfolding read_chunk_offsets header_of
  read_offsets rest =
      rw (mod-eq_of_lt valid.few_chunks, ← valid.offsets_count)
        (read_array-ser_array de_offset_and_length ser_offset_and_length (λ o. length o.bytes ≡ 10)
          de_offset_and_length-ser_offset_and_length t.chunk_offset_lengths rest valid.offsets)

  no_counts : hash_map_counts header ≡ (0, 0)
  unfolding hash_map_counts header_of
  no_counts = ground arith

  read_no_hash_map : (rest : List ℕ) → read_hash_map header rest ≡ ok (([], []), rest)
  unfolding read_hash_map read_array
  read_no_hash_map rest = rw no_counts

  read_blocks :
      (rest : List ℕ)
      → read_compression_blocks header (ser_array ser_block t.compression_blocks ++ rest)
        ≡ ok (t.compression_blocks, rest)
  unfolding read_compression_blocks header_of
  read_blocks rest = rw (mod-eq_of_lt valid.few_blocks) (
      read_array-ser_array de_block ser_block (λ b. length b.bytes ≡ 12) de_block-ser_block
        t.compression_blocks rest valid.blocks)

  read_methods :
      (rest : List ℕ)
      → read_compression_methods header.compression_method_name_count
          header.compression_method_name_length
          (write_compression_methods t.compression_methods ++ rest)
        ≡ ok (t.compression_methods, rest)
  unfolding header_of
  read_methods rest =
      rw (mod-eq_of_lt valid.few_methods)
        (read_compression_methods-write_compression_methods t.compression_methods rest)

  read_no_signatures : (rest : List ℕ) → read_chunk_block_signatures header rest ≡ ok (none, rest)
  unfolding read_chunk_block_signatures header_of Flags.contains
  read_no_signatures rest = refl

  read_index :
      (rest : List ℕ)
      → read_directory_index decrypt_block header config
          (ser_directory_index t.directory_index ++ rest)
        ≡ ok (ser_directory_index t.directory_index, rest)
  unfolding read_directory_index decrypt_index header_of Flags.contains
  read_index rest = rw (
    mod-eq_of_lt valid.index_size,
    read_exact-append size (ser_directory_index t.directory_index) rest refl,
  )

  read_metas :
      (rest : List ℕ)
      → read_meta header.toc_entry_count header.version (write_meta t.version t.chunk_metas ++ rest)
        ≡ ok (t.chunk_metas, rest)
  unfolding header_of
  read_metas rest =
      rw (mod-eq_of_lt valid.few_chunks, ← valid.metas_count)
        (read_meta-write_meta t.version t.chunk_metas rest valid.metas)

  read_header : (rest : List ℕ) → de_header (ser_header header ++ rest) ≡ ok (header, rest)
  unfolding header_of
  read_header rest = de_header-ser_header header rest header-IsHeader refl refl

  -- All the parts, in the order of the file.
  de_toc-toc_bytes :
      (rest : List ℕ)
      → de_toc decrypt_block config (toc_bytes t raws ++ rest) ≡ ok (reread t raws visits, rest)
  unfolding de_toc toc_bytes reread
  de_toc-toc_bytes rest =
      simp
        (
          append_assoc,
          read_header,
          read_ids,
          read_offsets,
          read_no_hash_map,
          read_blocks,
          read_methods,
          read_no_signatures,
          read_index,
          read_metas,
          de_index_buffer-ser t.directory_index valid.index,
          walked,
          raw_ids-AreChunks t.version t.chunks raws valid.chunks,
        )
        (unfold header_of in refl)

  -- A table of contents that a file can hold, and whose directory index is walked without a panic,
  -- is written without a panic. Reading the bytes, whatever follows them, gives back the chunks
  -- with their offsets and metas, the compression blocks and methods, the version, the container id
  -- and the sizes of blocks and partitions as they were, the directory index if it has a file and
  -- otherwise an empty one, and the transient indexes that its visits yield. What is not written is
  -- reset: there are no perfect hash seeds and indices and no signatures, the partition count is 1,
  -- the key guid is 0 and the only flag is Indexed.
  pub de_toc-ser_toc :
      (rest : List ℕ)
      → (bytes : List ℕ) × (ser_toc t ≡ ok bytes)
        × (de_toc decrypt_block config (bytes ++ rest) ≡ ok (reread t raws visits, rest))
  unfolding ser_toc
  de_toc-ser_toc rest = (
    toc_bytes t raws,
    rw (raw_ids-AreChunks t.version t.chunks raws valid.chunks),
    de_toc-toc_bytes rest,
  )
