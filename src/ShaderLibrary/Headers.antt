-- ===== src/ShaderLibrary/Headers.antt =====
-- The headers of shader libraries of src/shader_library.rs. A hash is its 20 bytes, and the raw id
-- of a chunk its 12.
use retoc.Prelude.{ℕ, List, length, ◌<◌, ◌++◌, ◌^◌, ◌≡◌, append_assoc}
use retoc.Ser.Stream.{◌>>=◌, Reader, read_exact, read_exact-append, pure}
use retoc.Outcome.{ok}
use retoc.Ser.Arrays.{ser_vec, de_vec, All, de_vec-ser_vec}
use retoc.ShaderLibrary.Records.{
  FIoStoreShaderMapEntry, FShaderMapEntry, FShaderCodeEntry, ser_map_entry, FIoStoreShaderCodeEntry,
  ser_io_map_entry, FIoStoreShaderGroupEntry, de_map_entry, de_io_map_entry, ser_shader_entry,
  ser_code_entry, FFileCachePreloadEntry, IsShaderMapEntry, ser_preload_entry, de_code_entry,
  IsIoStoreShaderMapEntry, de_shader_entry, ser_group_entry, de_group_entry, de_preload_entry,
  IsIoStoreShaderGroupEntry, IsShaderCodeEntry, IsFileCachePreloadEntry,
  de_io_map_entry-ser_io_map_entry, de_map_entry-ser_map_entry, de_shader_entry-ser_shader_entry,
  de_code_entry-ser_code_entry, de_preload_entry-ser_preload_entry, de_group_entry-ser_group_entry,
}
use retoc.Ser.Words.{ser_u32, de_u32, de_u32-ser_u32}

record FIoStoreShaderCodeArchiveHeader : Type 0 where
  pub shader_map_hashes : List (List ℕ)
  pub shader_hashes : List (List ℕ)
  pub shader_group_chunk_ids : List (List ℕ)
  pub shader_map_entries : List FIoStoreShaderMapEntry
  pub shader_entries : List FIoStoreShaderCodeEntry
  pub shader_group_entries : List FIoStoreShaderGroupEntry
  pub shader_indices : List ℕ

unfoldable de_archive_header : Reader FIoStoreShaderCodeArchiveHeader
de_archive_header = do
  shader_map_hashes ← de_vec (read_exact 20)
  shader_hashes ← de_vec (read_exact 20)
  shader_group_chunk_ids ← de_vec (read_exact 12)
  shader_map_entries ← de_vec de_io_map_entry
  shader_entries ← de_vec de_code_entry
  shader_group_entries ← de_vec de_group_entry
  shader_indices ← de_vec de_u32
  pure (record {
    shader_map_hashes = shader_map_hashes;
    shader_hashes = shader_hashes;
    shader_group_chunk_ids = shader_group_chunk_ids;
    shader_map_entries = shader_map_entries;
    shader_entries = shader_entries;
    shader_group_entries = shader_group_entries;
    shader_indices = shader_indices;
  })

unfoldable ser_archive_header : FIoStoreShaderCodeArchiveHeader → List ℕ
ser_archive_header self =
    ser_vec (λ (h : List ℕ). h) self.shader_map_hashes
    ++ (ser_vec (λ (h : List ℕ). h) self.shader_hashes
        ++ (ser_vec (λ (h : List ℕ). h) self.shader_group_chunk_ids
            ++ (ser_vec ser_io_map_entry self.shader_map_entries
                ++ (ser_vec ser_code_entry self.shader_entries
                    ++ (ser_vec ser_group_entry self.shader_group_entries
                        ++ ser_vec ser_u32 self.shader_indices)))))

-- What the fields of the file can hold.
record IsIoStoreShaderCodeArchiveHeader (self : FIoStoreShaderCodeArchiveHeader) : Type 0 where
  pub shader_map_hashes :
      (length self.shader_map_hashes < 2 ^ 32)
      × All (λ (h : List ℕ). length h ≡ 20) self.shader_map_hashes
  pub shader_hashes :
      (length self.shader_hashes < 2 ^ 32) × All (λ (h : List ℕ). length h ≡ 20) self.shader_hashes
  pub shader_group_chunk_ids :
      (length self.shader_group_chunk_ids < 2 ^ 32)
      × All (λ (h : List ℕ). length h ≡ 12) self.shader_group_chunk_ids
  pub shader_map_entries :
      (length self.shader_map_entries < 2 ^ 32)
      × All IsIoStoreShaderMapEntry self.shader_map_entries
  pub shader_entries :
      (length self.shader_entries < 2 ^ 32)
      × All (λ (e : FIoStoreShaderCodeEntry). e.packed < 2 ^ 64) self.shader_entries
  pub shader_group_entries :
      (length self.shader_group_entries < 2 ^ 32)
      × All IsIoStoreShaderGroupEntry self.shader_group_entries
  pub shader_indices :
      (length self.shader_indices < 2 ^ 32) × All (λ (x : ℕ). x < 2 ^ 32) self.shader_indices

-- The header of a shader library in a container, whose fields hold values of their types, is read
-- back as it was written.
de_archive_header-ser_archive_header :
    (self : FIoStoreShaderCodeArchiveHeader) (rest : List ℕ)
    → IsIoStoreShaderCodeArchiveHeader self
    → de_archive_header (ser_archive_header self ++ rest) ≡ ok (self, rest)
unfolding de_archive_header ser_archive_header
de_archive_header-ser_archive_header self rest h = simp (
  append_assoc,
  de_vec-ser_vec (read_exact 20) (λ (h : List ℕ). h) (λ (h : List ℕ). length h ≡ 20)
      (λ h rest e. read_exact-append 20 h rest e),
  de_vec-ser_vec (read_exact 12) (λ (h : List ℕ). h) (λ (h : List ℕ). length h ≡ 12)
      (λ h rest e. read_exact-append 12 h rest e),
  de_vec-ser_vec de_io_map_entry ser_io_map_entry IsIoStoreShaderMapEntry
      de_io_map_entry-ser_io_map_entry,
  de_vec-ser_vec de_code_entry ser_code_entry (λ (e : FIoStoreShaderCodeEntry). e.packed < 2 ^ 64)
      de_code_entry-ser_code_entry,
  de_vec-ser_vec de_group_entry ser_group_entry IsIoStoreShaderGroupEntry
      de_group_entry-ser_group_entry,
  de_vec-ser_vec de_u32 ser_u32 (λ (x : ℕ). x < 2 ^ 32) de_u32-ser_u32,
  h.shader_map_hashes,
  h.shader_hashes,
  h.shader_group_chunk_ids,
  h.shader_map_entries,
  h.shader_entries,
  h.shader_group_entries,
  h.shader_indices,
)

pub record FShaderLibraryHeader : Type 0 where
  pub shader_map_hashes : List (List ℕ)
  pub shader_hashes : List (List ℕ)
  pub shader_map_entries : List FShaderMapEntry
  pub shader_entries : List FShaderCodeEntry
  pub preload_entries : List FFileCachePreloadEntry
  pub shader_indices : List ℕ

unfoldable pub de_library_header : Reader FShaderLibraryHeader
de_library_header = do
  shader_map_hashes ← de_vec (read_exact 20)
  shader_hashes ← de_vec (read_exact 20)
  shader_map_entries ← de_vec de_map_entry
  shader_entries ← de_vec de_shader_entry
  preload_entries ← de_vec de_preload_entry
  shader_indices ← de_vec de_u32
  pure (record {
    shader_map_hashes = shader_map_hashes;
    shader_hashes = shader_hashes;
    shader_map_entries = shader_map_entries;
    shader_entries = shader_entries;
    preload_entries = preload_entries;
    shader_indices = shader_indices;
  })

unfoldable pub ser_library_header : FShaderLibraryHeader → List ℕ
ser_library_header self =
    ser_vec (λ (h : List ℕ). h) self.shader_map_hashes
    ++ (ser_vec (λ (h : List ℕ). h) self.shader_hashes
        ++ (ser_vec ser_map_entry self.shader_map_entries
            ++ (ser_vec ser_shader_entry self.shader_entries
                ++ (ser_vec ser_preload_entry self.preload_entries
                    ++ ser_vec ser_u32 self.shader_indices))))

-- What the fields of the file can hold.
pub record IsShaderLibraryHeader (self : FShaderLibraryHeader) : Type 0 where
  pub shader_map_hashes :
      (length self.shader_map_hashes < 2 ^ 32)
      × All (λ (h : List ℕ). length h ≡ 20) self.shader_map_hashes
  pub shader_hashes :
      (length self.shader_hashes < 2 ^ 32) × All (λ (h : List ℕ). length h ≡ 20) self.shader_hashes
  pub shader_map_entries :
      (length self.shader_map_entries < 2 ^ 32) × All IsShaderMapEntry self.shader_map_entries
  pub shader_entries :
      (length self.shader_entries < 2 ^ 32) × All IsShaderCodeEntry self.shader_entries
  pub preload_entries :
      (length self.preload_entries < 2 ^ 32) × All IsFileCachePreloadEntry self.preload_entries
  pub shader_indices :
      (length self.shader_indices < 2 ^ 32) × All (λ (x : ℕ). x < 2 ^ 32) self.shader_indices

-- The header of a shader library in a file, whose fields hold values of their types, is read back
-- as it was written.
pub de_library_header-ser_library_header :
    (self : FShaderLibraryHeader) (rest : List ℕ)
    → IsShaderLibraryHeader self
    → de_library_header (ser_library_header self ++ rest) ≡ ok (self, rest)
unfolding de_library_header ser_library_header
de_library_header-ser_library_header self rest h = simp (
  append_assoc,
  de_vec-ser_vec (read_exact 20) (λ (h : List ℕ). h) (λ (h : List ℕ). length h ≡ 20)
      (λ h rest e. read_exact-append 20 h rest e),
  de_vec-ser_vec de_map_entry ser_map_entry IsShaderMapEntry de_map_entry-ser_map_entry,
  de_vec-ser_vec de_shader_entry ser_shader_entry IsShaderCodeEntry
      de_shader_entry-ser_shader_entry,
  de_vec-ser_vec de_preload_entry ser_preload_entry IsFileCachePreloadEntry
      de_preload_entry-ser_preload_entry,
  de_vec-ser_vec de_u32 ser_u32 (λ (x : ℕ). x < 2 ^ 32) de_u32-ser_u32,
  h.shader_map_hashes,
  h.shader_hashes,
  h.shader_map_entries,
  h.shader_entries,
  h.preload_entries,
  h.shader_indices,
)
