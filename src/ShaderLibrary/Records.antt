-- ===== src/ShaderLibrary/Records.antt =====
-- The records of src/shader_library.rs: the entries of shader maps, shaders and groups, and the two
-- headers, of a library in a container and of one in a file.
use retoc.Prelude.{
  ℕ, bit_and, ◌<◌, bit_or, ◌≡◌, List, ◌/◌, ◌%◌, ◌^◌, append_assoc, ◌-◌, ◌++◌, ◌*◌, ◌+◌, arith,
}
use retoc.Ser.Stream.{◌>>=◌, Reader, RoundTrips, pure}
use retoc.Prelude.Int.{InRange, ℤ}
use retoc.Ser.Words.{
  ser_i64, de_i64, ser_u64, de_u64, ser_u32, de_u32, de_u32-ser_u32, de_i64-ser_i64, de_u8,
  de_u64-ser_u64, ser_u8, de_u8-ser_u8,
}
use retoc.Prelude.Bits.{bit_and-mask, bit_or-parts_low}

pub record FIoStoreShaderMapEntry : Type 0 where
  pub shader_indices_offset : ℕ
  pub num_shaders : ℕ

unfoldable pub de_io_map_entry : Reader FIoStoreShaderMapEntry
de_io_map_entry = do
  shader_indices_offset ← de_u32
  num_shaders ← de_u32
  pure (record { shader_indices_offset = shader_indices_offset; num_shaders = num_shaders })

unfoldable pub ser_io_map_entry : FIoStoreShaderMapEntry → List ℕ
ser_io_map_entry self = ser_u32 self.shader_indices_offset ++ ser_u32 self.num_shaders

-- What the fields of the file can hold.
pub record IsIoStoreShaderMapEntry (self : FIoStoreShaderMapEntry) : Type 0 where
  pub shader_indices_offset : self.shader_indices_offset < 2 ^ 32
  pub num_shaders : self.num_shaders < 2 ^ 32

pub de_io_map_entry-ser_io_map_entry :
    RoundTrips de_io_map_entry ser_io_map_entry IsIoStoreShaderMapEntry
unfolding de_io_map_entry ser_io_map_entry
de_io_map_entry-ser_io_map_entry self rest h =
    simp (append_assoc, de_u32-ser_u32, h.shader_indices_offset, h.num_shaders)

pub record FIoStoreShaderCodeEntry : Type 0 where
  pub packed : ℕ

-- 4 bits of the frequency, 30 of the group and 30 of the offset in the group
unfoldable shader_frequency : FIoStoreShaderCodeEntry → ℕ
shader_frequency self = bit_and self.packed (2 ^ 4 - 1)

unfoldable shader_group_index : FIoStoreShaderCodeEntry → ℕ
shader_group_index self = bit_and (self.packed / 2 ^ 4) (2 ^ 30 - 1)

unfoldable shader_uncompressed_offset_in_group : FIoStoreShaderCodeEntry → ℕ
shader_uncompressed_offset_in_group self = bit_and (self.packed / 2 ^ 34) (2 ^ 30 - 1)

unfoldable new_code_entry : ℕ → ℕ → ℕ → FIoStoreShaderCodeEntry
new_code_entry group_index uncompressed_offset_in_group frequency = record {
  packed =
      bit_or (bit_or (bit_and frequency (2 ^ 4 - 1)) (bit_and group_index (2 ^ 30 - 1) * 2 ^ 4))
        (bit_and uncompressed_offset_in_group (2 ^ 30 - 1) * 2 ^ 34);
}

packed_parts :
    (group offset frequency : ℕ)
    → (new_code_entry group offset frequency).packed
      ≡ offset % 2 ^ 30 * 2 ^ 34 + (group % 2 ^ 30 * 2 ^ 4 + frequency % 2 ^ 4)
unfolding new_code_entry
packed_parts group offset frequency = rw (
  bit_and-mask 4 frequency,
  bit_and-mask 30 group,
  bit_and-mask 30 offset,
  bit_or-parts_low 4 (group % 2 ^ 30) (frequency % 2 ^ 4) (omega arith),
  bit_or-parts_low 34 (offset % 2 ^ 30) (group % 2 ^ 30 * 2 ^ 4 + frequency % 2 ^ 4) (omega arith),
)

-- A new entry holds the low 30 bits of the group and of the offset and the low 4 bits of the
-- frequency.
new_code_entry_fields :
    (group offset frequency : ℕ)
    → (shader_group_index (new_code_entry group offset frequency) ≡ group % 2 ^ 30)
      × (shader_uncompressed_offset_in_group (new_code_entry group offset frequency)
          ≡ offset % 2 ^ 30)
      × (shader_frequency (new_code_entry group offset frequency) ≡ frequency % 2 ^ 4)
unfolding shader_group_index shader_uncompressed_offset_in_group shader_frequency
new_code_entry_fields group offset frequency =
    let packed : ℕ = offset % 2 ^ 30 * 2 ^ 34 + (group % 2 ^ 30 * 2 ^ 4 + frequency % 2 ^ 4) in
    rw (packed_parts group offset frequency) (
      omega (arith, bit_and-mask 30 (packed / 2 ^ 4)),
      omega (arith, bit_and-mask 30 (packed / 2 ^ 34)),
      omega (arith, bit_and-mask 4 packed),
    )

unfoldable pub de_code_entry : Reader FIoStoreShaderCodeEntry
de_code_entry = do packed ← de_u64; pure (record { packed = packed })

unfoldable pub ser_code_entry : FIoStoreShaderCodeEntry → List ℕ
ser_code_entry self = ser_u64 self.packed

pub de_code_entry-ser_code_entry : RoundTrips de_code_entry ser_code_entry (λ e. e.packed < 2 ^ 64)
unfolding de_code_entry ser_code_entry
de_code_entry-ser_code_entry self rest h = rw (de_u64-ser_u64 self.packed rest h)

pub record FIoStoreShaderGroupEntry : Type 0 where
  pub shader_indices_offset : ℕ
  pub num_shaders : ℕ
  pub uncompressed_size : ℕ
  pub compressed_size : ℕ

unfoldable pub de_group_entry : Reader FIoStoreShaderGroupEntry
de_group_entry = do
  shader_indices_offset ← de_u32
  num_shaders ← de_u32
  uncompressed_size ← de_u32
  compressed_size ← de_u32
  pure (record {
    shader_indices_offset = shader_indices_offset;
    num_shaders = num_shaders;
    uncompressed_size = uncompressed_size;
    compressed_size = compressed_size;
  })

unfoldable pub ser_group_entry : FIoStoreShaderGroupEntry → List ℕ
ser_group_entry self =
    ser_u32 self.shader_indices_offset
    ++ (ser_u32 self.num_shaders
        ++ (ser_u32 self.uncompressed_size ++ ser_u32 self.compressed_size))

-- What the fields of the file can hold.
pub record IsIoStoreShaderGroupEntry (self : FIoStoreShaderGroupEntry) : Type 0 where
  pub shader_indices_offset : self.shader_indices_offset < 2 ^ 32
  pub num_shaders : self.num_shaders < 2 ^ 32
  pub uncompressed_size : self.uncompressed_size < 2 ^ 32
  pub compressed_size : self.compressed_size < 2 ^ 32

pub de_group_entry-ser_group_entry :
    RoundTrips de_group_entry ser_group_entry IsIoStoreShaderGroupEntry
unfolding de_group_entry ser_group_entry
de_group_entry-ser_group_entry self rest h = simp (
  append_assoc, de_u32-ser_u32, h.shader_indices_offset, h.num_shaders, h.uncompressed_size,
  h.compressed_size,
)

pub record FShaderMapEntry : Type 0 where
  pub shader_indices_offset : ℕ
  pub num_shaders : ℕ
  pub first_preload_index : ℕ
  pub num_preload_entries : ℕ

unfoldable pub de_map_entry : Reader FShaderMapEntry
de_map_entry = do
  shader_indices_offset ← de_u32
  num_shaders ← de_u32
  first_preload_index ← de_u32
  num_preload_entries ← de_u32
  pure (record {
    shader_indices_offset = shader_indices_offset;
    num_shaders = num_shaders;
    first_preload_index = first_preload_index;
    num_preload_entries = num_preload_entries;
  })

unfoldable pub ser_map_entry : FShaderMapEntry → List ℕ
ser_map_entry self =
    ser_u32 self.shader_indices_offset
    ++ (ser_u32 self.num_shaders
        ++ (ser_u32 self.first_preload_index ++ ser_u32 self.num_preload_entries))

-- What the fields of the file can hold.
pub record IsShaderMapEntry (self : FShaderMapEntry) : Type 0 where
  pub shader_indices_offset : self.shader_indices_offset < 2 ^ 32
  pub num_shaders : self.num_shaders < 2 ^ 32
  pub first_preload_index : self.first_preload_index < 2 ^ 32
  pub num_preload_entries : self.num_preload_entries < 2 ^ 32

pub de_map_entry-ser_map_entry : RoundTrips de_map_entry ser_map_entry IsShaderMapEntry
unfolding de_map_entry ser_map_entry
de_map_entry-ser_map_entry self rest h = simp (
  append_assoc, de_u32-ser_u32, h.shader_indices_offset, h.num_shaders, h.first_preload_index,
  h.num_preload_entries,
)

pub record FShaderCodeEntry : Type 0 where
  pub offset : ℕ
  pub size : ℕ
  pub uncompressed_size : ℕ
  pub frequency : ℕ

unfoldable pub de_shader_entry : Reader FShaderCodeEntry
de_shader_entry = do
  offset ← de_u64
  size ← de_u32
  uncompressed_size ← de_u32
  frequency ← de_u8
  pure (record {
    offset = offset;
    size = size;
    uncompressed_size = uncompressed_size;
    frequency = frequency;
  })

unfoldable pub ser_shader_entry : FShaderCodeEntry → List ℕ
ser_shader_entry self =
    ser_u64 self.offset
    ++ (ser_u32 self.size ++ (ser_u32 self.uncompressed_size ++ ser_u8 self.frequency))

-- What the fields of the file can hold.
pub record IsShaderCodeEntry (self : FShaderCodeEntry) : Type 0 where
  pub offset : self.offset < 2 ^ 64
  pub size : self.size < 2 ^ 32
  pub uncompressed_size : self.uncompressed_size < 2 ^ 32
  pub frequency : self.frequency < 256

pub de_shader_entry-ser_shader_entry : RoundTrips de_shader_entry ser_shader_entry IsShaderCodeEntry
unfolding de_shader_entry ser_shader_entry
de_shader_entry-ser_shader_entry self rest h = simp (
  append_assoc, de_u64-ser_u64, de_u32-ser_u32, de_u8-ser_u8, h.offset, h.size, h.uncompressed_size,
  h.frequency,
)

pub record FFileCachePreloadEntry : Type 0 where
  pub offset : ℤ
  pub size : ℤ

unfoldable pub de_preload_entry : Reader FFileCachePreloadEntry
de_preload_entry = do offset ← de_i64; size ← de_i64; pure (record { offset = offset; size = size })

unfoldable pub ser_preload_entry : FFileCachePreloadEntry → List ℕ
ser_preload_entry self = ser_i64 self.offset ++ ser_i64 self.size

-- What the fields of the file can hold.
pub record IsFileCachePreloadEntry (self : FFileCachePreloadEntry) : Type 0 where
  pub offset : InRange (2 ^ 63) self.offset
  pub size : InRange (2 ^ 63) self.size

pub de_preload_entry-ser_preload_entry :
    RoundTrips de_preload_entry ser_preload_entry IsFileCachePreloadEntry
unfolding de_preload_entry ser_preload_entry
de_preload_entry-ser_preload_entry self rest h =
    simp (append_assoc, de_i64-ser_i64, h.offset, h.size)
