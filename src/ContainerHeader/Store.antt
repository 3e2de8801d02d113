-- ===== src/ContainerHeader/Store.antt =====
-- `StoreEntries` of src/container_header.rs: entries of a fixed size, and behind them the arrays
-- that they point to, each by its distance from the field that points.
pub mod Layout
pub mod Resolve
pub mod RoundTrip
use retoc.Prelude.{
  ℕ, ◌∷◌, [], List, length, ◌+◌, map, Bool, ◌++◌, if◌then◌else◌, not, replicate, ◌%◌, ◌==◌, ◌*◌,
  drop, ◌-◌, ◌^◌, take, ltb,
}
use retoc.Ser.Stream.{◌>>=◌, ◌>>◌, Reader, pure, read_exact, lift}
use retoc.Prelude.Int.{ℤ, pos}
use retoc.Version.{
  EIoContainerHeaderVersion, header_after, header_repr, header_at_least, initial, no_export_info,
  pre_initial, localized_packages, optional_segment_packages, soft_package_references,
}
use retoc.Ser.Arrays.{ser_array, de_vec, read_array, de_bytes, ser_bytes}
use retoc.Ser.Words.{de_u32, ser_u64, ser_u32, de_u64, ser_i32, de_i32}
use retoc.Outcome.{Outcome, ok}
use retoc.Outcome
use retoc.ContainerHeader.BTreeMap

-- `FPackageId` is a `u64`, and `FSHAHash` 20 bytes.
pub record StoreEntry : Type 0 where
  pub export_bundles_size : ℕ
  pub load_order : ℕ
  pub export_count : ℤ
  pub export_bundle_count : ℤ
  pub imported_packages : List ℕ
  pub shader_map_hashes : List (List ℕ)

-- `TFilePackageStoreEntryCArrayView`
pub record CArrayView : Type 0 where
  pub array_num : ℕ
  pub offset_to_data_from_this : ℕ

unfoldable pub de_view : Reader CArrayView
de_view = do
  array_num ← de_u32
  offset_to_data_from_this ← de_u32
  pure (record { array_num = array_num; offset_to_data_from_this = offset_to_data_from_this })

unfoldable pub ser_view : CArrayView → List ℕ
ser_view self = ser_u32 self.array_num ++ ser_u32 self.offset_to_data_from_this

abbrev pub no_view : CArrayView
no_view = record { array_num = 0; offset_to_data_from_this = 0 }

pub record FFilePackageStoreEntry : Type 0 where
  pub export_bundles_size : ℕ
  pub load_order : ℕ
  pub export_count : ℤ
  pub export_bundle_count : ℤ
  pub imported_packages : CArrayView
  pub shader_map_hashes : CArrayView

-- `version == Initial`, `version < NoExportInfo` and `version > Initial`
abbrev pub is_initial : EIoContainerHeaderVersion → Bool
is_initial version = header_repr version == header_repr initial

abbrev pub has_counts : EIoContainerHeaderVersion → Bool
has_counts version = not (header_at_least version no_export_info)

abbrev pub has_shaders : EIoContainerHeaderVersion → Bool
has_shaders version = header_after version initial

unfoldable pub deserialize_entry : EIoContainerHeaderVersion → Reader FFilePackageStoreEntry
deserialize_entry version = do
  export_bundles_size ← if is_initial version then de_u64 else pure 0
  (export_count, export_bundle_count) ←
      if has_counts version
      then (do count ← de_i32; bundles ← de_i32; pure (count, bundles))
      else pure (pos 0, pos 0)
  load_order ← if is_initial version then (do order ← de_u32; de_u32; pure order) else pure 0
  imported_packages ← de_view
  shader_map_hashes ← if has_shaders version then de_view else pure no_view
  pure (record {
    export_bundles_size = export_bundles_size;
    load_order = load_order;
    export_count = export_count;
    export_bundle_count = export_bundle_count;
    imported_packages = imported_packages;
    shader_map_hashes = shader_map_hashes;
  })

unfoldable pub serialize_entry : EIoContainerHeaderVersion → FFilePackageStoreEntry → List ℕ
serialize_entry version self =
    (if is_initial version then ser_u64 self.export_bundles_size else [])
    ++ ((if has_counts version
          then ser_i32 self.export_count ++ ser_i32 self.export_bundle_count
          else [])
        ++ ((if is_initial version then ser_u32 self.load_order ++ ser_u32 0 else [])
            ++ (ser_view self.imported_packages
                ++ (if has_shaders version then ser_view self.shader_map_hashes else []))))

-- The offset of `imported_packages` in an entry, and the size of an entry.
unfoldable pub layout : EIoContainerHeaderVersion → ℕ × ℕ
layout pre_initial = (8, 16)
layout initial = (24, 32)
layout localized_packages = (8, 24)
layout optional_segment_packages = (8, 24)
layout no_export_info = (0, 16)
layout soft_package_references = (0, 16)

-- `seek`, and `read_array` from there; an offset past the end leaves nothing to read.
unfoldable pub read_array_at : {A : Type 0} → List ℕ → ℕ → ℕ → Reader A → Outcome (List A)
read_array_at buffer offset num f =
    Outcome.bind (read_array num f (drop offset buffer)) λ (xs, rest). ok xs

unfoldable pub resolve_view : {A : Type 0} → List ℕ → ℕ → CArrayView → Reader A → Outcome (List A)
resolve_view buffer base view f =
    if view.array_num == 0
    then ok []
    else read_array_at buffer (base + view.offset_to_data_from_this) view.array_num f

-- The arrays of the entry at `offset`.
unfoldable pub resolve :
    EIoContainerHeaderVersion → List ℕ → ℕ → FFilePackageStoreEntry → Outcome StoreEntry
resolve version buffer offset entry =
    Outcome.bind (resolve_view buffer (offset + (layout version).0) entry.imported_packages de_u64)
      λ imported_packages.
        Outcome.bind
          (if has_shaders version
            then resolve_view buffer (offset + (layout version).0 + 8) entry.shader_map_hashes
                (read_exact 20)
            else ok [])
          λ shader_map_hashes. ok (record {
            export_bundles_size = entry.export_bundles_size;
            load_order = entry.load_order;
            export_count = entry.export_count;
            export_bundle_count = entry.export_bundle_count;
            imported_packages = imported_packages;
            shader_map_hashes = shader_map_hashes;
          })

-- `enumerate` and `map`, from index `i` on; the first error stops it.
unfoldable pub resolve_all :
    EIoContainerHeaderVersion → List ℕ → ℕ → List FFilePackageStoreEntry → Outcome (List StoreEntry)
resolve_all version buffer i [] = ok []
resolve_all version buffer i (entry ∷ entries) =
    Outcome.bind (resolve version buffer (i * (layout version).1) entry)
      λ new. Outcome.bind (resolve_all version buffer (i + 1) entries) λ rest. ok (new ∷ rest)

abbrev pub zip : {A B : Type 0} → List A → List B → List (A × B)
zip [] bs = []
zip (a ∷ xs) [] = []
zip (a ∷ xs) (b ∷ bs) = (a, b) ∷ zip xs bs

unfoldable pub resolve_buffer :
    EIoContainerHeaderVersion → List ℕ → List ℕ → Outcome (List (ℕ × StoreEntry))
resolve_buffer version package_ids buffer =
    Outcome.bind (read_array (length package_ids) (deserialize_entry version) buffer) λ (raw, _).
      Outcome.bind (resolve_all version buffer 0 raw)
        λ entries. ok (BTreeMap.from_iter ltb (zip package_ids entries))

unfoldable pub deserialize : EIoContainerHeaderVersion → Reader (List (ℕ × StoreEntry))
deserialize version = do
  package_ids ← de_vec de_u64
  buffer ← de_bytes
  lift (resolve_buffer version package_ids buffer)

-- `Cursor<&mut Vec<u8>>`
pub record Cursor : Type 0 where
  pub buffer : List ℕ
  pub position : ℕ

-- A write past the end fills the gap with zeros.
unfoldable pub write_at : List ℕ → ℕ → List ℕ → List ℕ
write_at buffer position bytes =
    let padded = buffer ++ replicate (position - length buffer) 0 in
    take position padded ++ (bytes ++ drop (position + length bytes) padded)

unfoldable pub write : Cursor → List ℕ → Cursor
write cur bytes = record {
  buffer = write_at cur.buffer cur.position bytes;
  position = cur.position + length bytes;
}

-- An array that is not empty is written at the position.
unfoldable pub write_elements : {A : Type 0} → (A → List ℕ) → Cursor → List A → Cursor
write_elements w cur [] = cur
write_elements w cur (x ∷ xs) = write cur (ser_array w (x ∷ xs))

-- What points to it; `base` is where the field stands that points, before the position.
unfoldable pub view_of : {A : Type 0} → ℕ → ℕ → List A → CArrayView
view_of base position [] = no_view
view_of base position (x ∷ xs) = record {
  array_num = length (x ∷ xs) % 2 ^ 32;
  offset_to_data_from_this = (position - base) % 2 ^ 32;
}

-- `[u8; 20]`
abbrev pub ser_hash : List ℕ → List ℕ
ser_hash h = h

abbrev pub stored_hashes : EIoContainerHeaderVersion → StoreEntry → List (List ℕ)
stored_hashes version entry = if has_shaders version then entry.shader_map_hashes else []

-- The entry as it is written at `entry_offset`, by the places of its arrays.
unfoldable pub entry_at :
    EIoContainerHeaderVersion → ℕ → ℕ → ℕ → StoreEntry → FFilePackageStoreEntry
entry_at version entry_offset imported_at shaders_at entry =
    let base = entry_offset + (layout version).0 in
    record {
      export_bundles_size = entry.export_bundles_size;
      load_order = entry.load_order;
      export_count = entry.export_count;
      export_bundle_count = entry.export_bundle_count;
      imported_packages = view_of base imported_at entry.imported_packages;
      shader_map_hashes = view_of (base + 8) shaders_at (stored_hashes version entry);
    }

-- One round of the loop: the cursor behind the entry, and the end of the arrays.
unfoldable pub serialize_one : EIoContainerHeaderVersion → ℕ → Cursor → StoreEntry → Cursor × ℕ
serialize_one version array_offset cur entry =
    let imported =
      write_elements ser_u64 (record { buffer = cur.buffer; position = array_offset })
        entry.imported_packages in
    let shaders = write_elements ser_hash imported (stored_hashes version entry) in
    let ser_entry = entry_at version cur.position array_offset imported.position entry in
    (
      write (record { buffer = shaders.buffer; position = cur.position })
          (serialize_entry version ser_entry),
      shaders.position,
    )

unfoldable pub serialize_all : EIoContainerHeaderVersion → ℕ → Cursor → List StoreEntry → Cursor
serialize_all version array_offset cur [] = cur
serialize_all version array_offset cur (entry ∷ entries) =
    let (next, end) = serialize_one version array_offset cur entry in
    serialize_all version end next entries

unfoldable pub serialize_buffer : EIoContainerHeaderVersion → List StoreEntry → List ℕ
serialize_buffer version entries =
    (serialize_all version (length entries * (layout version).1)
      (record { buffer = []; position = 0 }) entries).buffer

abbrev pub keys : List (ℕ × StoreEntry) → List ℕ
keys self = map (λ p. p.0) self

abbrev pub values : List (ℕ × StoreEntry) → List StoreEntry
values self = map (λ p. p.1) self

unfoldable pub serialize : EIoContainerHeaderVersion → List (ℕ × StoreEntry) → List ℕ
serialize version self =
    ser_u32 (length self % 2 ^ 32)
    ++ (ser_array ser_u64 (keys self) ++ ser_bytes (serialize_buffer version (values self)))
