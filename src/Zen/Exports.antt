-- ===== src/Zen/Exports.antt =====
-- The maps of exports of src/zen.rs: `FBulkDataMapEntry`, `FExportMapEntry` and
-- `FExportBundleEntry`.
use retoc.Prelude.{
  ℕ, [], true, ◌∷◌, ◌<◌, Bool, List, append_assoc, ◌^◌, not, ◌++◌, ◌==◌, ◌≡◌, ◌&&◌, ◌↔◌, get_elem?,
  length, arith, ◌≢◌, ◌-◌, refl,
}
use retoc.Ser.Stream.{◌>>=◌, RoundTrips, Reader, lift, pure, read_exact, read_exact-append}
use retoc.ScriptObjects.{
  create_from_raw, FPackageObjectIndex, create_null, ser_object_index, de_object_index,
}
use retoc.Prelude.Int.{InRange, ℤ}
use retoc.NameMap.{
  FMappedName, de_mapped_name, IsMappedName, ser_mapped_name, de_mapped_name-ser_mapped_name,
}
use retoc.Ser.Words.{
  ser_u8, de_u32, de_u64, ser_u32, ser_u64, ser_i64, de_u8, de_i64, de_u32-ser_u32, de_i64-ser_i64,
  de_u8-ser_u8, de_u64-ser_u64,
}
use retoc.Outcome.{ok, invalid_data}
use retoc.Outcome
use retoc.ScriptObjects

record FBulkDataMapEntry : Type 0 where
  pub serial_offset : ℤ
  pub duplicate_serial_offset : ℤ
  pub serial_size : ℤ
  pub flags : ℕ
  pub pad : ℕ

unfoldable de_bulk_data : Reader FBulkDataMapEntry
de_bulk_data = do
  serial_offset ← de_i64
  duplicate_serial_offset ← de_i64
  serial_size ← de_i64
  flags ← de_u32
  pad ← de_u32
  pure (record {
    serial_offset = serial_offset;
    duplicate_serial_offset = duplicate_serial_offset;
    serial_size = serial_size;
    flags = flags;
    pad = pad;
  })

unfoldable ser_bulk_data : FBulkDataMapEntry → List ℕ
ser_bulk_data self =
    ser_i64 self.serial_offset
    ++ (ser_i64 self.duplicate_serial_offset
        ++ (ser_i64 self.serial_size ++ (ser_u32 self.flags ++ ser_u32 self.pad)))

-- What the fields of the file can hold.
record IsBulkDataMapEntry (self : FBulkDataMapEntry) : Type 0 where
  pub serial_offset : InRange (2 ^ 63) self.serial_offset
  pub duplicate_serial_offset : InRange (2 ^ 63) self.duplicate_serial_offset
  pub serial_size : InRange (2 ^ 63) self.serial_size
  pub flags : self.flags < 2 ^ 32
  pub pad : self.pad < 2 ^ 32

de_bulk_data-ser_bulk_data : RoundTrips de_bulk_data ser_bulk_data IsBulkDataMapEntry
unfolding de_bulk_data ser_bulk_data
de_bulk_data-ser_bulk_data self rest h = simp (
  append_assoc, de_i64-ser_i64, de_u32-ser_u32, h.serial_offset, h.duplicate_serial_offset,
  h.serial_size, h.flags, h.pad,
)

pub data EExportFilterFlags : Type 0 where
  unfiltered not_for_client not_for_server : EExportFilterFlags

-- `from_repr`
abbrev filter_flags_variants : List EExportFilterFlags
filter_flags_variants = unfiltered ∷ not_for_client ∷ not_for_server ∷ []

abbrev filter_flags_repr : EExportFilterFlags → ℕ
filter_flags_repr unfiltered = 0
filter_flags_repr not_for_client = 1
filter_flags_repr not_for_server = 2

unfoldable pub de_filter_flags : Reader EExportFilterFlags
de_filter_flags = do
  raw ← de_u8
  lift (Outcome.context invalid_data (get_elem? filter_flags_variants raw))

unfoldable pub ser_filter_flags : EExportFilterFlags → List ℕ
ser_filter_flags self = ser_u8 (filter_flags_repr self)

de_filter_flags-ser_filter_flags :
    (v : EExportFilterFlags) (rest : List ℕ)
    → de_filter_flags (ser_filter_flags v ++ rest) ≡ ok (v, rest)
unfolding de_filter_flags ser_filter_flags
de_filter_flags-ser_filter_flags unfiltered rest = rw (de_u8-ser_u8 0 rest (omega arith))
de_filter_flags-ser_filter_flags not_for_client rest = rw (de_u8-ser_u8 1 rest (omega arith))
de_filter_flags-ser_filter_flags not_for_server rest = rw (de_u8-ser_u8 2 rest (omega arith))

pub record FExportMapEntry : Type 0 where
  pub cooked_serial_offset : ℕ
  pub cooked_serial_size : ℕ
  pub object_name : FMappedName
  pub outer_index : FPackageObjectIndex
  pub class_index : FPackageObjectIndex
  pub super_index : FPackageObjectIndex
  pub template_index : FPackageObjectIndex
  pub public_export_hash : ℕ
  pub object_flags : ℕ
  pub filter_flags : EExportFilterFlags
  pub padding : List ℕ

unfoldable pub de_export_map_entry : Reader FExportMapEntry
de_export_map_entry = do
  cooked_serial_offset ← de_u64
  cooked_serial_size ← de_u64
  object_name ← de_mapped_name
  outer_index ← de_object_index
  class_index ← de_object_index
  super_index ← de_object_index
  template_index ← de_object_index
  public_export_hash ← de_u64
  object_flags ← de_u32
  filter_flags ← de_filter_flags
  padding ← read_exact 3
  pure (record {
    cooked_serial_offset = cooked_serial_offset;
    cooked_serial_size = cooked_serial_size;
    object_name = object_name;
    outer_index = outer_index;
    class_index = class_index;
    super_index = super_index;
    template_index = template_index;
    public_export_hash = public_export_hash;
    object_flags = object_flags;
    filter_flags = filter_flags;
    padding = padding;
  })

unfoldable pub ser_export_map_entry : FExportMapEntry → List ℕ
ser_export_map_entry self =
    ser_u64 self.cooked_serial_offset
    ++ (ser_u64 self.cooked_serial_size
        ++ (ser_mapped_name self.object_name
            ++ (ser_object_index self.outer_index
                ++ (ser_object_index self.class_index
                    ++ (ser_object_index self.super_index
                        ++ (ser_object_index self.template_index
                            ++ (ser_u64 self.public_export_hash
                                ++ (ser_u32 self.object_flags
                                    ++ (ser_filter_flags self.filter_flags ++ self.padding)))))))))

-- What the fields of the file can hold.
pub record IsExportMapEntry (self : FExportMapEntry) : Type 0 where
  pub cooked_serial_offset : self.cooked_serial_offset < 2 ^ 64
  pub cooked_serial_size : self.cooked_serial_size < 2 ^ 64
  pub object_name : IsMappedName self.object_name
  pub outer_index : self.outer_index.type_and_id < 2 ^ 64
  pub class_index : self.class_index.type_and_id < 2 ^ 64
  pub super_index : self.super_index.type_and_id < 2 ^ 64
  pub template_index : self.template_index.type_and_id < 2 ^ 64
  pub public_export_hash : self.public_export_hash < 2 ^ 64
  pub object_flags : self.object_flags < 2 ^ 32
  pub padding : length self.padding ≡ 3

-- An entry of the export map whose fields hold values of their types is read back as it was written.
pub de_export_map_entry-ser_export_map_entry :
    (self : FExportMapEntry) (rest : List ℕ)
    → IsExportMapEntry self
    → de_export_map_entry (ser_export_map_entry self ++ rest) ≡ ok (self, rest)
unfolding de_export_map_entry ser_export_map_entry de_object_index ser_object_index
de_export_map_entry-ser_export_map_entry self rest h = simp (
  append_assoc, de_u64-ser_u64, de_mapped_name-ser_mapped_name, de_u32-ser_u32,
  de_filter_flags-ser_filter_flags, read_exact-append, h.cooked_serial_offset, h.cooked_serial_size,
  h.object_name, h.outer_index, h.class_index, h.super_index, h.template_index,
  h.public_export_hash, h.object_flags, h.padding,
)

unfoldable pub legacy_global_import_index : FExportMapEntry → FPackageObjectIndex
legacy_global_import_index self = create_from_raw self.public_export_hash

unfoldable pub is_public_export : FExportMapEntry → Bool
is_public_export self =
    not (self.public_export_hash == 0)
    && not ((legacy_global_import_index self).type_and_id == create_null.type_and_id)

null_bits : create_null.type_and_id ≡ 2 ^ 64 - 1
unfolding create_null ScriptObjects.create
null_bits = refl

test_of_hash :
    (hash : ℕ)
    → (not (hash == 0) && not (hash == 2 ^ 64 - 1)) ≡ true ↔ (hash ≢ 0) × (hash ≢ 2 ^ 64 - 1)
test_of_hash hash = ground arith

-- An export is public exactly where its hash is neither 0 nor the one with all bits set.
is_public_export_iff :
    (self : FExportMapEntry)
    → is_public_export self ≡ true
      ↔ (self.public_export_hash ≢ 0) × (self.public_export_hash ≢ 2 ^ 64 - 1)
unfolding is_public_export legacy_global_import_index create_from_raw
is_public_export_iff self = rw null_bits (test_of_hash self.public_export_hash)

pub data EExportCommandType : Type 0 where
  create_export serialize_export count : EExportCommandType

-- `from_repr`
abbrev pub command_type_variants : List EExportCommandType
command_type_variants = create_export ∷ serialize_export ∷ count ∷ []

abbrev pub command_type_repr : EExportCommandType → ℕ
command_type_repr create_export = 0
command_type_repr serialize_export = 1
command_type_repr count = 2

unfoldable de_command_type : Reader EExportCommandType
de_command_type = do raw ← de_u32; lift (Outcome.unwrap (get_elem? command_type_variants raw))

unfoldable ser_command_type : EExportCommandType → List ℕ
ser_command_type self = ser_u32 (command_type_repr self)

de_command_type-ser_command_type :
    (v : EExportCommandType) (rest : List ℕ)
    → de_command_type (ser_command_type v ++ rest) ≡ ok (v, rest)
unfolding de_command_type ser_command_type
de_command_type-ser_command_type create_export rest = rw (de_u32-ser_u32 0 rest (omega arith))
de_command_type-ser_command_type serialize_export rest = rw (de_u32-ser_u32 1 rest (omega arith))
de_command_type-ser_command_type count rest = rw (de_u32-ser_u32 2 rest (omega arith))

pub record FExportBundleEntry : Type 0 where
  pub local_export_index : ℕ
  pub command_type : EExportCommandType

unfoldable de_bundle_entry : Reader FExportBundleEntry
de_bundle_entry = do
  local_export_index ← de_u32
  command_type ← de_command_type
  pure (record { local_export_index = local_export_index; command_type = command_type })

unfoldable ser_bundle_entry : FExportBundleEntry → List ℕ
ser_bundle_entry self = ser_u32 self.local_export_index ++ ser_command_type self.command_type

-- What the fields of the file can hold.
record IsExportBundleEntry (self : FExportBundleEntry) : Type 0 where
  pub local_export_index : self.local_export_index < 2 ^ 32

de_bundle_entry-ser_bundle_entry : RoundTrips de_bundle_entry ser_bundle_entry IsExportBundleEntry
unfolding de_bundle_entry ser_bundle_entry
de_bundle_entry-ser_bundle_entry self rest h =
    simp (append_assoc, de_u32-ser_u32, de_command_type-ser_command_type, h.local_export_index)
