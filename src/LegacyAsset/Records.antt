-- ===== src/LegacyAsset/Records.antt =====
-- The small records of src/legacy_asset.rs: names, counts with offsets, generations, engine versions
-- and data resources.
use retoc.Prelude.{ℕ, List, ◌<◌, ◌^◌, append_assoc, ◌++◌}
use retoc.Ser.Stream.{◌>>=◌, RoundTrips, Reader, pure}
use retoc.Ser.Utf.{Text, IsText}
use retoc.Prelude.Int.{ℤ, InRange}
use retoc.Ser.Words.{
  de_i32, de_u16, ser_i32, de_u32, ser_u16, ser_u32, de_u16-ser_u16, de_u32-ser_u32, de_i32-ser_i32,
  de_i64, de_i64-ser_i64, ser_i64,
}
use retoc.Zen.PackageIndex.{
  FPackageIndex, de_package_index, ser_package_index, de_package_index-ser_package_index,
}
use retoc.Ser.Strings.{de_string, write_string, de_string-write_string, IsShort}

pub record FMinimalName : Type 0 where
  pub index : ℤ
  pub number : ℤ

unfoldable pub de_minimal_name : Reader FMinimalName
de_minimal_name = do
  index ← de_i32
  number ← de_i32
  pure (record { index = index; number = number })

unfoldable pub ser_minimal_name : FMinimalName → List ℕ
ser_minimal_name self = ser_i32 self.index ++ ser_i32 self.number

-- What the fields of the file can hold.
pub record IsMinimalName (self : FMinimalName) : Type 0 where
  pub index : InRange (2 ^ 31) self.index
  pub number : InRange (2 ^ 31) self.number

pub de_minimal_name-ser_minimal_name : RoundTrips de_minimal_name ser_minimal_name IsMinimalName
unfolding de_minimal_name ser_minimal_name
de_minimal_name-ser_minimal_name self rest h =
    simp (append_assoc, de_i32-ser_i32, h.index, h.number)

pub record FCountOffsetPair : Type 0 where
  pub count : ℤ
  pub offset : ℤ

unfoldable pub de_pair : Reader FCountOffsetPair
de_pair = do count ← de_i32; offset ← de_i32; pure (record { count = count; offset = offset })

unfoldable pub ser_pair : FCountOffsetPair → List ℕ
ser_pair self = ser_i32 self.count ++ ser_i32 self.offset

-- What the fields of the file can hold.
pub record IsCountOffsetPair (self : FCountOffsetPair) : Type 0 where
  pub count : InRange (2 ^ 31) self.count
  pub offset : InRange (2 ^ 31) self.offset

pub de_pair-ser_pair : RoundTrips de_pair ser_pair IsCountOffsetPair
unfolding de_pair ser_pair
de_pair-ser_pair self rest h = simp (append_assoc, de_i32-ser_i32, h.count, h.offset)

pub record FGenerationInfo : Type 0 where
  pub export_count : ℤ
  pub name_count : ℤ

unfoldable pub de_generation : Reader FGenerationInfo
de_generation = do
  export_count ← de_i32
  name_count ← de_i32
  pure (record { export_count = export_count; name_count = name_count })

unfoldable pub ser_generation : FGenerationInfo → List ℕ
ser_generation self = ser_i32 self.export_count ++ ser_i32 self.name_count

-- What the fields of the file can hold.
pub record IsGenerationInfo (self : FGenerationInfo) : Type 0 where
  pub export_count : InRange (2 ^ 31) self.export_count
  pub name_count : InRange (2 ^ 31) self.name_count

pub de_generation-ser_generation : RoundTrips de_generation ser_generation IsGenerationInfo
unfolding de_generation ser_generation
de_generation-ser_generation self rest h =
    simp (append_assoc, de_i32-ser_i32, h.export_count, h.name_count)

pub record FEngineVersion : Type 0 where
  pub engine_major : ℕ
  pub engine_minor : ℕ
  pub engine_patch : ℕ
  pub changelist : ℕ
  pub branch : Text

unfoldable pub de_engine_version : Reader FEngineVersion
de_engine_version = do
  engine_major ← de_u16
  engine_minor ← de_u16
  engine_patch ← de_u16
  changelist ← de_u32
  branch ← de_string
  pure (record {
    engine_major = engine_major;
    engine_minor = engine_minor;
    engine_patch = engine_patch;
    changelist = changelist;
    branch = branch;
  })

unfoldable pub ser_engine_version : FEngineVersion → List ℕ
ser_engine_version self =
    ser_u16 self.engine_major
    ++ (ser_u16 self.engine_minor
        ++ (ser_u16 self.engine_patch ++ (ser_u32 self.changelist ++ write_string self.branch)))

-- What the fields of the file can hold.
pub record IsEngineVersion (self : FEngineVersion) : Type 0 where
  pub engine_major : self.engine_major < 2 ^ 16
  pub engine_minor : self.engine_minor < 2 ^ 16
  pub engine_patch : self.engine_patch < 2 ^ 16
  pub changelist : self.changelist < 2 ^ 32
  pub branch : IsText self.branch × IsShort self.branch

pub de_engine_version-ser_engine_version :
    RoundTrips de_engine_version ser_engine_version IsEngineVersion
unfolding de_engine_version ser_engine_version
de_engine_version-ser_engine_version self rest h = simp (
  append_assoc, de_u16-ser_u16, de_u32-ser_u32, de_string-write_string, h.engine_major,
  h.engine_minor, h.engine_patch, h.changelist, h.branch,
)

record FObjectDataResource : Type 0 where
  pub flags : ℕ
  pub serial_offset : ℤ
  pub duplicate_serial_offset : ℤ
  pub serial_size : ℤ
  pub raw_size : ℤ
  pub outer_index : FPackageIndex
  pub legacy_bulk_data_flags : ℕ

unfoldable de_data_resource : Reader FObjectDataResource
de_data_resource = do
  flags ← de_u32
  serial_offset ← de_i64
  duplicate_serial_offset ← de_i64
  serial_size ← de_i64
  raw_size ← de_i64
  outer_index ← de_package_index
  legacy_bulk_data_flags ← de_u32
  pure (record {
    flags = flags;
    serial_offset = serial_offset;
    duplicate_serial_offset = duplicate_serial_offset;
    serial_size = serial_size;
    raw_size = raw_size;
    outer_index = outer_index;
    legacy_bulk_data_flags = legacy_bulk_data_flags;
  })

unfoldable ser_data_resource : FObjectDataResource → List ℕ
ser_data_resource self =
    ser_u32 self.flags
    ++ (ser_i64 self.serial_offset
        ++ (ser_i64 self.duplicate_serial_offset
            ++ (ser_i64 self.serial_size
                ++ (ser_i64 self.raw_size
                    ++ (ser_package_index self.outer_index
                        ++ ser_u32 self.legacy_bulk_data_flags)))))

-- What the fields of the file can hold.
record IsObjectDataResource (self : FObjectDataResource) : Type 0 where
  pub flags : self.flags < 2 ^ 32
  pub serial_offset : InRange (2 ^ 63) self.serial_offset
  pub duplicate_serial_offset : InRange (2 ^ 63) self.duplicate_serial_offset
  pub serial_size : InRange (2 ^ 63) self.serial_size
  pub raw_size : InRange (2 ^ 63) self.raw_size
  pub outer_index : InRange (2 ^ 31) self.outer_index.index
  pub legacy_bulk_data_flags : self.legacy_bulk_data_flags < 2 ^ 32

de_data_resource-ser_data_resource :
    RoundTrips de_data_resource ser_data_resource IsObjectDataResource
unfolding de_data_resource ser_data_resource
de_data_resource-ser_data_resource self rest h = simp (
  append_assoc, de_u32-ser_u32, de_i64-ser_i64, de_package_index-ser_package_index, h.flags,
  h.serial_offset, h.duplicate_serial_offset, h.serial_size, h.raw_size, h.outer_index,
  h.legacy_bulk_data_flags,
)
