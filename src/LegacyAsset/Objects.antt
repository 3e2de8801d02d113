-- ===== src/LegacyAsset/Objects.antt =====
-- `FObjectExport` of src/legacy_asset.rs.

use retoc.Outcome.{ok}
use retoc.Ser.Stream.{◌>>=◌, ◌>>◌, RoundTrips, Reader, pure}
use retoc.Prelude.{
  true, false, refl, ℕ, Bool, ◌<◌, List, not, ◌^◌, arith, ◌++◌, ◌≡◌, ◌&&◌, append_assoc,
}
use retoc.Prelude.Int.{pos, InRange, ℤ}
use retoc.LegacyAsset.Records.{
  FMinimalName, IsMinimalName, de_minimal_name, ser_minimal_name, de_minimal_name-ser_minimal_name,
}
use retoc.LegacyAsset.Summary.{
  FLegacyPackageFileSummary, no_guid, at_least, uses_unversioned_property_serialization,
}
use retoc.Zen.PackageIndex.{
  FPackageIndex, de_package_index, ser_package_index, de_package_index-ser_package_index,
}
use retoc.Ser.Words.{
  de_bool, ser_bool, de_u32, ser_u32, ser_i64, de_i64, de_bool-ser_bool, de_i32, ser_i32,
  de_u32-ser_u32, de_i32-ser_i32, de_i64-ser_i64,
}
use retoc.LegacyAsset.{IsOptional, read_if, write_if, read_if-write_if}
use retoc.Toc.Header.{IsGuid, de_guid, ser_guid, de_guid-ser_guid}

abbrev pub optional_resources : ℕ
optional_resources = 1003

abbrev remove_object_export_package_guid : ℕ
remove_object_export_package_guid = 1005

abbrev track_object_export_is_inherited : ℕ
track_object_export_is_inherited = 1006

abbrev script_serialization_offset : ℕ
script_serialization_offset = 1010

unfoldable pub script_props : FLegacyPackageFileSummary → Bool
script_props summary =
    not (uses_unversioned_property_serialization summary)
    && at_least summary.versioning_info.package_file_version script_serialization_offset

abbrev pub IsBool : Bool → Type 0
IsBool b = Unit

de_bools : (b : Bool) (rest : List ℕ) → de_bool (ser_bool b ++ rest) ≡ ok (b, rest)
de_bools b rest = de_bool-ser_bool b rest tt

pub de_bools_if : RoundTrips de_bool ser_bool IsBool
de_bools_if b rest h = de_bools b rest

nothing_fits : 0 < 2 ^ 32
nothing_fits = omega arith

no_guid_fits : (b : Bool) → IsOptional b IsGuid no_guid no_guid
no_guid_fits true = omega arith
no_guid_fits false = refl

pub record FObjectExport : Type 0 where
  pub class_index : FPackageIndex
  pub super_index : FPackageIndex
  pub template_index : FPackageIndex
  pub outer_index : FPackageIndex
  pub object_name : FMinimalName
  pub object_flags : ℕ
  pub serial_size : ℤ
  pub serial_offset : ℤ
  pub is_not_for_client : Bool
  pub is_not_for_server : Bool
  pub is_inherited_instance : Bool
  pub is_not_always_loaded_for_editor_game : Bool
  pub is_asset : Bool
  pub generate_public_hash : Bool
  pub first_export_dependency_index : ℤ
  pub serialize_before_serialize_dependencies : ℤ
  pub create_before_serialize_dependencies : ℤ
  pub serialize_before_create_dependencies : ℤ
  pub create_before_create_dependencies : ℤ
  pub script_serialization_start_offset : ℤ
  pub script_serialization_end_offset : ℤ

unfoldable pub de_object_export : FLegacyPackageFileSummary → Reader FObjectExport
de_object_export summary = do
  let version = summary.versioning_info.package_file_version
  class_index ← de_package_index
  super_index ← de_package_index
  template_index ← de_package_index
  outer_index ← de_package_index
  object_name ← de_minimal_name
  object_flags ← de_u32
  serial_size ← de_i64
  serial_offset ← de_i64
  de_bool
  is_not_for_client ← de_bool
  is_not_for_server ← de_bool
  read_if (not (at_least version remove_object_export_package_guid)) de_guid no_guid
  is_inherited_instance ← read_if (at_least version track_object_export_is_inherited) de_bool false
  de_u32
  is_not_always_loaded_for_editor_game ← de_bool
  is_asset ← de_bool
  generate_public_hash ← read_if (at_least version optional_resources) de_bool true
  first_export_dependency_index ← de_i32
  serialize_before_serialize_dependencies ← de_i32
  create_before_serialize_dependencies ← de_i32
  serialize_before_create_dependencies ← de_i32
  create_before_create_dependencies ← de_i32
  script_serialization_start_offset ← read_if (script_props summary) de_i64 (pos 0)
  script_serialization_end_offset ← read_if (script_props summary) de_i64 (pos 0)
  pure (record {
    class_index = class_index;
    super_index = super_index;
    template_index = template_index;
    outer_index = outer_index;
    object_name = object_name;
    object_flags = object_flags;
    serial_size = serial_size;
    serial_offset = serial_offset;
    is_not_for_client = is_not_for_client;
    is_not_for_server = is_not_for_server;
    is_inherited_instance = is_inherited_instance;
    is_not_always_loaded_for_editor_game = is_not_always_loaded_for_editor_game;
    is_asset = is_asset;
    generate_public_hash = generate_public_hash;
    first_export_dependency_index = first_export_dependency_index;
    serialize_before_serialize_dependencies = serialize_before_serialize_dependencies;
    create_before_serialize_dependencies = create_before_serialize_dependencies;
    serialize_before_create_dependencies = serialize_before_create_dependencies;
    create_before_create_dependencies = create_before_create_dependencies;
    script_serialization_start_offset = script_serialization_start_offset;
    script_serialization_end_offset = script_serialization_end_offset;
  })

unfoldable pub ser_object_export : FLegacyPackageFileSummary → FObjectExport → List ℕ
ser_object_export summary self =
    let version = summary.versioning_info.package_file_version in
    ser_package_index self.class_index
    ++ (ser_package_index self.super_index
        ++ (ser_package_index self.template_index
            ++ (ser_package_index self.outer_index
                ++ (ser_minimal_name self.object_name
                    ++ (ser_u32 self.object_flags
                        ++ (ser_i64 self.serial_size
                            ++ (ser_i64 self.serial_offset
                                ++ (ser_bool false
                                    ++ (ser_bool self.is_not_for_client
                                        ++ (ser_bool self.is_not_for_server
                                            ++ (write_if
                                                  (not (
                                                    at_least version
                                                      remove_object_export_package_guid))
                                                  (ser_guid no_guid)
                                                ++ (write_if
                                                      (at_least version
                                                        track_object_export_is_inherited)
                                                      (ser_bool self.is_inherited_instance)
                                                    ++ (ser_u32 0
                                                        ++ (ser_bool
                                                            self.is_not_always_loaded_for_editor_game
                                                            ++ (ser_bool self.is_asset
                                                            ++ (write_if
                                                            (at_least version optional_resources)
                                                            (ser_bool self.generate_public_hash)
                                                            ++ (ser_i32
                                                            self.first_export_dependency_index
                                                            ++ (ser_i32
                                                            self.serialize_before_serialize_dependencies
                                                            ++ (ser_i32
                                                            self.create_before_serialize_dependencies
                                                            ++ (ser_i32
                                                            self.serialize_before_create_dependencies
                                                            ++ (ser_i32
                                                            self.create_before_create_dependencies
                                                            ++ (write_if (script_props summary) (
                                                            ser_i64
                                                            self.script_serialization_start_offset)
                                                            ++ write_if (script_props summary) (
                                                            ser_i64
                                                            self.script_serialization_end_offset)))))))))))))))))))))))

-- What the fields of the file can hold under the summary, and the defaults of those that it leaves
-- out.
pub record IsObjectExport (summary : FLegacyPackageFileSummary) (self : FObjectExport)
    : Type 0 where
  pub class_index : InRange (2 ^ 31) self.class_index.index
  pub super_index : InRange (2 ^ 31) self.super_index.index
  pub template_index : InRange (2 ^ 31) self.template_index.index
  pub outer_index : InRange (2 ^ 31) self.outer_index.index
  pub object_name : IsMinimalName self.object_name
  pub object_flags : self.object_flags < 2 ^ 32
  pub serial_size : InRange (2 ^ 63) self.serial_size
  pub serial_offset : InRange (2 ^ 63) self.serial_offset
  pub is_inherited_instance :
      IsOptional
        (at_least summary.versioning_info.package_file_version track_object_export_is_inherited)
        IsBool
        false
        self.is_inherited_instance
  pub generate_public_hash :
      IsOptional
        (at_least summary.versioning_info.package_file_version optional_resources)
        IsBool
        true
        self.generate_public_hash
  pub first_export_dependency_index : InRange (2 ^ 31) self.first_export_dependency_index
  pub serialize_before_serialize_dependencies :
      InRange (2 ^ 31) self.serialize_before_serialize_dependencies
  pub create_before_serialize_dependencies :
      InRange (2 ^ 31) self.create_before_serialize_dependencies
  pub serialize_before_create_dependencies :
      InRange (2 ^ 31) self.serialize_before_create_dependencies
  pub create_before_create_dependencies : InRange (2 ^ 31) self.create_before_create_dependencies
  pub script_serialization_start_offset :
      IsOptional
        (script_props summary)
        (InRange (2 ^ 63))
        (pos 0)
        self.script_serialization_start_offset
  pub script_serialization_end_offset :
      IsOptional
        (script_props summary)
        (InRange (2 ^ 63))
        (pos 0)
        self.script_serialization_end_offset

-- An export whose fields hold values of their types is read back as it was written, under every
-- summary, where the fields that the version leaves out have their defaults.
pub de_object_export-ser_object_export :
    (summary : FLegacyPackageFileSummary) (self : FObjectExport) (rest : List ℕ)
    → IsObjectExport summary self
    → de_object_export summary (ser_object_export summary self ++ rest) ≡ ok (self, rest)
unfolding de_object_export ser_object_export
de_object_export-ser_object_export summary self rest h = simp (
  append_assoc,
  de_package_index-ser_package_index,
  de_minimal_name-ser_minimal_name,
  de_bools,
  read_if-write_if de_bool ser_bool IsBool de_bools_if,
  de_u32-ser_u32,
  de_i32-ser_i32,
  de_i64-ser_i64,
  nothing_fits,
  no_guid_fits,
  read_if-write_if de_guid ser_guid IsGuid de_guid-ser_guid,
  read_if-write_if de_i64 ser_i64 (InRange (2 ^ 63)) de_i64-ser_i64,
  h.class_index,
  h.super_index,
  h.template_index,
  h.outer_index,
  h.object_name,
  h.object_flags,
  h.serial_size,
  h.serial_offset,
  h.is_inherited_instance,
  h.generate_public_hash,
  h.first_export_dependency_index,
  h.serialize_before_serialize_dependencies,
  h.create_before_serialize_dependencies,
  h.serialize_before_create_dependencies,
  h.create_before_create_dependencies,
  h.script_serialization_start_offset,
  h.script_serialization_end_offset,
)
