-- ===== src/LegacyAsset/Summary.antt =====
-- `FLegacyPackageFileSummary` of src/legacy_asset.rs: `deserialize` and `serialize`.
pub mod RoundTrip
pub mod Stored
use retoc.Outcome
use retoc.Outcome.{ok, Outcome, invalid_data, bad_magic}
use retoc.Prelude.Int.{pos, negsuc, leb_ℤ, ℤ, eq_ℤ}
use retoc.Prelude.{[], ◌∷◌, Option, Bool, ℕ, List, if◌then◌else◌, not, bit_and, ◌++◌, ◌==◌}
use retoc.Ser.Stream.{◌>>◌, ◌>>=◌, Reader, lift, pure}
use retoc.Toc.Header.{FGuid, de_guid, ser_guid}
use retoc.LegacyAsset.Records.{
  FCountOffsetPair, FEngineVersion, de_pair, ser_pair, de_generation, de_engine_version,
  ser_generation, ser_engine_version,
}
use retoc.Version.{FPackageFileVersion}
use retoc.LegacyAsset.Versioning.{
  FLegacyPackageVersioningInfo, ser_legacy_versioning, de_legacy_versioning,
}
use retoc.Ser.Words.{ser_i32, de_i32, de_u32, ser_u32, de_i64, ser_i64}
use retoc.Ser.Utf.{Text}
use retoc.Ser.Strings.{de_string, write_string}
use retoc.LegacyAsset.{read_if, write_if}
use retoc.Ser.Arrays.{de_vec, ser_vec}

-- EPackageFlags
abbrev filter_editor_only : ℕ
filter_editor_only = 0x80000000

abbrev uses_unversioned_properties : ℕ
uses_unversioned_properties = 0x2000

-- PACKAGE_FILE_TAG
abbrev pub package_file_tag : ℕ
package_file_tag = 0x9e2a83c1

-- The test `file_version_ue5 >= version as i32` of the versions of `EUnrealEngineObjectUE5Version`
abbrev pub at_least : FPackageFileVersion → ℕ → Bool
at_least version object_version = leb_ℤ (pos object_version) version.file_version_ue5

abbrev pub names_referenced_from_export_data : ℕ
names_referenced_from_export_data = 1001

abbrev payload_toc : ℕ
payload_toc = 1002

abbrev pub add_soft_object_path_list : ℕ
add_soft_object_path_list = 1008

abbrev pub data_resources : ℕ
data_resources = 1009

-- EUnrealEngineObjectUE4Version::NonOuterPackageImport
abbrev pub non_outer_package_import : ℕ
non_outer_package_import = 520

abbrev pub no_pair : FCountOffsetPair
no_pair = record { count = pos 0; offset = pos 0 }

abbrev pub no_guid : FGuid
no_guid = record { a = 0; b = 0; c = 0; d = 0 }

abbrev no_engine_version : FEngineVersion
no_engine_version = record {
  engine_major = 0;
  engine_minor = 0;
  engine_patch = 0;
  changelist = 0;
  branch = [];
}

pub record FLegacyPackageFileSummary : Type 0 where
  pub versioning_info : FLegacyPackageVersioningInfo
  pub total_header_size : ℤ
  pub package_name : Text
  pub package_flags : ℕ
  pub names : FCountOffsetPair
  pub soft_object_paths : FCountOffsetPair
  pub exports : FCountOffsetPair
  pub imports : FCountOffsetPair
  pub depends_offset : ℤ
  pub package_guid : FGuid
  pub package_source : ℕ
  pub world_tile_info_data_offset : ℤ
  pub chunk_ids : List ℤ
  pub preload_dependencies : FCountOffsetPair
  pub names_referenced_from_export_data_count : ℤ
  pub data_resource_offset : ℤ
  pub asset_registry_data_offset : ℤ
  pub bulk_data_start_offset : ℤ

unfoldable pub has_flag : ℕ → ℕ → Bool
has_flag package_flags flag = not (bit_and package_flags flag == 0)

unfoldable pub is_filter_editor_only : FLegacyPackageFileSummary → Bool
is_filter_editor_only self = has_flag self.package_flags filter_editor_only

unfoldable pub uses_unversioned_property_serialization : FLegacyPackageFileSummary → Bool
uses_unversioned_property_serialization self =
    has_flag self.package_flags uses_unversioned_properties

-- What follows the versions.
unfoldable pub de_summary_fields : FLegacyPackageVersioningInfo → Reader FLegacyPackageFileSummary
de_summary_fields versioning_info = do
  let version = versioning_info.package_file_version
  total_header_size ← de_i32
  package_name ← de_string
  package_flags ← de_u32
  names ← de_pair
  soft_object_paths ← read_if (at_least version add_soft_object_path_list) de_pair no_pair
  read_if (not (has_flag package_flags filter_editor_only)) de_string []
  de_pair
  exports ← de_pair
  imports ← de_pair
  depends_offset ← de_i32
  de_pair
  de_i32
  de_i32
  package_guid ← de_guid
  read_if (not (has_flag package_flags filter_editor_only)) de_guid no_guid
  de_vec de_generation
  de_engine_version
  de_engine_version
  compression_flags ← de_u32
  lift (Outcome.ensure invalid_data (compression_flags == 0))
  num_compressed_chunks ← de_i32
  lift (Outcome.ensure invalid_data (eq_ℤ num_compressed_chunks (pos 0)))
  package_source ← de_u32
  de_vec de_string
  asset_registry_data_offset ← de_i32
  bulk_data_start_offset ← de_i64
  world_tile_info_data_offset ← de_i32
  chunk_ids ← de_vec de_i32
  preload_dependencies ← de_pair
  names_referenced ← read_if (at_least version names_referenced_from_export_data) de_i32 names.count
  read_if (at_least version payload_toc) de_i64 (negsuc 0)
  data_resource_offset ← read_if (at_least version data_resources) de_i32 (negsuc 0)
  pure (record {
    versioning_info = versioning_info;
    total_header_size = total_header_size;
    package_name = package_name;
    package_flags = package_flags;
    names = names;
    soft_object_paths = soft_object_paths;
    exports = exports;
    imports = imports;
    depends_offset = depends_offset;
    package_guid = package_guid;
    package_source = package_source;
    world_tile_info_data_offset = world_tile_info_data_offset;
    chunk_ids = chunk_ids;
    preload_dependencies = preload_dependencies;
    names_referenced_from_export_data_count = names_referenced;
    data_resource_offset = data_resource_offset;
    asset_registry_data_offset = asset_registry_data_offset;
    bulk_data_start_offset = bulk_data_start_offset;
  })

-- The versions to use: those of the fallback for a package without any.
unfoldable pub use_fallback :
    Option FPackageFileVersion → FLegacyPackageVersioningInfo → Outcome FLegacyPackageVersioningInfo
use_fallback fallback versioning_info =
    if versioning_info.is_unversioned
    then Outcome.bind (Outcome.context invalid_data fallback)
        (λ version. ok (record versioning_info { package_file_version = version }))
    else ok versioning_info

unfoldable pub deserialize_summary : Option FPackageFileVersion → Reader FLegacyPackageFileSummary
deserialize_summary fallback = do
  asset_magic_tag ← de_u32
  lift (Outcome.ensure bad_magic (asset_magic_tag == package_file_tag))
  stored ← de_legacy_versioning
  versioning_info ← lift (use_fallback fallback stored)
  lift (
      Outcome.ensure invalid_data (
        leb_ℤ (pos non_outer_package_import) versioning_info.package_file_version.file_version_ue4))
  de_summary_fields versioning_info

unfoldable deserialize_summary_minimal_version_independent :
    Reader (FLegacyPackageVersioningInfo × FCountOffsetPair × Text × ℤ × ℕ)
deserialize_summary_minimal_version_independent = do
  asset_magic_tag ← de_u32
  lift (Outcome.ensure bad_magic (asset_magic_tag == package_file_tag))
  versioning_info ← de_legacy_versioning
  total_header_size ← de_i32
  package_name ← de_string
  package_flags ← de_u32
  names ← de_pair
  pure (versioning_info, names, package_name, total_header_size, package_flags)

unfoldable pub summary_bytes : FLegacyPackageFileSummary → List ℕ
summary_bytes self =
    let version = self.versioning_info.package_file_version in
    ser_i32 self.total_header_size
    ++ (write_string self.package_name
        ++ (ser_u32 self.package_flags
            ++ (ser_pair self.names
                ++ (write_if (at_least version add_soft_object_path_list)
                      (ser_pair self.soft_object_paths)
                    ++ (write_if (not (is_filter_editor_only self)) (write_string [])
                        ++ (ser_pair no_pair
                            ++ (ser_pair self.exports
                                ++ (ser_pair self.imports
                                    ++ (ser_i32 self.depends_offset
                                        ++ (ser_pair no_pair
                                            ++ (ser_i32 (pos 0)
                                                ++ (ser_i32 (pos 0)
                                                    ++ (ser_guid self.package_guid
                                                        ++ (ser_vec ser_generation (
                                                            record {
                                                            export_count = self.exports.count;
                                                            name_count = self.names.count;
                                                            }
                                                            ∷ [])
                                                            ++ (write_if
                                                            (not (is_filter_editor_only self))
                                                            (ser_guid no_guid)
                                                            ++ (ser_engine_version no_engine_version
                                                            ++ (ser_engine_version no_engine_version
                                                            ++ (ser_u32 0
                                                            ++ (ser_i32 (pos 0)
                                                            ++ (ser_u32 self.package_source
                                                            ++ (ser_vec write_string []
                                                            ++ (ser_i32
                                                            self.asset_registry_data_offset
                                                            ++ (ser_i64 self.bulk_data_start_offset
                                                            ++ (ser_i32
                                                            self.world_tile_info_data_offset
                                                            ++ (ser_vec ser_i32 self.chunk_ids
                                                            ++ (ser_pair self.preload_dependencies
                                                            ++ (write_if
                                                            (at_least version
                                                            names_referenced_from_export_data)
                                                            (ser_i32
                                                            self.names_referenced_from_export_data_count)
                                                            ++ (write_if
                                                            (at_least version payload_toc)
                                                            (ser_i64 (negsuc 0))
                                                            ++ write_if
                                                            (at_least version data_resources)
                                                            (ser_i32
                                                            self.data_resource_offset)))))))))))))))))))))))))))))

unfoldable pub serialize_summary : FLegacyPackageFileSummary → Outcome (List ℕ)
serialize_summary self =
    Outcome.bind
      (Outcome.ensure invalid_data (
        leb_ℤ (pos non_outer_package_import)
          self.versioning_info.package_file_version.file_version_ue4))
      λ _.
        Outcome.bind (ser_legacy_versioning self.versioning_info)
          λ versioning. ok (ser_u32 package_file_tag ++ (versioning ++ summary_bytes self))
