-- ===== src/LegacyAsset/Summary/Stored.antt =====
-- What `serialize` of src/legacy_asset.rs keeps of a summary, and `deserialize` on it.
use retoc.LegacyAsset.Versioning.{derived_version, FLegacyPackageVersioningInfo, known}
use retoc.Prelude.{true, false, [], Bool, ◌≡◌, if◌then◌else◌, ◌^◌, length, ◌<◌}
use retoc.Prelude.Int.{negsuc, pos, leb_ℤ, InRange}
use retoc.LegacyAsset.Summary.{
  FLegacyPackageFileSummary, is_filter_editor_only, at_least, non_outer_package_import,
  add_soft_object_path_list, no_pair, names_referenced_from_export_data, data_resources,
}
use retoc.Zen.Versioning.{IsPackageFileVersion, IsCustomVersion}
use retoc.LegacyAsset.Records.{IsCountOffsetPair}
use retoc.Ser.Arrays.{All}
use retoc.Ser.Utf.{IsText}
use retoc.Ser.Strings.{IsShort}
use retoc.Toc.Header.{IsGuid}

abbrev stored_info : FLegacyPackageVersioningInfo → FLegacyPackageVersioningInfo
stored_info self = record self {
  legacy_file_version = derived_version self;
  licensee_version = known self self.licensee_version;
}

-- The legacy version follows from the others, an unversioned package has no licensee version, and
-- the fields that the version has no place for get their defaults.
abbrev pub stored_summary : FLegacyPackageFileSummary → FLegacyPackageFileSummary
stored_summary self =
    let version = self.versioning_info.package_file_version in
    record self {
      versioning_info = stored_info self.versioning_info;
      soft_object_paths =
          if at_least version add_soft_object_path_list then self.soft_object_paths else no_pair;
      names_referenced_from_export_data_count =
          if at_least version names_referenced_from_export_data
          then self.names_referenced_from_export_data_count
          else self.names.count;
      data_resource_offset =
          if at_least version data_resources then self.data_resource_offset else negsuc 0;
    }

abbrev HasNoCustoms : FLegacyPackageVersioningInfo → Bool → Type 0
HasNoCustoms self true = self.custom_versions ≡ []
HasNoCustoms self false = Unit

-- The summaries of cooked packages of UE 4.26 and later, whose fields hold values of their types; an
-- unversioned one has no custom versions, which would show that it is not.
pub record IsCookedSummary (self : FLegacyPackageFileSummary) : Type 0 where
  pub package_file_version : IsPackageFileVersion self.versioning_info.package_file_version
  pub licensee_version : InRange (2 ^ 31) self.versioning_info.licensee_version
  pub custom_versions :
      (length self.versioning_info.custom_versions < 2 ^ 32)
      × All IsCustomVersion self.versioning_info.custom_versions
  pub unversioned : HasNoCustoms self.versioning_info self.versioning_info.is_unversioned
  pub supported :
      leb_ℤ
        (pos non_outer_package_import)
        self.versioning_info.package_file_version.file_version_ue4
      ≡ true
  pub cooked : is_filter_editor_only self ≡ true
  pub total_header_size : InRange (2 ^ 31) self.total_header_size
  pub package_name : IsText self.package_name × IsShort self.package_name
  pub package_flags : self.package_flags < 2 ^ 32
  pub names : IsCountOffsetPair self.names
  pub soft_object_paths : IsCountOffsetPair self.soft_object_paths
  pub exports : IsCountOffsetPair self.exports
  pub imports : IsCountOffsetPair self.imports
  pub depends_offset : InRange (2 ^ 31) self.depends_offset
  pub package_guid : IsGuid self.package_guid
  pub package_source : self.package_source < 2 ^ 32
  pub world_tile_info_data_offset : InRange (2 ^ 31) self.world_tile_info_data_offset
  pub preload_dependencies : IsCountOffsetPair self.preload_dependencies
  pub asset_registry_data_offset : InRange (2 ^ 31) self.asset_registry_data_offset
  pub bulk_data_start_offset : InRange (2 ^ 63) self.bulk_data_start_offset
  pub chunk_ids : (length self.chunk_ids < 2 ^ 32) × All (InRange (2 ^ 31)) self.chunk_ids
  pub names_referenced_from_export_data_count :
      InRange (2 ^ 31) self.names_referenced_from_export_data_count
  pub data_resource_offset : InRange (2 ^ 31) self.data_resource_offset
