-- ===== src/Tests/Legacy.antt =====
-- The theorems on packages, at a package of UE 5.4 without versions.
use retoc.LegacyAsset.Versioning.{FLegacyPackageVersioningInfo, versioning_bytes}
use retoc.Prelude.{refl, ◌∷◌, [], true, false, List, ℕ, codes, ◌++◌, ◌≡◌, arith}
use retoc.Prelude.Int.{pos, negsuc}
use retoc.Outcome.{ok}
use retoc.Version.{FPackageFileVersion, create_ue5}
use retoc.LegacyAsset.Records.{FCountOffsetPair}
use retoc.LegacyAsset.Objects.{
  de_object_export, FObjectExport, ser_object_export, IsObjectExport,
  de_object_export-ser_object_export, script_props,
}
use retoc.LegacyAsset.Summary.{
  FLegacyPackageFileSummary, uses_unversioned_property_serialization, package_file_tag,
  summary_bytes, has_flag,
}
use retoc.Ser.Words.{ser_u32}

abbrev versions : FPackageFileVersion
versions = create_ue5 1012

abbrev versioning : FLegacyPackageVersioningInfo
versioning = record {
  legacy_file_version = pos 0;
  package_file_version = versions;
  licensee_version = pos 4;
  custom_versions = [];
  is_unversioned = true;
}

abbrev pair : FCountOffsetPair
pair = record { count = pos 3; offset = pos 90 }

abbrev summary : FLegacyPackageFileSummary
summary = record {
  versioning_info = versioning;
  total_header_size = pos 700;
  package_name = codes "A";
  package_flags = 0x80002000;
  names = pair;
  soft_object_paths = pair;
  exports = pair;
  imports = pair;
  depends_offset = pos 300;
  package_guid = record { a = 1; b = 2; c = 3; d = 4 };
  package_source = 5;
  world_tile_info_data_offset = pos 0;
  chunk_ids = pos 7 ∷ [];
  preload_dependencies = pair;
  names_referenced_from_export_data_count = pos 2;
  data_resource_offset = pos 400;
  asset_registry_data_offset = pos 500;
  bulk_data_start_offset = pos 600;
}

abbrev written : List ℕ
written =
    ser_u32 package_file_tag ++ (versioning_bytes summary.versioning_info ++ summary_bytes summary)

abbrev export : FObjectExport
export = record {
  class_index = record { index = negsuc 0 };
  super_index = record { index = pos 0 };
  template_index = record { index = negsuc 1 };
  outer_index = record { index = pos 0 };
  object_name = record { index = pos 2; number = pos 0 };
  object_flags = 9;
  serial_size = pos 64;
  serial_offset = pos 700;
  is_not_for_client = false;
  is_not_for_server = true;
  is_inherited_instance = false;
  is_not_always_loaded_for_editor_game = true;
  is_asset = true;
  generate_public_hash = false;
  first_export_dependency_index = pos 0;
  serialize_before_serialize_dependencies = pos 1;
  create_before_serialize_dependencies = pos 0;
  serialize_before_create_dependencies = pos 0;
  create_before_create_dependencies = pos 1;
  script_serialization_start_offset = pos 0;
  script_serialization_end_offset = pos 0;
}

export-IsObjectExport : IsObjectExport summary export
unfolding create_ue5 uses_unversioned_property_serialization script_props has_flag
export-IsObjectExport = record {
  class_index = omega arith;
  super_index = omega arith;
  template_index = omega arith;
  outer_index = omega arith;
  object_name = omega arith;
  object_flags = omega arith;
  serial_size = omega arith;
  serial_offset = omega arith;
  is_inherited_instance = tt;
  generate_public_hash = tt;
  first_export_dependency_index = omega arith;
  serialize_before_serialize_dependencies = omega arith;
  create_before_serialize_dependencies = omega arith;
  serialize_before_create_dependencies = omega arith;
  create_before_create_dependencies = omega arith;
  script_serialization_start_offset = refl;
  script_serialization_end_offset = refl;
}

de_object_export-ser_object_export_example :
    de_object_export summary (ser_object_export summary export ++ 9 ∷ []) ≡ ok (export, 9 ∷ [])
de_object_export-ser_object_export_example =
    de_object_export-ser_object_export summary export (9 ∷ []) export-IsObjectExport
