-- ===== src/Tests/Packages.antt =====
-- The theorems on the parts of zen packages and of container headers.
use retoc.Prelude.{ℕ, List, [], ◌∷◌, codes, refl, ◌++◌, ◌≡◌, arith, replicate, ◌^◌, ◌-◌}
use retoc.Outcome.{ok}
use retoc.Version.{optional_segment_packages}
use retoc.Prelude.Int.{pos, negsuc}
use retoc.ContainerHeader.Records.{text_lt, IsCulture}
use retoc.NameMap.{IsMappedName, FMappedName}
use retoc.Ser.Utf.{Text, encode_utf16}
use retoc.ScriptObjects.{FPackageObjectIndex}
use retoc.Zen.Exports.{
  de_export_map_entry, FExportMapEntry, IsExportMapEntry, not_for_server, ser_export_map_entry,
  de_export_map_entry-ser_export_map_entry,
}
use retoc.Zen.Summary.{FZenPackageSummary, IsPackageSummary, deserialize-serialize}
use retoc.ContainerHeader.Store.{StoreEntry}
use retoc.Ser.Arrays.{All}
use retoc.ContainerHeader.Store
use retoc.ContainerHeader.BTreeMap
use retoc.Zen.Summary

-- An index of the hash of names.
abbrev name : FMappedName
name = record { index_and_type = 3; number = 0 }

name-IsMappedName : IsMappedName name
name-IsMappedName = record { index_and_type = omega arith; number = omega arith }

abbrev summary : FZenPackageSummary
summary = record {
  has_versioning_info = 0;
  header_size = 900;
  name = name;
  source_name = name;
  package_flags = 0x80000000;
  cooked_header_size = 1200;
  imported_public_export_hashes_offset = pos 300;
  import_map_offset = pos 308;
  export_map_offset = pos 316;
  export_bundle_entries_offset = pos 388;
  graph_data_offset = pos 404;
  dependency_bundle_headers_offset = negsuc 0;
  dependency_bundle_entries_offset = negsuc 0;
  imported_package_names_offset = negsuc 0;
  name_map_names_offset = negsuc 0;
  name_map_names_size = negsuc 0;
  name_map_hashes_offset = negsuc 0;
  name_map_hashes_size = negsuc 0;
  graph_data_size = negsuc 0;
}

summary-IsPackageSummary : IsPackageSummary summary
summary-IsPackageSummary = record {
  has_versioning_info = omega arith;
  header_size = omega arith;
  name = name-IsMappedName;
  source_name = name-IsMappedName;
  package_flags = omega arith;
  cooked_header_size = omega arith;
  imported_public_export_hashes_offset = omega arith;
  import_map_offset = omega arith;
  export_map_offset = omega arith;
  export_bundle_entries_offset = omega arith;
  graph_data_offset = omega arith;
  dependency_bundle_headers_offset = omega arith;
  dependency_bundle_entries_offset = omega arith;
  imported_package_names_offset = omega arith;
  name_map_names_offset = omega arith;
  name_map_names_size = omega arith;
  name_map_hashes_offset = omega arith;
  name_map_hashes_size = omega arith;
  graph_data_size = omega arith;
}

deserialize-serialize_example :
    Summary.deserialize optional_segment_packages
      (Summary.serialize optional_segment_packages summary ++ 9 ∷ [])
    ≡ ok (Summary.stored optional_segment_packages summary, 9 ∷ [])
deserialize-serialize_example =
    deserialize-serialize optional_segment_packages summary (9 ∷ []) summary-IsPackageSummary

abbrev null_index : FPackageObjectIndex
null_index = record { type_and_id = 2 ^ 64 - 1 }

abbrev export_entry : FExportMapEntry
export_entry = record {
  cooked_serial_offset = 1200;
  cooked_serial_size = 64;
  object_name = name;
  outer_index = null_index;
  class_index = null_index;
  super_index = null_index;
  template_index = null_index;
  public_export_hash = 77;
  object_flags = 1;
  filter_flags = not_for_server;
  padding = 0 ∷ 0 ∷ 0 ∷ [];
}

export_entry-IsExportMapEntry : IsExportMapEntry export_entry
export_entry-IsExportMapEntry = record {
  cooked_serial_offset = omega arith;
  cooked_serial_size = omega arith;
  object_name = name-IsMappedName;
  outer_index = omega arith;
  class_index = omega arith;
  super_index = omega arith;
  template_index = omega arith;
  public_export_hash = omega arith;
  object_flags = omega arith;
  padding = refl;
}

de_export_map_entry-ser_export_map_entry_example :
    de_export_map_entry (ser_export_map_entry export_entry ++ []) ≡ ok (export_entry, [])
de_export_map_entry-ser_export_map_entry_example =
    de_export_map_entry-ser_export_map_entry export_entry [] export_entry-IsExportMapEntry

abbrev store_entry : StoreEntry
store_entry = record {
  export_bundles_size = 5;
  load_order = 2;
  export_count = pos 1;
  export_bundle_count = pos 1;
  imported_packages = 8 ∷ 9 ∷ [];
  shader_map_hashes = replicate 20 1 ∷ [];
}

abbrev entries : List (ℕ × StoreEntry)
entries = (10, store_entry) ∷ (20, record store_entry { imported_packages = [] }) ∷ []

abbrev cultures : List (Text × List (ℕ × ℕ))
cultures = (codes "de", (1, 2) ∷ []) ∷ (codes "fr", (1, 3) ∷ []) ∷ []

cultures-All : All IsCulture cultures
unfolding encode_utf16
cultures-All = (
  (
    (
      (((omega arith, refl), omega arith), (((omega arith, refl), omega arith), tt)),
      (omega arith, omega arith),
    ),
    omega arith,
    ((omega arith, omega arith), tt),
  ),
  (
    (
      (
        (((omega arith, refl), omega arith), (((omega arith, refl), omega arith), tt)),
        (omega arith, omega arith),
      ),
      omega arith,
      ((omega arith, omega arith), tt),
    ),
    tt,
  ),
)

cultures-Sorted : BTreeMap.Sorted text_lt cultures
unfolding text_lt
cultures-Sorted = ((refl, tt), (tt, tt))

-- A name of ASCII, the empty name and one with a character beyond 16 bits.
abbrev names : List Text
names = codes "Core" ∷ [] ∷ (0x1F600 ∷ 0xE9 ∷ []) ∷ []
