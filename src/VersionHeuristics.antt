-- ===== src/VersionHeuristics.antt =====
-- src/version_heuristics.rs: the version of a zen package from that of its container.
use retoc.Prelude.{
  ℕ, false, none, refl, [], some, true, Option, Bool, ◌≡◌, leb, if◌then◌else◌, not, ◌↔◌, ◌==◌, ◌≢◌,
  arith,
}
use retoc.Outcome.{◌>>=◌, Outcome, err, invalid_data, ok}
use retoc.Zen.Summary.{FZenPackageSummary}
use retoc.Version.{
  EngineVersion, toc_version, FPackageFileVersion, EIoContainerHeaderVersion,
  container_header_version, create_ue4, package_file_version, object_ue4_version, create_ue5,
  ordinal, ue5_2, header_at_least, object_ue5_version, header_repr, no_export_info,
  optional_segment_packages, soft_package_references, pre_initial, initial, localized_packages,
  ue4_26, ue5_3, ue5_4, ue5_5,
}
use retoc.Toc.Version.{
  EIoStoreTocVersion, initial, at_least, on_demand_meta_data, repr,
  replace_io_chunk_hash_with_io_hash,
}
use retoc.Zen.Versioning.{
  EZenPackageVersion, data_resource_table, FZenPackageVersioningInfo, extra_dependencies,
}
use retoc.Prelude.Int.{ℤ, leb_ℤ, pos}
use retoc.Outcome
use retoc.Zen.Versioning

abbrev data_resources_version : ℕ
data_resources_version = 1009

-- Bulk data comes with 5.3 and later, and never before 5.1; of 5.1 and 5.2 the offset of the hashes
-- tells.
unfoldable heuristic_zen_has_bulk_data : FZenPackageSummary → EIoContainerHeaderVersion → ℤ → Bool
heuristic_zen_has_bulk_data summary container_header_version current_reader_pos =
    if not (header_at_least container_header_version optional_segment_packages)
    then false
    else if header_at_least container_header_version no_export_info
    then true
    else not (leb_ℤ summary.imported_public_export_hashes_offset current_reader_pos)

unfoldable pub heuristic_zen_version_from_package_file_version :
    FPackageFileVersion → EIoContainerHeaderVersion → EZenPackageVersion
heuristic_zen_version_from_package_file_version version header_version =
    if leb_ℤ version.file_version_ue5 (pos 1008)
    then Versioning.initial
    else if leb_ℤ version.file_version_ue5 (pos data_resources_version)
    then (if not (header_at_least header_version no_export_info)
        then data_resource_table
        else extra_dependencies)
    else extra_dependencies

-- What the container tells of the package's version, by the version of its header.
unfoldable pub derived_version :
    EIoStoreTocVersion → EIoContainerHeaderVersion → Bool → Option FPackageFileVersion
derived_version container_version pre_initial has_bulk_data = some (create_ue4 522)
derived_version container_version initial has_bulk_data = some (create_ue4 522)
derived_version container_version localized_packages has_bulk_data = some (create_ue5 1004)
derived_version container_version optional_segment_packages has_bulk_data =
    some (create_ue5 (if not has_bulk_data then 1008 else 1009))
derived_version container_version no_export_info has_bulk_data =
    some (create_ue5 (if not (at_least container_version on_demand_meta_data) then 1009 else 1012))
derived_version container_version soft_package_references has_bulk_data =
    if repr container_version == repr replace_io_chunk_hash_with_io_hash
    then some (create_ue5 1013)
    else none

abbrev or_else : {A : Type 0} → Option A → Option A → Option A
or_else (some a) b = some a
or_else none b = b

unfoldable pub heuristic_zen_package_version :
    Option FPackageFileVersion
    → EIoStoreTocVersion
    → EIoContainerHeaderVersion
    → Bool
    → Outcome FZenPackageVersioningInfo
heuristic_zen_package_version optional_package_version container_version header_version
      has_bulk_data =
    do
      package_file_version ← Outcome.context invalid_data (
          or_else optional_package_version
            (derived_version container_version header_version has_bulk_data))
      Outcome.ok (record {
        zen_version =
            heuristic_zen_version_from_package_file_version package_file_version header_version;
        package_file_version = package_file_version;
        licensee_version = pos 0;
        custom_versions = [];
      })

-- Whether an engine writes bulk data, and the version of the zen format that it writes.
abbrev writes_bulk_data : EngineVersion → Bool
writes_bulk_data v = leb (ordinal ue5_2) (ordinal v)

abbrev zen_version_of : EngineVersion → EZenPackageVersion
zen_version_of ue5_2 = data_resource_table
zen_version_of ue5_3 = extra_dependencies
zen_version_of ue5_4 = extra_dependencies
zen_version_of ue5_5 = extra_dependencies
zen_version_of _ = Versioning.initial

-- From the versions of the container that an engine writes, and from whether it writes bulk data,
-- which 5.2 and later do, the heuristic finds the package version of that engine, and its version of
-- the zen format: `Initial` before 5.2, `DataResourceTable` for 5.2 and `ExtraDependencies` from
-- 5.3 on.
pub heuristic_zen_package_version-container :
    (v : EngineVersion)
    → (info : FZenPackageVersioningInfo) × (heuristic_zen_package_version none
          (toc_version v)
          (container_header_version v)
          (writes_bulk_data v)
        ≡ ok info)
      × (package_file_version v ≡ ok info.package_file_version)
      × (info.zen_version ≡ zen_version_of v)
unfolding heuristic_zen_package_version derived_version
    heuristic_zen_version_from_package_file_version toc_version container_header_version
    package_file_version object_ue4_version object_ue5_version create_ue4 create_ue5
heuristic_zen_package_version-container ue4_26 = (_, refl, refl, refl)
heuristic_zen_package_version-container _ = (_, refl, refl, refl)

-- With a hint the derivation never fails and keeps it, whatever the container.
heuristic_zen_package_version-hint :
    (p : FPackageFileVersion) (t : EIoStoreTocVersion) (c : EIoContainerHeaderVersion) (b : Bool)
    → (info : FZenPackageVersioningInfo) × (heuristic_zen_package_version (some p) t c b ≡ ok info)
      × (info.package_file_version ≡ p)
unfolding heuristic_zen_package_version
heuristic_zen_package_version-hint p t c b = (_, refl, refl)

-- Without a hint the derivation fails exactly for the headers of 5.5 in a container of another
-- version.
pub heuristic_zen_package_version-eq-err :
    (t : EIoStoreTocVersion) (c : EIoContainerHeaderVersion) (b : Bool)
    → heuristic_zen_package_version none t c b ≡ err invalid_data
      ↔ (header_repr c ≡ header_repr soft_package_references)
        × (repr t ≢ repr replace_io_chunk_hash_with_io_hash)
unfolding heuristic_zen_package_version derived_version
heuristic_zen_package_version-eq-err t pre_initial b = ground arith
heuristic_zen_package_version-eq-err t _ b = ground arith
