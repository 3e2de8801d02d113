-- ===== src/Zen/Summary.antt =====
-- `FZenPackageSummary` of src/zen.rs: what it stores depends on the version of the container header.
use retoc.Prelude.{ℕ, [], ◌<◌, ◌^◌, if◌then◌else◌, Bool, List, ◌++◌, ◌≡◌, append_assoc, arith}
use retoc.Ser.Stream.{◌>>=◌, ◌>>◌, Reader, pure}
use retoc.NameMap.{
  FMappedName, IsMappedName, ser_mapped_name, de_mapped_name, de_mapped_name-ser_mapped_name,
}
use retoc.Prelude.Int.{ℤ, negsuc, as_u32, wrap_i32, InRange, add_ℤ, pos}
use retoc.Version.{
  pre_initial, EIoContainerHeaderVersion, header_after, header_at_least, initial, no_export_info,
  localized_packages, optional_segment_packages,
}
use retoc.Ser.Words.{ser_u32, de_u32, ser_i32, de_i32, de_u32-ser_u32, de_i32-ser_i32}
use retoc.Outcome.{ok}

pub record FZenPackageSummary : Type 0 where
  pub has_versioning_info : ℕ
  pub header_size : ℕ
  pub name : FMappedName
  pub source_name : FMappedName
  pub package_flags : ℕ
  pub cooked_header_size : ℕ
  pub imported_public_export_hashes_offset : ℤ
  pub import_map_offset : ℤ
  pub export_map_offset : ℤ
  pub export_bundle_entries_offset : ℤ
  pub graph_data_offset : ℤ
  pub dependency_bundle_headers_offset : ℤ
  pub dependency_bundle_entries_offset : ℤ
  pub imported_package_names_offset : ℤ
  pub name_map_names_offset : ℤ
  pub name_map_names_size : ℤ
  pub name_map_hashes_offset : ℤ
  pub name_map_hashes_size : ℤ
  pub graph_data_size : ℤ

abbrev unset : ℤ
unset = negsuc 0

-- `FMappedName::default()`
abbrev default_name : FMappedName
default_name = record { index_and_type = 0; number = 0 }

-- `container_header_version > EIoContainerHeaderVersion::Initial`; its negation is `<=`.
abbrev is_modern : EIoContainerHeaderVersion → Bool
is_modern version = header_after version initial

abbrev has_bundles : EIoContainerHeaderVersion → Bool
has_bundles version = header_at_least version no_export_info

unfoldable pub deserialize : EIoContainerHeaderVersion → Reader FZenPackageSummary
deserialize version = do
  (has_versioning_info, stored_header_size) ←
      if is_modern version then (do a ← de_u32; b ← de_u32; pure (a, b)) else pure (0, 0)
  name ← de_mapped_name
  source_name ← if is_modern version then pure default_name else de_mapped_name
  package_flags ← de_u32
  cooked_header_size ← de_u32
  (
    imported_public_export_hashes_offset, name_map_names_offset, name_map_names_size,
    name_map_hashes_offset, name_map_hashes_size,
  ) ←
      if is_modern version
      then (do a ← de_i32; pure (a, unset, unset, unset, unset))
      else (do a ← de_i32; b ← de_i32; c ← de_i32; d ← de_i32; pure (unset, a, b, c, d))
  import_map_offset ← de_i32
  export_map_offset ← de_i32
  export_bundle_entries_offset ← de_i32
  (
    graph_data_offset, dependency_bundle_headers_offset, dependency_bundle_entries_offset,
    imported_package_names_offset,
  ) ←
      if has_bundles version
      then (do a ← de_i32; b ← de_i32; c ← de_i32; pure (unset, a, b, c))
      else (do a ← de_i32; pure (a, unset, unset, unset))
  (graph_data_size, header_size) ←
      if is_modern version
      then pure (unset, stored_header_size)
      else (do size ← de_i32; de_i32; pure (size, as_u32 (wrap_i32 (add_ℤ graph_data_offset size))))
  pure (record {
    has_versioning_info = has_versioning_info;
    header_size = header_size;
    name = name;
    source_name = source_name;
    package_flags = package_flags;
    cooked_header_size = cooked_header_size;
    imported_public_export_hashes_offset = imported_public_export_hashes_offset;
    import_map_offset = import_map_offset;
    export_map_offset = export_map_offset;
    export_bundle_entries_offset = export_bundle_entries_offset;
    graph_data_offset = graph_data_offset;
    dependency_bundle_headers_offset = dependency_bundle_headers_offset;
    dependency_bundle_entries_offset = dependency_bundle_entries_offset;
    imported_package_names_offset = imported_package_names_offset;
    name_map_names_offset = name_map_names_offset;
    name_map_names_size = name_map_names_size;
    name_map_hashes_offset = name_map_hashes_offset;
    name_map_hashes_size = name_map_hashes_size;
    graph_data_size = graph_data_size;
  })

unfoldable pub serialize : EIoContainerHeaderVersion → FZenPackageSummary → List ℕ
serialize version self =
    (if is_modern version then ser_u32 self.has_versioning_info ++ ser_u32 self.header_size else [])
    ++ (ser_mapped_name self.name
        ++ ((if is_modern version then [] else ser_mapped_name self.source_name)
            ++ (ser_u32 self.package_flags
                ++ (ser_u32 self.cooked_header_size
                    ++ ((if is_modern version
                          then ser_i32 self.imported_public_export_hashes_offset
                          else ser_i32 self.name_map_names_offset
                            ++ (ser_i32 self.name_map_names_size
                                ++ (ser_i32 self.name_map_hashes_offset
                                    ++ ser_i32 self.name_map_hashes_size)))
                        ++ (ser_i32 self.import_map_offset
                            ++ (ser_i32 self.export_map_offset
                                ++ (ser_i32 self.export_bundle_entries_offset
                                    ++ ((if has_bundles version
                                          then ser_i32 self.dependency_bundle_headers_offset
                                            ++ (ser_i32 self.dependency_bundle_entries_offset
                                                ++ ser_i32 self.imported_package_names_offset)
                                          else ser_i32 self.graph_data_offset)
                                        ++ (if is_modern version
                                            then []
                                            else ser_i32 self.graph_data_size
                                              ++ ser_i32 (pos 0)))))))))))

-- Every field holds a value of its type.
pub record IsPackageSummary (self : FZenPackageSummary) : Type 0 where
  pub has_versioning_info : self.has_versioning_info < 2 ^ 32
  pub header_size : self.header_size < 2 ^ 32
  pub name : IsMappedName self.name
  pub source_name : IsMappedName self.source_name
  pub package_flags : self.package_flags < 2 ^ 32
  pub cooked_header_size : self.cooked_header_size < 2 ^ 32
  pub imported_public_export_hashes_offset :
      InRange (2 ^ 31) self.imported_public_export_hashes_offset
  pub import_map_offset : InRange (2 ^ 31) self.import_map_offset
  pub export_map_offset : InRange (2 ^ 31) self.export_map_offset
  pub export_bundle_entries_offset : InRange (2 ^ 31) self.export_bundle_entries_offset
  pub graph_data_offset : InRange (2 ^ 31) self.graph_data_offset
  pub dependency_bundle_headers_offset : InRange (2 ^ 31) self.dependency_bundle_headers_offset
  pub dependency_bundle_entries_offset : InRange (2 ^ 31) self.dependency_bundle_entries_offset
  pub imported_package_names_offset : InRange (2 ^ 31) self.imported_package_names_offset
  pub name_map_names_offset : InRange (2 ^ 31) self.name_map_names_offset
  pub name_map_names_size : InRange (2 ^ 31) self.name_map_names_size
  pub name_map_hashes_offset : InRange (2 ^ 31) self.name_map_hashes_offset
  pub name_map_hashes_size : InRange (2 ^ 31) self.name_map_hashes_size
  pub graph_data_size : InRange (2 ^ 31) self.graph_data_size

-- The part of a summary that a version stores, the other fields at their defaults. The header of the
-- oldest packages ends where their graph data does.
unfoldable pub stored : EIoContainerHeaderVersion → FZenPackageSummary → FZenPackageSummary
stored version self =
    if has_bundles version
    then record self {
      source_name = default_name;
      graph_data_size = unset;
      name_map_names_offset = unset;
      name_map_names_size = unset;
      name_map_hashes_offset = unset;
      name_map_hashes_size = unset;
      graph_data_offset = unset;
    }
    else if is_modern version
    then record self {
      source_name = default_name;
      graph_data_size = unset;
      name_map_names_offset = unset;
      name_map_names_size = unset;
      name_map_hashes_offset = unset;
      name_map_hashes_size = unset;
      dependency_bundle_headers_offset = unset;
      dependency_bundle_entries_offset = unset;
      imported_package_names_offset = unset;
    }
    else record self {
      has_versioning_info = 0;
      header_size = as_u32 (wrap_i32 (add_ℤ self.graph_data_offset self.graph_data_size));
      imported_public_export_hashes_offset = unset;
      dependency_bundle_headers_offset = unset;
      dependency_bundle_entries_offset = unset;
      imported_package_names_offset = unset;
    }

zero_fits : InRange (2 ^ 31) (pos 0)
zero_fits = omega arith

-- A summary whose fields hold values of their types is read back, under every version of the
-- container header, as the part of it that the version stores.
pub deserialize-serialize :
    (version : EIoContainerHeaderVersion) (self : FZenPackageSummary) (rest : List ℕ)
    → IsPackageSummary self
    → deserialize version (serialize version self ++ rest) ≡ ok (stored version self, rest)
unfolding deserialize serialize stored
deserialize-serialize pre_initial self rest h = simp (
  append_assoc,
  de_u32-ser_u32,
  de_i32-ser_i32,
  de_i32-ser_i32 (pos 0) rest zero_fits,
  de_mapped_name-ser_mapped_name,
  h.name,
  h.source_name,
  h.package_flags,
  h.cooked_header_size,
  h.import_map_offset,
  h.export_map_offset,
  h.export_bundle_entries_offset,
  h.graph_data_offset,
  h.name_map_names_offset,
  h.name_map_names_size,
  h.name_map_hashes_offset,
  h.name_map_hashes_size,
  h.graph_data_size,
)
deserialize-serialize initial self rest h = simp (
  append_assoc,
  de_u32-ser_u32,
  de_i32-ser_i32,
  de_i32-ser_i32 (pos 0) rest zero_fits,
  de_mapped_name-ser_mapped_name,
  h.name,
  h.source_name,
  h.package_flags,
  h.cooked_header_size,
  h.import_map_offset,
  h.export_map_offset,
  h.export_bundle_entries_offset,
  h.graph_data_offset,
  h.name_map_names_offset,
  h.name_map_names_size,
  h.name_map_hashes_offset,
  h.name_map_hashes_size,
  h.graph_data_size,
)
deserialize-serialize localized_packages self rest h = simp (
  append_assoc, de_u32-ser_u32, de_i32-ser_i32, de_mapped_name-ser_mapped_name,
  h.has_versioning_info, h.header_size, h.name, h.package_flags, h.cooked_header_size,
  h.imported_public_export_hashes_offset, h.import_map_offset, h.export_map_offset,
  h.export_bundle_entries_offset, h.graph_data_offset,
)
deserialize-serialize optional_segment_packages self rest h = simp (
  append_assoc, de_u32-ser_u32, de_i32-ser_i32, de_mapped_name-ser_mapped_name,
  h.has_versioning_info, h.header_size, h.name, h.package_flags, h.cooked_header_size,
  h.imported_public_export_hashes_offset, h.import_map_offset, h.export_map_offset,
  h.export_bundle_entries_offset, h.graph_data_offset,
)
deserialize-serialize _ self rest h = simp (
  append_assoc, de_u32-ser_u32, de_i32-ser_i32, de_mapped_name-ser_mapped_name,
  h.has_versioning_info, h.header_size, h.name, h.package_flags, h.cooked_header_size,
  h.imported_public_export_hashes_offset, h.import_map_offset, h.export_map_offset,
  h.export_bundle_entries_offset, h.dependency_bundle_headers_offset,
  h.dependency_bundle_entries_offset, h.imported_package_names_offset,
)
