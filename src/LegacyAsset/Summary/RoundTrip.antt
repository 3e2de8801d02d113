-- ===== src/LegacyAsset/Summary/RoundTrip.antt =====
-- `deserialize` of src/legacy_asset.rs on what `serialize` wrote of a summary.

use retoc.Prelude.{
  [], ◌∷◌, true, refl, false, ◌<◌, Bool, List, ℕ, ◌^◌, arith, ◌++◌, ◌≡◌, append_assoc, length, inl,
  some, inr, none, Option, sym, Bool-cases, ◌∙◌, subst,
}
use retoc.Outcome.{ok, err, invalid_data, ok-injective}
use retoc.Prelude.Int.{pos, negsuc, InRange, leb_ℤ}
use retoc.LegacyAsset.Records.{
  FGenerationInfo, IsEngineVersion, IsCountOffsetPair, IsGenerationInfo, de_generation,
  ser_generation, de_generation-ser_generation, de_pair-ser_pair,
  de_engine_version-ser_engine_version, de_pair, ser_pair,
}
use retoc.LegacyAsset.Summary.{
  FLegacyPackageFileSummary, de_summary_fields, no_engine_version, no_pair, summary_bytes,
  is_filter_editor_only, non_outer_package_import, at_least, add_soft_object_path_list,
  names_referenced_from_export_data, data_resources, use_fallback, deserialize_summary,
  serialize_summary, package_file_tag,
}
use retoc.LegacyAsset.{IsOptional, read_if-false, write_if-false, read_if-write_if}
use retoc.LegacyAsset.Versioning.{
  IsLegacyVersioning, ser_legacy_versioning, known, versioning_bytes, FLegacyPackageVersioningInfo,
  de_legacy_versioning-versioning_bytes, stored_versioning,
}
use retoc.Ser.Arrays.{de_vec, ser_vec, de_vec-ser_vec, All}
use retoc.Ser.Utf.{encode_utf16, IsText}
use retoc.Ser.Strings.{de_string, write_string, IsShort, de_string-write_string}
use retoc.Ser.Words.{
  de_i32-ser_i32, de_u32-ser_u32, de_i64-ser_i64, de_i32, ser_i32, de_i64, ser_i64, ser_u32,
}
use retoc.Toc.Header.{IsGuid, de_guid-ser_guid}
use retoc.Version.{FPackageFileVersion}

-- The summaries of cooked packages of UE 4.26 and later: their fields hold values of their types,
-- and those that their version has no place for the defaults.
pub record IsSummary (self : FLegacyPackageFileSummary) : Type 0 where
  pub versioning_info : IsLegacyVersioning self.versioning_info
  pub supported :
      leb_ℤ
        (pos non_outer_package_import)
        self.versioning_info.package_file_version.file_version_ue4
      ≡ true
  pub cooked : is_filter_editor_only self ≡ true
  pub total_header_size : InRange (2 ^ 31) self.total_header_size
  pub package_name : IsText self.package_name × IsShort self.package_name
  pub package_flags : self.package_flags < 2 ^ 32
  pub names : IsCountOffsetPair self.names
  pub soft_object_paths :
      IsOptional
        (at_least self.versioning_info.package_file_version add_soft_object_path_list)
        IsCountOffsetPair
        no_pair
        self.soft_object_paths
  pub exports : IsCountOffsetPair self.exports
  pub imports : IsCountOffsetPair self.imports
  pub depends_offset : InRange (2 ^ 31) self.depends_offset
  pub package_guid : IsGuid self.package_guid
  pub package_source : self.package_source < 2 ^ 32
  pub world_tile_info_data_offset : InRange (2 ^ 31) self.world_tile_info_data_offset
  pub preload_dependencies : IsCountOffsetPair self.preload_dependencies
  pub asset_registry_data_offset : InRange (2 ^ 31) self.asset_registry_data_offset
  pub bulk_data_start_offset : InRange (2 ^ 63) self.bulk_data_start_offset
  pub chunk_ids : (length self.chunk_ids < 2 ^ 32) × All (InRange (2 ^ 31)) self.chunk_ids
  pub names_referenced_from_export_data_count :
      IsOptional
        (at_least self.versioning_info.package_file_version names_referenced_from_export_data)
        (InRange (2 ^ 31))
        self.names.count
        self.names_referenced_from_export_data_count
  pub data_resource_offset :
      IsOptional
        (at_least self.versioning_info.package_file_version data_resources)
        (InRange (2 ^ 31))
        (negsuc 0)
        self.data_resource_offset

payload_fits : (b : Bool) → IsOptional b (InRange (2 ^ 63)) (negsuc 0) (negsuc 0)
payload_fits true = omega arith
payload_fits false = refl

no_pair_fits : IsCountOffsetPair no_pair
no_pair_fits = omega arith

no_engine_version_fits : IsEngineVersion no_engine_version
no_engine_version_fits = unfold encode_utf16 in omega arith

zero_fits : InRange (2 ^ 31) (pos 0)
zero_fits = omega arith

nothing_fits : 0 < 2 ^ 32
nothing_fits = omega arith

de_generations :
    (g : FGenerationInfo) (rest : List ℕ)
    → IsGenerationInfo g
    → de_vec de_generation (ser_vec ser_generation (g ∷ []) ++ rest) ≡ ok (g ∷ [], rest)
de_generations g rest h =
    de_vec-ser_vec de_generation ser_generation IsGenerationInfo de_generation-ser_generation
      (g ∷ []) rest (omega arith, (h, tt))

generation_fits :
    (self : FLegacyPackageFileSummary)
    → IsSummary self
    → IsGenerationInfo (record { export_count = self.exports.count; name_count = self.names.count })
generation_fits self h = record { export_count = h.exports.count; name_count = h.names.count }

de_no_texts : (rest : List ℕ) → de_vec de_string (ser_vec write_string [] ++ rest) ≡ ok ([], rest)
de_no_texts rest =
    de_vec-ser_vec de_string write_string (λ s. IsText s × IsShort s) de_string-write_string [] rest
      (omega arith, tt)

de_summary_fields-summary_bytes :
    (self : FLegacyPackageFileSummary) (rest : List ℕ)
    → IsSummary self
    → de_summary_fields self.versioning_info (summary_bytes self ++ rest) ≡ ok (self, rest)
unfolding de_summary_fields summary_bytes is_filter_editor_only
de_summary_fields-summary_bytes self rest h = simp (
  append_assoc,
  de_i32-ser_i32,
  de_u32-ser_u32,
  de_i64-ser_i64,
  de_pair-ser_pair,
  de_string-write_string,
  de_guid-ser_guid,
  de_engine_version-ser_engine_version,
  read_if-false,
  write_if-false,
  h.cooked,
  read_if-write_if de_pair ser_pair IsCountOffsetPair de_pair-ser_pair,
  read_if-write_if de_i32 ser_i32 (InRange (2 ^ 31)) de_i32-ser_i32,
  read_if-write_if de_i64 ser_i64 (InRange (2 ^ 63)) de_i64-ser_i64,
  de_vec-ser_vec de_i32 ser_i32 (InRange (2 ^ 31)) de_i32-ser_i32,
  de_generations,
  generation_fits self h,
  de_no_texts,
  payload_fits,
  no_pair_fits,
  no_engine_version_fits,
  zero_fits,
  nothing_fits,
  h.chunk_ids,
  h.names_referenced_from_export_data_count,
  h.data_resource_offset,
  h.total_header_size,
  h.package_name,
  h.package_flags,
  h.names,
  h.soft_object_paths,
  h.exports,
  h.imports,
  h.depends_offset,
  h.package_guid,
  h.package_source,
  h.world_tile_info_data_offset,
  h.preload_dependencies,
  h.asset_registry_data_offset,
  h.bulk_data_start_offset,
)

-- The version that is given for packages without versions, where the package is one.
abbrev pub IsFallback : Bool → Option FPackageFileVersion → FPackageFileVersion → Type 0
IsFallback true fallback version = fallback ≡ some version
IsFallback false fallback version = Unit

use_fallback-stored_versioning :
    (info : FLegacyPackageVersioningInfo) (fallback : Option FPackageFileVersion)
    → IsFallback info.is_unversioned fallback info.package_file_version
    → use_fallback fallback (stored_versioning info) ≡ ok info
unfolding use_fallback known
use_fallback-stored_versioning info fallback h = elim (Bool-cases info.is_unversioned) [
  | inl u ↦
      let given = subst (λ b. IsFallback b fallback info.package_file_version) u h in
      rw (u, given) (ground (arith, u))
  | inr u ↦ rw u (ground (arith, u))
]

write_bytes : FLegacyPackageFileSummary → List ℕ
write_bytes self =
    ser_u32 package_file_tag ++ (versioning_bytes self.versioning_info ++ summary_bytes self)

serialize_summary-ok :
    (self : FLegacyPackageFileSummary)
    → IsSummary self
    → serialize_summary self ≡ ok (write_bytes self)
unfolding serialize_summary ser_legacy_versioning write_bytes
serialize_summary-ok self h = rw (h.supported, h.versioning_info.supported)

pub deserialize_summary-stored :
    (self : FLegacyPackageFileSummary) (fallback : Option FPackageFileVersion) (rest : List ℕ)
    → IsSummary self
    → IsFallback self.versioning_info.is_unversioned fallback
        self.versioning_info.package_file_version
    → (bytes : List ℕ) × (serialize_summary self ≡ ok bytes)
      × (deserialize_summary fallback (bytes ++ rest) ≡ ok (self, rest))
unfolding deserialize_summary write_bytes
deserialize_summary-stored self fallback rest h known_version = (
  write_bytes self,
  serialize_summary-ok self h,
  rw
      (
        append_assoc,
        append_assoc,
        de_u32-ser_u32 package_file_tag
            (versioning_bytes self.versioning_info ++ (summary_bytes self ++ rest)) (omega arith),
        de_legacy_versioning-versioning_bytes self.versioning_info (summary_bytes self ++ rest)
            h.versioning_info,
        use_fallback-stored_versioning self.versioning_info fallback known_version,
        h.supported,
      )
      (de_summary_fields-summary_bytes self rest h),
)

pub deserialize_stored_none :
    (self : FLegacyPackageFileSummary) (rest bytes : List ℕ)
    → IsSummary self
    → self.versioning_info.is_unversioned ≡ true
    → serialize_summary self ≡ ok bytes
    → deserialize_summary none (bytes ++ rest) ≡ err invalid_data
unfolding deserialize_summary write_bytes use_fallback
deserialize_stored_none self rest bytes h unversioned written =
    let same : write_bytes self ≡ bytes =
      ok-injective (sym (serialize_summary-ok self h) ∙ written) in
    rw (
      ← same,
      append_assoc,
      append_assoc,
      de_u32-ser_u32 package_file_tag
          (versioning_bytes self.versioning_info ++ (summary_bytes self ++ rest)) (omega arith),
      de_legacy_versioning-versioning_bytes self.versioning_info (summary_bytes self ++ rest)
          h.versioning_info,
      unversioned,
    )
