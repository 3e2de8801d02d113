-- ===== src/Version.antt =====
-- src/version.rs: the versions of the formats that an engine version writes.
use retoc.Outcome
use retoc.Prelude.{ℕ, refl, Bool, ◌≡◌, if◌then◌else◌, not, ltb, leb}
use retoc.Toc.Version.{
  EIoStoreTocVersion, directory_index, partition_size, perfect_hash_with_overflow,
  on_demand_meta_data, replace_io_chunk_hash_with_io_hash,
}
use retoc.Outcome.{Outcome, ok, panicked}
use retoc.Prelude.Int.{ℤ, pos, eq_ℤ}

pub data EIoContainerHeaderVersion : Type 0 where
  pre_initial initial localized_packages optional_segment_packages : EIoContainerHeaderVersion
  no_export_info soft_package_references : EIoContainerHeaderVersion

-- The place in the order of the variants, which comparison goes by.
abbrev pub header_repr : EIoContainerHeaderVersion → ℕ
header_repr pre_initial = 0
header_repr initial = 1
header_repr localized_packages = 2
header_repr optional_segment_packages = 3
header_repr no_export_info = 4
header_repr soft_package_references = 5

-- The derived order, `a >= b` and `a > b`.
abbrev pub header_at_least : EIoContainerHeaderVersion → EIoContainerHeaderVersion → Bool
header_at_least a b = leb (header_repr b) (header_repr a)

abbrev pub header_after : EIoContainerHeaderVersion → EIoContainerHeaderVersion → Bool
header_after a b = ltb (header_repr b) (header_repr a)

pub data EngineVersion : Type 0 where
  ue4_26 ue4_27 ue5_0 ue5_1 ue5_2 ue5_3 ue5_4 ue5_5 : EngineVersion

-- The place in the order of the variants, which comparison goes by.
abbrev pub ordinal : EngineVersion → ℕ
ordinal ue4_26 = 0
ordinal ue4_27 = 1
ordinal ue5_0 = 2
ordinal ue5_1 = 3
ordinal ue5_2 = 4
ordinal ue5_3 = 5
ordinal ue5_4 = 6
ordinal ue5_5 = 7

unfoldable pub toc_version : EngineVersion → EIoStoreTocVersion
toc_version ue4_26 = directory_index
toc_version ue4_27 = partition_size
toc_version ue5_0 = perfect_hash_with_overflow
toc_version ue5_1 = perfect_hash_with_overflow
toc_version ue5_2 = perfect_hash_with_overflow
toc_version ue5_3 = perfect_hash_with_overflow
toc_version ue5_4 = on_demand_meta_data
toc_version ue5_5 = replace_io_chunk_hash_with_io_hash

unfoldable pub container_header_version : EngineVersion → EIoContainerHeaderVersion
container_header_version ue4_26 = initial
container_header_version ue4_27 = initial
container_header_version ue5_0 = localized_packages
container_header_version ue5_1 = optional_segment_packages
container_header_version ue5_2 = optional_segment_packages
container_header_version ue5_3 = no_export_info
container_header_version ue5_4 = no_export_info
container_header_version ue5_5 = soft_package_references

-- `CorrectLicenseeFlag as i32`; the other versions are unreachable.
unfoldable pub object_ue4_version : EngineVersion → Outcome ℕ
object_ue4_version ue4_26 = ok 522
object_ue4_version ue4_27 = ok 522
object_ue4_version _ = panicked

-- The discriminants of `EUnrealEngineObjectUE5Version`.
unfoldable pub object_ue5_version : EngineVersion → Outcome ℕ
object_ue5_version ue5_0 = ok 1004
object_ue5_version ue5_1 = ok 1008
object_ue5_version ue5_2 = ok 1009
object_ue5_version ue5_3 = ok 1009
object_ue5_version ue5_4 = ok 1012
object_ue5_version ue5_5 = ok 1013
object_ue5_version _ = panicked

pub record FPackageFileVersion : Type 0 where
  pub file_version_ue4 : ℤ
  pub file_version_ue5 : ℤ

unfoldable pub create_ue4 : ℕ → FPackageFileVersion
create_ue4 version = record { file_version_ue4 = pos version; file_version_ue5 = pos 0 }

unfoldable pub create_ue5 : ℕ → FPackageFileVersion
create_ue5 version = record { file_version_ue4 = pos 522; file_version_ue5 = pos version }

unfoldable pub is_ue5 : FPackageFileVersion → Bool
is_ue5 self = not (eq_ℤ self.file_version_ue5 (pos 0))

unfoldable pub package_file_version : EngineVersion → Outcome FPackageFileVersion
package_file_version self =
    if ltb (ordinal self) (ordinal ue5_0)
    then Outcome.bind (object_ue4_version self) (λ v. ok (create_ue4 v))
    else Outcome.bind (object_ue5_version self) (λ v. ok (create_ue5 v))

-- The package version of an engine version is always defined, and it is one of UE5 exactly from
-- 5.0 on.
package_file_version_total :
    (v : EngineVersion)
    → (p : FPackageFileVersion) × (package_file_version v ≡ ok p)
      × (is_ue5 p ≡ leb (ordinal ue5_0) (ordinal v))
unfolding package_file_version object_ue4_version object_ue5_version create_ue4 create_ue5 is_ue5
package_file_version_total ue4_26 = (_, refl, refl)
package_file_version_total ue4_27 = (_, refl, refl)
package_file_version_total ue5_0 = (_, refl, refl)
package_file_version_total ue5_1 = (_, refl, refl)
package_file_version_total ue5_2 = (_, refl, refl)
package_file_version_total ue5_3 = (_, refl, refl)
package_file_version_total ue5_4 = (_, refl, refl)
package_file_version_total ue5_5 = (_, refl, refl)
