-- ===== src/Zen/Versioning.antt =====
-- `EZenPackageVersion`, `FCustomVersion` and `FZenPackageVersioningInfo` of src/zen.rs, with the
-- codec of `FPackageFileVersion`.
use retoc.Prelude.{ℕ, ◌∷◌, [], List, ◌++◌, ◌^◌, append_assoc, length, ◌≡◌, ◌<◌, get_elem?, arith}
use retoc.Ser.Stream.{◌>>=◌, Reader, RoundTrips, pure, lift}
use retoc.Toc.Header.{FGuid, IsGuid, ser_guid, de_guid, de_guid-ser_guid}
use retoc.Prelude.Int.{InRange, ℤ}
use retoc.Version.{FPackageFileVersion}
use retoc.Ser.Words.{de_u32, ser_i32, de_i32, ser_u32, de_i32-ser_i32, de_u32-ser_u32}
use retoc.Ser.Arrays.{de_vec, ser_vec, All, de_vec-ser_vec}
use retoc.Outcome.{ok}
use retoc.Outcome

pub data EZenPackageVersion : Type 0 where
  initial data_resource_table imported_package_names extra_dependencies : EZenPackageVersion

abbrev variants : List EZenPackageVersion
variants = initial ∷ data_resource_table ∷ imported_package_names ∷ extra_dependencies ∷ []

-- `self as u32`
abbrev pub repr : EZenPackageVersion → ℕ
repr initial = 0
repr data_resource_table = 1
repr imported_package_names = 2
repr extra_dependencies = 3

-- `from_repr(…).unwrap()`
unfoldable de_zen_version : Reader EZenPackageVersion
de_zen_version = do
  zen_version_raw ← de_u32
  lift (Outcome.unwrap (get_elem? variants zen_version_raw))

unfoldable ser_zen_version : EZenPackageVersion → List ℕ
ser_zen_version self = ser_u32 (repr self)

de_zen_version-ser_zen_version :
    (v : EZenPackageVersion) (rest : List ℕ)
    → de_zen_version (ser_zen_version v ++ rest) ≡ ok (v, rest)
unfolding de_zen_version ser_zen_version
de_zen_version-ser_zen_version initial rest = rw (de_u32-ser_u32 0 rest (omega arith))
de_zen_version-ser_zen_version data_resource_table rest = rw (de_u32-ser_u32 1 rest (omega arith))
de_zen_version-ser_zen_version imported_package_names rest =
    rw (de_u32-ser_u32 2 rest (omega arith))
de_zen_version-ser_zen_version extra_dependencies rest = rw (de_u32-ser_u32 3 rest (omega arith))

unfoldable de_file_version : Reader FPackageFileVersion
de_file_version = do
  file_version_ue4 ← de_i32
  file_version_ue5 ← de_i32
  pure (record { file_version_ue4 = file_version_ue4; file_version_ue5 = file_version_ue5 })

unfoldable ser_file_version : FPackageFileVersion → List ℕ
ser_file_version self = ser_i32 self.file_version_ue4 ++ ser_i32 self.file_version_ue5

-- What the fields of the file can hold.
pub record IsPackageFileVersion (self : FPackageFileVersion) : Type 0 where
  pub file_version_ue4 : InRange (2 ^ 31) self.file_version_ue4
  pub file_version_ue5 : InRange (2 ^ 31) self.file_version_ue5

de_file_version-ser_file_version : RoundTrips de_file_version ser_file_version IsPackageFileVersion
unfolding de_file_version ser_file_version
de_file_version-ser_file_version self rest h =
    simp (append_assoc, de_i32-ser_i32, h.file_version_ue4, h.file_version_ue5)

pub record FCustomVersion : Type 0 where
  pub key : FGuid
  pub version : ℤ

unfoldable pub de_custom_version : Reader FCustomVersion
de_custom_version = do
  key ← de_guid
  version ← de_i32
  pure (record { key = key; version = version })

unfoldable pub ser_custom_version : FCustomVersion → List ℕ
ser_custom_version self = ser_guid self.key ++ ser_i32 self.version

-- What the fields of the file can hold.
pub record IsCustomVersion (self : FCustomVersion) : Type 0 where
  pub key : IsGuid self.key
  pub version : InRange (2 ^ 31) self.version

pub de_custom_version-ser_custom_version :
    RoundTrips de_custom_version ser_custom_version IsCustomVersion
unfolding de_custom_version ser_custom_version
de_custom_version-ser_custom_version self rest h =
    simp (append_assoc, de_guid-ser_guid, de_i32-ser_i32, h.key, h.version)

pub record FZenPackageVersioningInfo : Type 0 where
  pub zen_version : EZenPackageVersion
  pub package_file_version : FPackageFileVersion
  pub licensee_version : ℤ
  pub custom_versions : List FCustomVersion

unfoldable de_versioning_info : Reader FZenPackageVersioningInfo
de_versioning_info = do
  zen_version ← de_zen_version
  package_file_version ← de_file_version
  licensee_version ← de_i32
  custom_versions ← de_vec de_custom_version
  pure (record {
    zen_version = zen_version;
    package_file_version = package_file_version;
    licensee_version = licensee_version;
    custom_versions = custom_versions;
  })

unfoldable ser_versioning_info : FZenPackageVersioningInfo → List ℕ
ser_versioning_info self =
    ser_zen_version self.zen_version
    ++ (ser_file_version self.package_file_version
        ++ (ser_i32 self.licensee_version ++ ser_vec ser_custom_version self.custom_versions))

-- What the fields of the file can hold.
record IsZenPackageVersioningInfo (self : FZenPackageVersioningInfo) : Type 0 where
  pub package_file_version : IsPackageFileVersion self.package_file_version
  pub licensee_version : InRange (2 ^ 31) self.licensee_version
  pub custom_versions :
      (length self.custom_versions < 2 ^ 32) × All IsCustomVersion self.custom_versions

-- The versions of a package whose fields hold values of their types are read back as they were
-- written, whichever version of the format they name.
de_versioning_info-ser_versioning_info :
    (self : FZenPackageVersioningInfo) (rest : List ℕ)
    → IsZenPackageVersioningInfo self
    → de_versioning_info (ser_versioning_info self ++ rest) ≡ ok (self, rest)
unfolding de_versioning_info ser_versioning_info
de_versioning_info-ser_versioning_info self rest h = simp (
  append_assoc,
  de_zen_version-ser_zen_version,
  de_file_version-ser_file_version,
  de_i32-ser_i32,
  de_vec-ser_vec de_custom_version ser_custom_version IsCustomVersion
      de_custom_version-ser_custom_version,
  h.package_file_version,
  h.licensee_version,
  h.custom_versions,
)
