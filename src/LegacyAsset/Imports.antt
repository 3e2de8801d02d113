-- ===== src/LegacyAsset/Imports.antt =====
-- `FObjectImport` of src/legacy_asset.rs.

use retoc.Prelude.Int.{pos, InRange}
use retoc.Ser.Stream.{◌>>◌, ◌>>=◌, Reader, pure}
use retoc.Outcome.{ok}
use retoc.Prelude.{true, refl, false, Bool, List, arith, ℕ, ◌^◌, ◌++◌, ◌≡◌, append_assoc, not}
use retoc.LegacyAsset.Records.{
  FMinimalName, IsMinimalName, de_minimal_name, ser_minimal_name, de_minimal_name-ser_minimal_name,
}
use retoc.LegacyAsset.Summary.{FLegacyPackageFileSummary, at_least, is_filter_editor_only}
use retoc.LegacyAsset.{IsOptional, read_if, write_if, read_if-write_if}
use retoc.Zen.PackageIndex.{
  FPackageIndex, de_package_index, ser_package_index, de_package_index-ser_package_index,
}
use retoc.LegacyAsset.Objects.{optional_resources, IsBool, de_bools_if}
use retoc.Ser.Words.{ser_bool, de_bool}

abbrev no_name : FMinimalName
no_name = record { index = pos 0; number = pos 0 }

no_name_fits : (b : Bool) → IsOptional b IsMinimalName no_name no_name
no_name_fits true = omega arith
no_name_fits false = refl

record FObjectImport : Type 0 where
  pub class_package : FMinimalName
  pub class_name : FMinimalName
  pub outer_index : FPackageIndex
  pub object_name : FMinimalName
  pub is_optional : Bool

unfoldable de_object_import : FLegacyPackageFileSummary → Reader FObjectImport
de_object_import summary = do
  let version = summary.versioning_info.package_file_version
  class_package ← de_minimal_name
  class_name ← de_minimal_name
  outer_index ← de_package_index
  object_name ← de_minimal_name
  read_if (not (is_filter_editor_only summary)) de_minimal_name no_name
  is_optional ← read_if (at_least version optional_resources) de_bool false
  pure (record {
    class_package = class_package;
    class_name = class_name;
    outer_index = outer_index;
    object_name = object_name;
    is_optional = is_optional;
  })

unfoldable ser_object_import : FLegacyPackageFileSummary → FObjectImport → List ℕ
ser_object_import summary self =
    let version = summary.versioning_info.package_file_version in
    ser_minimal_name self.class_package
    ++ (ser_minimal_name self.class_name
        ++ (ser_package_index self.outer_index
            ++ (ser_minimal_name self.object_name
                ++ (write_if (not (is_filter_editor_only summary)) (ser_minimal_name no_name)
                    ++ write_if (at_least version optional_resources)
                        (ser_bool self.is_optional)))))

-- What the fields of the file can hold under the summary, and the defaults of those that it leaves
-- out.
record IsObjectImport (summary : FLegacyPackageFileSummary) (self : FObjectImport) : Type 0 where
  pub class_package : IsMinimalName self.class_package
  pub class_name : IsMinimalName self.class_name
  pub outer_index : InRange (2 ^ 31) self.outer_index.index
  pub object_name : IsMinimalName self.object_name
  pub is_optional :
      IsOptional
        (at_least summary.versioning_info.package_file_version optional_resources)
        IsBool
        false
        self.is_optional

-- An import whose fields hold values of their types is read back as it was written, under every
-- summary: its optional flag where the version stores it.
de_object_import-ser_object_import :
    (summary : FLegacyPackageFileSummary) (self : FObjectImport) (rest : List ℕ)
    → IsObjectImport summary self
    → de_object_import summary (ser_object_import summary self ++ rest) ≡ ok (self, rest)
unfolding de_object_import ser_object_import
de_object_import-ser_object_import summary self rest h = simp (
  append_assoc,
  de_package_index-ser_package_index,
  de_minimal_name-ser_minimal_name,
  read_if-write_if de_bool ser_bool IsBool de_bools_if,
  read_if-write_if de_minimal_name ser_minimal_name IsMinimalName de_minimal_name-ser_minimal_name,
  no_name_fits,
  h.class_package,
  h.class_name,
  h.outer_index,
  h.object_name,
  h.is_optional,
)
