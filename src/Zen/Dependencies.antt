-- ===== src/Zen/Dependencies.antt =====
-- The dependencies of packages of src/zen.rs: bundle headers and entries, the arcs between bundles.
use retoc.Prelude.{ℕ, List, append_assoc, ◌^◌, ◌<◌, ◌++◌, get_elem?, refl, ◌≡◌}
use retoc.Ser.Stream.{◌>>=◌, RoundTrips, Reader, lift, pure}
use retoc.Zen.PackageIndex.{
  FPackageIndex, ser_package_index, de_package_index, de_package_index-ser_package_index,
}
use retoc.Zen.Exports.{
  create_export, serialize_export, count, EExportCommandType, command_type_repr,
  command_type_variants,
}
use retoc.Prelude.Int.{InRange, ℤ}
use retoc.Ser.Words.{
  ser_i32, ser_u8, de_u8, de_i32, de_i32-ser_i32, de_u32, de_u32-ser_u32, ser_u32,
}
use retoc.Outcome.{ok}
use retoc.Outcome

pub record FDependencyBundleHeader : Type 0 where
  pub first_entry_index : ℤ
  pub create_before_create_dependencies : ℕ
  pub serialize_before_create_dependencies : ℕ
  pub create_before_serialize_dependencies : ℕ
  pub serialize_before_serialize_dependencies : ℕ

unfoldable de_dependency_header : Reader FDependencyBundleHeader
de_dependency_header = do
  first_entry_index ← de_i32
  create_before_create_dependencies ← de_u32
  serialize_before_create_dependencies ← de_u32
  create_before_serialize_dependencies ← de_u32
  serialize_before_serialize_dependencies ← de_u32
  pure (record {
    first_entry_index = first_entry_index;
    create_before_create_dependencies = create_before_create_dependencies;
    serialize_before_create_dependencies = serialize_before_create_dependencies;
    create_before_serialize_dependencies = create_before_serialize_dependencies;
    serialize_before_serialize_dependencies = serialize_before_serialize_dependencies;
  })

unfoldable ser_dependency_header : FDependencyBundleHeader → List ℕ
ser_dependency_header self =
    ser_i32 self.first_entry_index
    ++ (ser_u32 self.create_before_create_dependencies
        ++ (ser_u32 self.serialize_before_create_dependencies
            ++ (ser_u32 self.create_before_serialize_dependencies
                ++ ser_u32 self.serialize_before_serialize_dependencies)))

-- What the fields of the file can hold.
record IsDependencyBundleHeader (self : FDependencyBundleHeader) : Type 0 where
  pub first_entry_index : InRange (2 ^ 31) self.first_entry_index
  pub create_before_create_dependencies : self.create_before_create_dependencies < 2 ^ 32
  pub serialize_before_create_dependencies : self.serialize_before_create_dependencies < 2 ^ 32
  pub create_before_serialize_dependencies : self.create_before_serialize_dependencies < 2 ^ 32
  pub serialize_before_serialize_dependencies :
      self.serialize_before_serialize_dependencies < 2 ^ 32

de_dependency_header-ser_dependency_header :
    RoundTrips de_dependency_header ser_dependency_header IsDependencyBundleHeader
unfolding de_dependency_header ser_dependency_header
de_dependency_header-ser_dependency_header self rest h = simp (
  append_assoc, de_i32-ser_i32, de_u32-ser_u32, h.first_entry_index,
  h.create_before_create_dependencies, h.serialize_before_create_dependencies,
  h.create_before_serialize_dependencies, h.serialize_before_serialize_dependencies,
)

pub record FDependencyBundleEntry : Type 0 where
  pub local_import_or_export_index : FPackageIndex

unfoldable de_dependency_entry : Reader FDependencyBundleEntry
de_dependency_entry = do
  local_import_or_export_index ← de_package_index
  pure (record { local_import_or_export_index = local_import_or_export_index })

unfoldable ser_dependency_entry : FDependencyBundleEntry → List ℕ
ser_dependency_entry self = ser_package_index self.local_import_or_export_index

-- What the fields of the file can hold.
record IsDependencyBundleEntry (self : FDependencyBundleEntry) : Type 0 where
  pub local_import_or_export_index : InRange (2 ^ 31) self.local_import_or_export_index.index

de_dependency_entry-ser_dependency_entry :
    RoundTrips de_dependency_entry ser_dependency_entry IsDependencyBundleEntry
unfolding de_dependency_entry ser_dependency_entry
de_dependency_entry-ser_dependency_entry self rest h =
    simp (de_package_index-ser_package_index, h.local_import_or_export_index)

record FInternalDependencyArc : Type 0 where
  pub from_export_bundle_index : ℤ
  pub to_export_bundle_index : ℤ

unfoldable de_internal_arc : Reader FInternalDependencyArc
de_internal_arc = do
  from_export_bundle_index ← de_i32
  to_export_bundle_index ← de_i32
  pure (record {
    from_export_bundle_index = from_export_bundle_index;
    to_export_bundle_index = to_export_bundle_index;
  })

unfoldable ser_internal_arc : FInternalDependencyArc → List ℕ
ser_internal_arc self = ser_i32 self.from_export_bundle_index ++ ser_i32 self.to_export_bundle_index

-- What the fields of the file can hold.
record IsInternalDependencyArc (self : FInternalDependencyArc) : Type 0 where
  pub from_export_bundle_index : InRange (2 ^ 31) self.from_export_bundle_index
  pub to_export_bundle_index : InRange (2 ^ 31) self.to_export_bundle_index

de_internal_arc-ser_internal_arc :
    RoundTrips de_internal_arc ser_internal_arc IsInternalDependencyArc
unfolding de_internal_arc ser_internal_arc
de_internal_arc-ser_internal_arc self rest h =
    simp (append_assoc, de_i32-ser_i32, h.from_export_bundle_index, h.to_export_bundle_index)

-- The command type takes 32 bits in a bundle entry and 8 bits in an arc.
unfoldable de_short_command_type : Reader EExportCommandType
de_short_command_type = do raw ← de_u8; lift (Outcome.unwrap (get_elem? command_type_variants raw))

unfoldable ser_short_command_type : EExportCommandType → List ℕ
ser_short_command_type self = ser_u8 (command_type_repr self)

record FExternalDependencyArc : Type 0 where
  pub from_import_index : ℤ
  pub from_command_type : EExportCommandType
  pub to_export_bundle_index : ℤ

de_short_command_type-ser_short_command_type :
    (v : EExportCommandType) (rest : List ℕ)
    → de_short_command_type (ser_short_command_type v ++ rest) ≡ ok (v, rest)
unfolding de_short_command_type ser_short_command_type de_u8 ser_u8
de_short_command_type-ser_short_command_type create_export rest = refl
de_short_command_type-ser_short_command_type serialize_export rest = refl
de_short_command_type-ser_short_command_type count rest = refl

unfoldable de_external_arc : Reader FExternalDependencyArc
de_external_arc = do
  from_import_index ← de_i32
  from_command_type ← de_short_command_type
  to_export_bundle_index ← de_i32
  pure (record {
    from_import_index = from_import_index;
    from_command_type = from_command_type;
    to_export_bundle_index = to_export_bundle_index;
  })

unfoldable ser_external_arc : FExternalDependencyArc → List ℕ
ser_external_arc self =
    ser_i32 self.from_import_index
    ++ (ser_short_command_type self.from_command_type ++ ser_i32 self.to_export_bundle_index)

-- What the fields of the file can hold.
record IsExternalDependencyArc (self : FExternalDependencyArc) : Type 0 where
  pub from_import_index : InRange (2 ^ 31) self.from_import_index
  pub to_export_bundle_index : InRange (2 ^ 31) self.to_export_bundle_index

de_external_arc-ser_external_arc :
    RoundTrips de_external_arc ser_external_arc IsExternalDependencyArc
unfolding de_external_arc ser_external_arc
de_external_arc-ser_external_arc self rest h = simp (
  append_assoc, de_i32-ser_i32, de_short_command_type-ser_short_command_type, h.from_import_index,
  h.to_export_bundle_index,
)
