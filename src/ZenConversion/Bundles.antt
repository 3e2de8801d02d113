-- ===== src/ZenConversion/Bundles.antt =====
-- `build_zen_dependency_bundle_new` of src/zen_asset_conversion.rs: the entries of the export
-- bundle in the order of the sort, and the dependency bundle of each export.
use retoc.Outcome
use retoc.Zen.PackageIndex
use retoc.Zen.Exports.{
  create_export, serialize_export, FExportMapEntry, EExportCommandType, FExportBundleEntry,
  command_type_repr,
}
use retoc.Prelude.{
  suc, zero, [], ◌∷◌, false, true, List, ℕ, Bool, if◌then◌else◌, get_elem?, length, ◌==◌, ◌&&◌, not,
  ◌+◌, ◌%◌, ◌^◌, ◌++◌,
}
use retoc.Outcome.{ok, Outcome}
use retoc.ScriptObjects.{FPackageObjectIndex, is_kind, package_import}
use retoc.ZenConversion.{ZenExportGraphNode, ZenDependencyGraphNode}
use retoc.LegacyAsset.Objects.{FObjectExport}
use retoc.Zen.PackageIndex.{FPackageIndex}
use retoc.ZenConversion.Preload.{
  DependencyMap, dependencies_of, load_order_of, create_node, serialize_node,
}
use retoc.Zen.Dependencies.{FDependencyBundleHeader, FDependencyBundleEntry}
use retoc.Prelude.Int.{as_i32, eq_ℤ}

unfoldable bundle_entries : List ZenExportGraphNode → Outcome (List FExportBundleEntry)
bundle_entries [] = ok []
bundle_entries (n ∷ load_order) =
    let others = bundle_entries load_order in
    let entries = Outcome.bind (PackageIndex.to_export_index n.node.package_index) (λ export_index.
      Outcome.bind others (λ es.
        ok (
          record { local_export_index = export_index; command_type = n.node.command_type }
          ∷ es))) in
    if PackageIndex.is_export n.node.package_index then entries else others

-- An export always has an entry, and an import where it is one of a package.
unfoldable wants_entry : List FPackageObjectIndex → FPackageIndex → Outcome Bool
wants_entry import_map index =
    if PackageIndex.is_export index
    then ok true
    else if PackageIndex.is_import index
    then Outcome.bind (PackageIndex.to_import_index index) (λ import_index.
      Outcome.bind (Outcome.unwrap (get_elem? import_map import_index)) (is_kind package_import))
    else ok false

-- The dependencies of one node on nodes of one command type, without those on the node's own export.
unfoldable collect_export_dependencies :
    List FPackageObjectIndex
    → ZenDependencyGraphNode
    → EExportCommandType
    → List ZenDependencyGraphNode
    → Outcome (List FDependencyBundleEntry)
collect_export_dependencies import_map to_node command_type [] = ok []
collect_export_dependencies import_map to_node command_type (n ∷ deps) =
    let others = collect_export_dependencies import_map to_node command_type deps in
    let chosen = Outcome.bind (wants_entry import_map n.package_index) (λ wanted.
      Outcome.bind others (λ es.
        ok (
          if wanted
          then record { local_import_or_export_index = n.package_index } ∷ es
          else es))) in
    if (command_type_repr n.command_type == command_type_repr command_type)
      && not (eq_ℤ n.package_index.index to_node.package_index.index)
    then chosen
    else others

-- The headers and the entries of the bundles of the exports from an index on; `first` entries stand
-- before them.
unfoldable dependency_bundles :
    List FPackageObjectIndex
    → DependencyMap
    → ℕ
    → ℕ
    → ℕ
    → Outcome (List FDependencyBundleHeader × List FDependencyBundleEntry)
dependency_bundles import_map deps first export_index zero = ok ([], [])
dependency_bundles import_map deps first export_index (suc left) =
    let of_create = dependencies_of deps (create_node export_index) in
    let of_serialize = dependencies_of deps (serialize_node export_index) in
    Outcome.bind
      (collect_export_dependencies import_map (create_node export_index) create_export of_create)
      λ a.
        Outcome.bind
          (collect_export_dependencies import_map (create_node export_index) serialize_export
            of_create)
          λ b.
            Outcome.bind
              (collect_export_dependencies import_map (serialize_node export_index) create_export
                of_serialize)
              λ c.
                Outcome.bind
                  (collect_export_dependencies import_map (serialize_node export_index)
                    serialize_export of_serialize)
                  λ d.
                    Outcome.bind
                      (dependency_bundles import_map deps
                        (first + (length a + length b + (length c + length d))) (suc export_index)
                        left)
                      λ (headers, entries). ok (
                        record {
                          first_entry_index = as_i32 (first % 2 ^ 32);
                          create_before_create_dependencies = length a % 2 ^ 32;
                          serialize_before_create_dependencies = length b % 2 ^ 32;
                          create_before_serialize_dependencies = length c % 2 ^ 32;
                          serialize_before_serialize_dependencies = length d % 2 ^ 32;
                        }
                            ∷ headers,
                        a ++ (b ++ (c ++ (d ++ entries))),
                      )

-- `build_zen_dependency_bundle_new`, for a package without bundles yet
unfoldable build_zen_dependency_bundle_new :
    List FPackageObjectIndex
    → List FExportMapEntry
    → List ZenExportGraphNode
    → DependencyMap
    → Outcome (List FExportBundleEntry × List FDependencyBundleHeader × List FDependencyBundleEntry)
build_zen_dependency_bundle_new import_map export_map load_order deps =
    Outcome.bind (bundle_entries load_order) λ bundle.
      Outcome.bind (dependency_bundles import_map deps 0 0 (length export_map))
        λ (headers, entries). ok (bundle, headers, entries)

-- `build_zen_preload_dependencies` from `NoExportInfo` on
unfoldable build_zen_preload_dependencies :
    List FObjectExport
    → List FPackageIndex
    → List FExportMapEntry
    → List FPackageObjectIndex
    → Outcome (List FExportBundleEntry × List FDependencyBundleHeader × List FDependencyBundleEntry)
build_zen_preload_dependencies exports preload export_map import_map =
    Outcome.bind (load_order_of exports preload export_map)
      λ (load_order, deps). build_zen_dependency_bundle_new import_map export_map load_order deps
