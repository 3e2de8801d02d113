-- ===== src/ZenConversion/Preload.antt =====
-- `build_zen_preload_dependencies` and `build_zen_dependency_bundle_new` of
-- src/zen_asset_conversion.rs, on the parts of the builder that they use. A negative index panics,
-- as the `usize` that it is cast to is beyond every list. Hash maps are lists of pairs.
pub mod Nodes
pub mod Sound
pub mod Reverse
pub mod Known
pub mod Pushed
use retoc.Outcome
use retoc.Zen.PackageIndex
use retoc.Zen.Exports.{
  create_export, serialize_export, FExportMapEntry, EExportCommandType, is_public_export,
}
use retoc.Prelude.Int.{negsuc, pos, ℤ, wrap_i32, add_ℤ, eq_ℤ}
use retoc.Outcome.{ok, panicked, Outcome}
use retoc.Prelude.{◌∷◌, [], zero, suc, List, ℕ, ◌%◌, if◌then◌else◌, get_elem?, ◌++◌, ◌^◌}
use retoc.ZenConversion.LoadOrder.{Dependants, sort_dependencies_in_load_order}
use retoc.ZenConversion.{ZenDependencyGraphNode, ZenExportGraphNode, eq_graph_node, eq_node}
use retoc.LegacyAsset.Objects.{FObjectExport}
use retoc.Zen.PackageIndex.{FPackageIndex}

abbrev pub DependencyMap : Type 0
DependencyMap = List (ZenDependencyGraphNode × List ZenDependencyGraphNode)

-- `xs[index as usize]`
unfoldable pub get_at : {A : Type 0} → List A → ℤ → Outcome A
get_at xs (pos n) = Outcome.unwrap (get_elem? xs n)
get_at xs (negsuc n) = panicked

-- The number of rounds of `0..n`.
abbrev pub rounds : ℤ → ℕ
rounds (pos n) = n
rounds (negsuc n) = 0

abbrev pub plus_i32 : ℤ → ℤ → ℤ
plus_i32 a b = wrap_i32 (add_ℤ a b)

-- The dependencies from `base` on, from the index `i` for the rounds that are left.
unfoldable pub collect :
    List FPackageIndex → EExportCommandType → ℤ → ℕ → ℕ → Outcome (List ZenDependencyGraphNode)
collect preload command_type base zero i = ok []
collect preload command_type base (suc left) i =
    Outcome.bind (get_at preload (plus_i32 base (pos i))) λ preload_dependency.
      Outcome.bind (collect preload command_type base left (suc i)) λ others.
        ok (record { package_index = preload_dependency; command_type = command_type } ∷ others)

abbrev pub create_node : ℕ → ZenDependencyGraphNode
create_node export_index = record {
  package_index = PackageIndex.create_export (export_index % 2 ^ 32);
  command_type = create_export;
}

abbrev pub serialize_node : ℕ → ZenDependencyGraphNode
serialize_node export_index = record {
  package_index = PackageIndex.create_export (export_index % 2 ^ 32);
  command_type = serialize_export;
}

-- The four lists of dependencies lie one behind another, from `base0` on.
unfoldable pub collect_all :
    List FPackageIndex
    → FObjectExport
    → ℤ
    → ℤ
    → ℤ
    → ℤ
    → Outcome (List ZenDependencyGraphNode × List ZenDependencyGraphNode)
collect_all preload object_export base0 base1 base2 base3 =
    Outcome.bind
      (collect preload create_export base3 (rounds object_export.create_before_create_dependencies)
        0)
      λ a.
        Outcome.bind
          (collect preload serialize_export base2
            (rounds object_export.serialize_before_create_dependencies) 0)
          λ b.
            Outcome.bind
              (collect preload create_export base1
                (rounds object_export.create_before_serialize_dependencies) 0)
              λ c.
                Outcome.bind
                  (collect preload serialize_export base0
                    (rounds object_export.serialize_before_serialize_dependencies) 0)
                  λ d. ok (a ++ b, c ++ d)

-- The dependencies of the creation and of the serialization of an export.
unfoldable pub export_dependencies :
    List FPackageIndex
    → FObjectExport
    → Outcome (List ZenDependencyGraphNode × List ZenDependencyGraphNode)
export_dependencies preload object_export =
    let base0 = object_export.first_export_dependency_index in
    let base1 = plus_i32 base0 object_export.serialize_before_serialize_dependencies in
    let base2 = plus_i32 base1 object_export.create_before_serialize_dependencies in
    let base3 = plus_i32 base2 object_export.serialize_before_create_dependencies in
    if eq_ℤ base0 (negsuc 0)
    then ok ([], [])
    else collect_all preload object_export base0 base1 base2 base3

-- The nodes of the exports from an index on, and the dependencies of each.
unfoldable pub build_nodes :
    List FPackageIndex
    → List FExportMapEntry
    → ℕ
    → List FObjectExport
    → Outcome (List ZenExportGraphNode × DependencyMap)
build_nodes preload export_map export_index [] = ok ([], [])
build_nodes preload export_map export_index (object_export ∷ exports) =
    Outcome.bind (export_dependencies preload object_export) λ (create_deps, serialize_deps).
      Outcome.bind (Outcome.unwrap (get_elem? export_map export_index)) λ entry.
        Outcome.bind (build_nodes preload export_map (suc export_index) exports) λ (nodes, deps).
          ok (
            record { node = create_node export_index; is_public_export = is_public_export entry }
                ∷ record {
                  node = serialize_node export_index;
                  is_public_export = is_public_export entry;
                }
                ∷ nodes,
            (create_node export_index, create_deps)
                ∷ (serialize_node export_index, create_node export_index ∷ serialize_deps)
                ∷ deps,
          )

-- `export_dependencies.get`
unfoldable pub dependencies_of :
    DependencyMap → ZenDependencyGraphNode → List ZenDependencyGraphNode
dependencies_of [] n = []
dependencies_of ((key, deps) ∷ map) n = if eq_graph_node n key then deps else dependencies_of map n

-- `dependency_to_dependants.entry(key).or_default().push(node)`
unfoldable pub push_dependant : Dependants → ZenExportGraphNode → ZenExportGraphNode → Dependants
push_dependant [] key node = (key, node ∷ []) ∷ []
push_dependant ((k, nodes) ∷ map) key node =
    if eq_node key k
    then (k, nodes ++ node ∷ []) ∷ map
    else (k, nodes) ∷ push_dependant map key node

unfoldable pub add_dependant :
    List FExportMapEntry
    → ZenExportGraphNode
    → List ZenDependencyGraphNode
    → Dependants
    → Outcome Dependants
add_dependant export_map dependant [] map = ok map
add_dependant export_map dependant (raw ∷ deps) map =
    let skip = add_dependant export_map dependant deps map in
    let add = Outcome.bind (PackageIndex.to_export_index raw.package_index) (λ index.
      Outcome.bind (Outcome.unwrap (get_elem? export_map index)) (λ entry.
        add_dependant export_map dependant deps (
          push_dependant map (record { node = raw; is_public_export = is_public_export entry })
            dependant))) in
    if PackageIndex.is_export raw.package_index then add else skip

unfoldable pub reverse_lookup :
    List FExportMapEntry → DependencyMap → List ZenExportGraphNode → Dependants → Outcome Dependants
reverse_lookup export_map deps [] map = ok map
reverse_lookup export_map deps (dependant ∷ nodes) map =
    Outcome.bind (add_dependant export_map dependant (dependencies_of deps dependant.node) map)
      (reverse_lookup export_map deps nodes)

-- The sorted nodes, and the dependencies that the bundles are built from.
unfoldable pub load_order_of :
    List FObjectExport
    → List FPackageIndex
    → List FExportMapEntry
    → Outcome (List ZenExportGraphNode × DependencyMap)
load_order_of exports preload export_map =
    Outcome.bind (build_nodes preload export_map 0 exports) λ (nodes, deps).
      Outcome.bind (reverse_lookup export_map deps nodes []) λ dependants.
        Outcome.bind (sort_dependencies_in_load_order nodes dependants) λ sorted. ok (sorted, deps)
