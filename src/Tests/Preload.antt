-- ===== src/Tests/Preload.antt =====
-- The load order of a package of two exports, of which the first is created after the second.
use retoc.Zen.Exports.{FExportMapEntry, is_public_export, not_for_server}
use retoc.ZenConversion.LoadOrder.{
  pop, sort_dependencies_in_load_order, count_edges, add_edges, without_edges, take_nodes, cmp,
  release, dependants_of,
}
use retoc.Prelude.Int.{negsuc, pos}
use retoc.Prelude.{inr, [], refl, true, false, ◌∷◌, List, ℕ, ◌^◌, ◌≡◌, ◌<◌, ◌-◌, arith}
use retoc.Outcome.{ok}
use retoc.ScriptObjects.{FPackageObjectIndex}
use retoc.ZenConversion.Preload.{
  dependencies_of, load_order_of, DependencyMap, build_nodes, serialize_node, create_node,
  export_dependencies, collect_all, collect, get_at, reverse_lookup, add_dependant, push_dependant,
}
use retoc.LegacyAsset.Objects.{FObjectExport}
use retoc.ZenConversion.LoadOrder.Counting.{occurrences}
use retoc.ZenConversion.{ZenExportGraphNode, eq_graph_node, eq_node}
use retoc.Zen.PackageIndex.{is_export, FPackageIndex, to_export_index}
use retoc.ZenConversion.Preload.Nodes.{IsNode}
use retoc.ZenConversion.Preload.Sound.{load_order_of-once, load_order_of-created}
use retoc.Zen.PackageIndex

abbrev bare : FObjectExport
bare = record {
  class_index = record { index = pos 0 };
  super_index = record { index = pos 0 };
  template_index = record { index = pos 0 };
  outer_index = record { index = pos 0 };
  object_name = record { index = pos 0; number = pos 0 };
  object_flags = 0;
  serial_size = pos 0;
  serial_offset = pos 0;
  is_not_for_client = false;
  is_not_for_server = false;
  is_inherited_instance = false;
  is_not_always_loaded_for_editor_game = false;
  is_asset = true;
  generate_public_hash = false;
  first_export_dependency_index = negsuc 0;
  serialize_before_serialize_dependencies = pos 0;
  create_before_serialize_dependencies = pos 0;
  serialize_before_create_dependencies = pos 0;
  create_before_create_dependencies = pos 0;
  script_serialization_start_offset = pos 0;
  script_serialization_end_offset = pos 0;
}

abbrev dependent : FObjectExport
dependent = record bare {
  first_export_dependency_index = pos 0;
  create_before_create_dependencies = pos 1;
}

abbrev exports : List FObjectExport
exports = dependent ∷ bare ∷ []

abbrev preload : List FPackageIndex
preload = record { index = pos 2 } ∷ []

abbrev no_index : FPackageObjectIndex
no_index = record { type_and_id = 2 ^ 64 - 1 }

abbrev entry : FExportMapEntry
entry = record {
  cooked_serial_offset = 0;
  cooked_serial_size = 0;
  object_name = record { index_and_type = 3; number = 0 };
  outer_index = no_index;
  class_index = no_index;
  super_index = no_index;
  template_index = no_index;
  public_export_hash = 0;
  object_flags = 0;
  filter_flags = not_for_server;
  padding = 0 ∷ 0 ∷ 0 ∷ [];
}

abbrev export_map : List FExportMapEntry
export_map = entry ∷ entry ∷ []

abbrev creation : ℕ → ZenExportGraphNode
creation i = record { node = create_node i; is_public_export = false }

abbrev serialization : ℕ → ZenExportGraphNode
serialization i = record { node = serialize_node i; is_public_export = false }

abbrev order : List ZenExportGraphNode
order = creation 1 ∷ creation 0 ∷ serialization 0 ∷ serialization 1 ∷ []

abbrev deps : DependencyMap
deps =
    (create_node 0, create_node 1 ∷ [])
    ∷ (serialize_node 0, create_node 0 ∷ [])
    ∷ (create_node 1, [])
    ∷ (serialize_node 1, create_node 1 ∷ [])
    ∷ []

ordered : load_order_of exports preload export_map ≡ ok (order, deps)
unfolding load_order_of build_nodes export_dependencies collect_all collect get_at reverse_lookup
    add_dependant dependencies_of push_dependant sort_dependencies_in_load_order count_edges
    add_edges without_edges take_nodes pop cmp release dependants_of eq_node eq_graph_node
    to_export_index is_export PackageIndex.create_export is_public_export
ordered = refl

load_order_of-created_example :
    (a : ZenExportGraphNode) × (a.node ≡ create_node 0)
    × (0 < occurrences a (creation 1 ∷ creation 0 ∷ []))
load_order_of-created_example =
    load_order_of-created exports preload export_map refl (omega arith) (omega arith) order deps
      ordered 0 (omega arith) (serialization 0) (creation 1 ∷ creation 0 ∷ [])
      (serialization 1 ∷ []) refl refl

node : IsNode export_map 0 2 (serialization 1)
unfolding is_public_export PackageIndex.create_export
node = record {
  place = 1;
  from_low = omega arith;
  below_high = omega arith;
  index = refl;
  kind = inr refl;
  public = refl;
}

load_order_of-once_example : occurrences (serialization 1) order ≡ 1
load_order_of-once_example =
    load_order_of-once exports preload export_map refl (omega arith) (omega arith) order deps
      ordered (serialization 1) node
