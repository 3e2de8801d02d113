-- ===== src/ZenConversion.antt =====
-- The nodes of the dependency graph of src/zen_asset_conversion.rs: the two commands of each export.
pub mod LoadOrder
pub mod Preload
pub mod Bundles
use retoc.Prelude.{true, false, Bool, ◌≡◌, ◌&&◌, arith, not, ◌==◌}
use retoc.Zen.Exports.{EExportCommandType, command_type_repr}
use retoc.Prelude.Int.{pos, negsuc, ℤ, eq_ℤ}
use retoc.Zen.PackageIndex.{FPackageIndex}

pub record ZenDependencyGraphNode : Type 0 where
  pub package_index : FPackageIndex
  pub command_type : EExportCommandType

pub record ZenExportGraphNode : Type 0 where
  pub node : ZenDependencyGraphNode
  pub is_public_export : Bool

abbrev eq_bool : Bool → Bool → Bool
eq_bool true b = b
eq_bool false b = not b

-- The derived `==`.
unfoldable pub eq_graph_node : ZenDependencyGraphNode → ZenDependencyGraphNode → Bool
eq_graph_node x y =
    eq_ℤ x.package_index.index y.package_index.index
    && (command_type_repr x.command_type == command_type_repr y.command_type)

unfoldable pub eq_node : ZenExportGraphNode → ZenExportGraphNode → Bool
unfolding eq_graph_node
eq_node x y = eq_graph_node x.node y.node && eq_bool x.is_public_export y.is_public_export

eq_ℤ→eq : (a b : ℤ) → eq_ℤ a b ≡ true → a ≡ b
eq_ℤ→eq (pos a) (pos b) h = ground arith
eq_ℤ→eq (pos a) (negsuc b) h = cc
eq_ℤ→eq (negsuc a) (pos b) h = cc
eq_ℤ→eq (negsuc a) (negsuc b) h = ground arith

command_type_repr-injective :
    (a b : EExportCommandType) → command_type_repr a ≡ command_type_repr b → a ≡ b
command_type_repr-injective a b h = ground arith

pub eq_graph_node→eq : (x y : ZenDependencyGraphNode) → eq_graph_node x y ≡ true → x ≡ y
unfolding eq_graph_node
eq_graph_node→eq x y h = ground (
  arith,
  eq_ℤ→eq x.package_index.index y.package_index.index,
  command_type_repr-injective x.command_type y.command_type,
)

pub eq_graph_node_refl : (x : ZenDependencyGraphNode) → eq_graph_node x x ≡ true
unfolding eq_graph_node
eq_graph_node_refl x = ground arith

pub eq_node→eq : (x y : ZenExportGraphNode) → eq_node x y ≡ true → x ≡ y
unfolding eq_node
eq_node→eq x y h = ground (arith, eq_graph_node→eq x.node y.node)

pub eq_node_refl : (x : ZenExportGraphNode) → eq_node x x ≡ true
unfolding eq_node
eq_node_refl x = ground arith
