-- ===== src/ZenConversion/LoadOrder.antt =====
-- `sort_dependencies_in_load_order` of src/zen_asset_conversion.rs. The hash map of the dependants
-- is a list of pairs in the order of its iteration, and the heap a list, of which `pop` takes a
-- greatest item. The edges are fewer than 2 ^ 64, as their vectors fit the memory.

pub mod Counting
pub mod Rounds
pub mod Sorted
pub mod Verdict
use Prim.Native.Nat.{Ordering, compare}
use retoc.Prelude.{
  ◌∷◌, false, suc, true, [], zero, ℕ, Bool, List, if◌then◌else◌, ◌+◌, ◌==◌, ◌^◌, ◌-◌, ◌++◌, length,
}
use retoc.ZenConversion.{ZenExportGraphNode, eq_node}
use retoc.Outcome.{Outcome, out_of_fuel, ok, err, circular_dependency}
use retoc.Zen.PackageIndex.{to_export_index}
use retoc.Zen.Exports.{command_type_repr}
use retoc.Outcome

abbrev pub Dependants : Type 0
Dependants = List (ZenExportGraphNode × List ZenExportGraphNode)

abbrev pub Counts : Type 0
Counts = ZenExportGraphNode → ℕ

abbrev then_with : Ordering → Ordering → Ordering
then_with Ordering.eq o = o
then_with o _ = o

abbrev reverse_ordering : Ordering → Ordering
reverse_ordering Ordering.lt = Ordering.gt
reverse_ordering Ordering.eq = Ordering.eq
reverse_ordering Ordering.gt = Ordering.lt

abbrev bool_repr : Bool → ℕ
bool_repr false = 0
bool_repr true = 1

abbrev is_gt : Ordering → Bool
is_gt Ordering.gt = true
is_gt _ = false

-- `Ord::cmp`, which panics on a node that is no export
unfoldable pub cmp : ZenExportGraphNode → ZenExportGraphNode → Outcome Ordering
cmp self other = Outcome.bind (to_export_index self.node.package_index) λ a.
    Outcome.bind (to_export_index other.node.package_index) λ b. ok (
      reverse_ordering (
        then_with
          (then_with (compare (bool_repr other.is_public_export) (bool_repr self.is_public_export))
            (compare (command_type_repr self.node.command_type)
              (command_type_repr other.node.command_type)))
          (compare a b)))

-- `BinaryHeap::pop` of a heap with an item: a greatest item and the others.
unfoldable pub pop :
    ZenExportGraphNode
    → List ZenExportGraphNode
    → Outcome (ZenExportGraphNode × List ZenExportGraphNode)
pop best [] = ok (best, [])
pop best (n ∷ heap) = Outcome.bind (cmp n best) λ o.
    let keep = Outcome.bind (pop best heap) (λ (top, others). ok (top, n ∷ others)) in
    let replace = Outcome.bind (pop n heap) (λ (top, others). ok (top, best ∷ others)) in
    if is_gt o then replace else keep

abbrev pub update : Counts → ZenExportGraphNode → ℕ → Counts
update counts n v m = if eq_node m n then v else counts m

unfoldable pub add_edges : Counts → List ZenExportGraphNode → Counts
add_edges counts [] = counts
add_edges counts (to_node ∷ to_nodes) =
    add_edges (update counts to_node (counts to_node + 1)) to_nodes

unfoldable pub count_edges : Counts → Dependants → Counts
count_edges counts [] = counts
count_edges counts ((_, to_nodes) ∷ dependants) = count_edges (add_edges counts to_nodes) dependants

unfoldable pub without_edges : Counts → List ZenExportGraphNode → List ZenExportGraphNode
without_edges counts [] = []
without_edges counts (n ∷ nodes) =
    if counts n == 0 then n ∷ without_edges counts nodes else without_edges counts nodes

-- `-= 1` on a `usize`
abbrev pub decrement : ℕ → ℕ
decrement n = if n == 0 then 2 ^ 64 - 1 else n - 1

unfoldable pub release :
    Counts → List ZenExportGraphNode → List ZenExportGraphNode → Counts × List ZenExportGraphNode
release counts heap [] = (counts, heap)
release counts heap (to_node ∷ to_nodes) =
    release (update counts to_node (decrement (counts to_node)))
      (if decrement (counts to_node) == 0 then to_node ∷ heap else heap) to_nodes

-- `dependency_to_dependants.get`, with no dependants for a node that is not there
unfoldable pub dependants_of : Dependants → ZenExportGraphNode → List ZenExportGraphNode
dependants_of [] n = []
dependants_of ((key, to_nodes) ∷ dependants) n =
    if eq_node n key then to_nodes else dependants_of dependants n

unfoldable pub take_nodes :
    ℕ
    → Dependants
    → Counts
    → List ZenExportGraphNode
    → List ZenExportGraphNode
    → Outcome (List ZenExportGraphNode)
take_nodes zero dependants counts heap load_order = out_of_fuel
take_nodes (suc fuel) dependants counts [] load_order = ok load_order
take_nodes (suc fuel) dependants counts (n ∷ heap) load_order =
    Outcome.bind (pop n heap) λ (removed, others).
      let released = release counts others (dependants_of dependants removed) in
      take_nodes fuel dependants released.0 released.1 (load_order ++ removed ∷ [])

unfoldable pub sort_dependencies_in_load_order :
    List ZenExportGraphNode → Dependants → Outcome (List ZenExportGraphNode)
sort_dependencies_in_load_order nodes dependants =
    let counts : Counts = count_edges (λ _. 0) dependants in
    Outcome.bind (take_nodes (suc (length nodes)) dependants counts (without_edges counts nodes) [])
      λ load_order.
        if length load_order == length nodes then ok load_order else err circular_dependency
