-- ===== src/Tests/Graphs.antt =====
-- The theorems on the load order at a graph of two exports: the first is created after the second,
-- and serialized after its creation.
use retoc.Outcome.{ok, err, circular_dependency}
use retoc.Prelude.{
  suc, true, refl, [], ◌∷◌, ◌<◌, List, ℕ, if◌then◌else◌, Bool, ◌≡◌, ◌≤◌, ◌&&◌, ◌==◌, arith, ltb,
  ◌⊎◌, inr, false, inl, Bool-cases, subst, sym,
}
use retoc.Prelude.Int.{pos}
use retoc.ZenConversion.LoadOrder.{
  dependants_of, Dependants, sort_dependencies_in_load_order, count_edges, add_edges, without_edges,
  take_nodes, pop, cmp, release,
}
use retoc.ZenConversion.LoadOrder.Counting.{occurrences}
use retoc.ZenConversion.{ZenExportGraphNode, eq_node, eq_graph_node, eq_node→eq}
use retoc.ZenConversion.LoadOrder.Verdict.{
  sort_dependencies-before, sort_dependencies-occurrences, sort_dependencies_acyclic,
  sort_dependencies_ends,
}
use retoc.Zen.Exports.{serialize_export, create_export}
use retoc.ZenConversion.LoadOrder.Rounds.{unmet, keys}
use retoc.Zen.PackageIndex.{is_export, to_export_index}
use retoc.ZenConversion.LoadOrder.Sorted.{IsGraph}

abbrev create_node : ℕ → ZenExportGraphNode
create_node i = record {
  node = record { package_index = record { index = pos (suc i) }; command_type = create_export };
  is_public_export = true;
}

abbrev serialize_node : ℕ → ZenExportGraphNode
serialize_node i = record {
  node = record { package_index = record { index = pos (suc i) }; command_type = serialize_export };
  is_public_export = true;
}

abbrev nodes : List ZenExportGraphNode
nodes = create_node 0 ∷ serialize_node 0 ∷ create_node 1 ∷ []

abbrev dependants : Dependants
dependants = (create_node 0, serialize_node 0 ∷ []) ∷ (create_node 1, create_node 0 ∷ []) ∷ []

abbrev order : List ZenExportGraphNode
order = create_node 1 ∷ create_node 0 ∷ serialize_node 0 ∷ []

abbrev distinct_nodes : List ZenExportGraphNode → Bool
distinct_nodes [] = true
distinct_nodes (n ∷ ns) = (occurrences n ns == 0) && distinct_nodes ns

abbrev all_in : List ZenExportGraphNode → List ZenExportGraphNode → Bool
all_in [] ms = true
all_in (n ∷ ns) ms = ltb 0 (occurrences n ms) && all_in ns ms

abbrev all_exports : List ZenExportGraphNode → Bool
all_exports [] = true
all_exports (n ∷ ns) = is_export n.node.package_index && all_exports ns

abbrev all_targets_in : Dependants → List ZenExportGraphNode → Bool
all_targets_in [] ms = true
all_targets_in ((_, ns) ∷ d) ms = all_in ns ms && all_targets_in d ms

module _ (x : ZenExportGraphNode) where
  occurrences-distinct_nodes :
      (ns : List ZenExportGraphNode) → distinct_nodes ns ≡ true → occurrences x ns ≤ 1
  occurrences-distinct_nodes [] h = omega arith
  occurrences-distinct_nodes (n ∷ ns) h = elim (Bool-cases (eq_node x n)) [
    | inl e ↦
        let none_left : occurrences n ns ≡ 0 = ground (arith, h) in
        rw e (omega (arith, subst (λ y. occurrences y ns ≡ 0) (sym (eq_node→eq x n e)) none_left))
    | inr e ↦ rw e (ground (arith, occurrences-distinct_nodes ns))
  ]

  occurrences-all_in :
      (ns ms : List ZenExportGraphNode)
      → all_in ns ms ≡ true
      → 0 < occurrences x ns
      → 0 < occurrences x ms
  occurrences-all_in [] ms h k = absurd (omega arith)
  occurrences-all_in (n ∷ ns) ms h k = ground (arith, eq_node→eq x n, occurrences-all_in ns ms)

  unmet-all_targets_in :
      (d : Dependants) (ms : List ZenExportGraphNode)
      → all_targets_in d ms ≡ true
      → 0 < unmet [] d x
      → 0 < occurrences x ms
  unmet-all_targets_in [] ms h k = absurd (omega arith)
  unmet-all_targets_in ((key, ns) ∷ d) ms h k =
      ground (arith, occurrences-all_in ns ms, unmet-all_targets_in d ms)

  exports-all_exports :
      (ns : List ZenExportGraphNode)
      → all_exports ns ≡ true
      → 0 < occurrences x ns
      → is_export x.node.package_index ≡ true
  exports-all_exports [] h k = absurd (omega arith)
  exports-all_exports (n ∷ ns) h k = elim (Bool-cases (eq_node x n)) [
    | inl e ↦ rw (eq_node→eq x n e) (ground (arith, h))
    | inr e ↦ exports-all_exports ns (ground (arith, h)) (ground (arith, e))
  ]

graph : IsGraph nodes dependants
unfolding eq_node eq_graph_node is_export
graph = record {
  distinct = λ x. occurrences-distinct_nodes x nodes refl;
  distinct_keys = λ x. occurrences-distinct_nodes x (keys dependants) refl;
  sources = λ x. ground (
    arith,
    occurrences-distinct_nodes x (keys dependants) refl,
    occurrences-all_in x (keys dependants) nodes refl,
  );
  targets = λ x. unmet-all_targets_in x dependants nodes refl;
  exports = λ x. exports-all_exports x nodes refl;
}

sorted : sort_dependencies_in_load_order nodes dependants ≡ ok order
unfolding sort_dependencies_in_load_order count_edges add_edges without_edges take_nodes pop cmp
    release dependants_of eq_node eq_graph_node to_export_index is_export
sorted = refl

edge : 0 < occurrences (create_node 0) (dependants_of dependants (create_node 1))
unfolding dependants_of eq_node eq_graph_node
edge = omega arith

sort_dependencies-before_example : 0 < occurrences (create_node 1) (create_node 1 ∷ [])
sort_dependencies-before_example =
    sort_dependencies-before nodes dependants graph order sorted (create_node 1) (create_node 0)
      (create_node 1 ∷ []) (serialize_node 0 ∷ []) edge refl

sort_dependencies-occurrences_example :
    occurrences (serialize_node 0) order ≡ occurrences (serialize_node 0) nodes
sort_dependencies-occurrences_example =
    sort_dependencies-occurrences nodes dependants graph order sorted (serialize_node 0)

sort_dependencies_ends_example :
    ((order : List ZenExportGraphNode) × (sort_dependencies_in_load_order nodes dependants
        ≡ ok order))
    ⊎ (sort_dependencies_in_load_order nodes dependants ≡ err circular_dependency)
sort_dependencies_ends_example = sort_dependencies_ends nodes dependants graph

abbrev rank : ZenExportGraphNode → ℕ
rank x = if eq_node x (create_node 1) then 0 else if eq_node x (create_node 0) then 1 else 2

differ :
    (eq_node (create_node 0) (create_node 1) ≡ false)
    × (eq_node (serialize_node 0) (create_node 1) ≡ false)
    × (eq_node (serialize_node 0) (create_node 0) ≡ false)
unfolding eq_node eq_graph_node
differ = (refl, refl, refl)

below :
    (a b : ZenExportGraphNode) → 0 < occurrences b (dependants_of dependants a) → rank a < rank b
unfolding dependants_of
below a b h = ground (
  arith,
  eq_node→eq a (create_node 0),
  eq_node→eq a (create_node 1),
  eq_node→eq b (create_node 0),
  eq_node→eq b (serialize_node 0),
  differ,
)

sort_dependencies_acyclic_example :
    (order : List ZenExportGraphNode) × (sort_dependencies_in_load_order nodes dependants
      ≡ ok order)
sort_dependencies_acyclic_example = sort_dependencies_acyclic nodes dependants graph rank below
