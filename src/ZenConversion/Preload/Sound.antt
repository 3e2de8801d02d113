-- ===== src/ZenConversion/Preload/Sound.antt =====
-- The graph that `load_order_of` sorts, and the order that it returns.
use retoc.ZenConversion.LoadOrder.Rounds.{keys}
use retoc.Prelude.{
  true, inr, [], inl, ◌∷◌, List, ℕ, length, arith, ◌≡◌, ◌<◌, ◌^◌, subst, ap, Bool-cases, ◌==◌, ◌-◌,
  ◌++◌, sym, ◌+◌,
}
use retoc.Outcome.{ok, ok-injective, bind-eq-ok}
use retoc.Zen.PackageIndex.{is_export, FPackageIndex}
use retoc.Zen.Exports.{FExportMapEntry}
use retoc.LegacyAsset.Objects.{FObjectExport}
use retoc.ZenConversion.Preload.{
  DependencyMap, reverse_lookup, dependencies_of, load_order_of, build_nodes, add_dependant,
  serialize_node, create_node,
}
use retoc.ZenConversion.{
  ZenExportGraphNode, eq_node, ZenDependencyGraphNode, eq_node→eq, eq_node_refl,
}
use retoc.ZenConversion.Preload.Reverse.{
  Edges, add_dependant-Edges, add_dependant-edge, add_dependant-kept,
}
use retoc.ZenConversion.LoadOrder.{Dependants, dependants_of, sort_dependencies_in_load_order}
use retoc.ZenConversion.Preload.Nodes.{
  IsNode, build_nodes-IsNode, IsNode-build_nodes, build_nodes-distinct, create_index,
}
use retoc.ZenConversion.LoadOrder.Counting.{occurrences, occurrences-append}
use retoc.ZenConversion.Preload.Known.{
  contains_node, AreWords, IsKnown, build_nodes-IsKnown, build_nodes-created,
}
use retoc.Ser.Arrays.{All}
use retoc.ZenConversion.LoadOrder.Sorted.{IsGraph}
use retoc.ZenConversion.LoadOrder.Verdict.{sort_dependencies-occurrences, sort_dependencies-before}

module _ (export_map : List FExportMapEntry) (deps : DependencyMap) where
  reverse_lookup-Edges :
      (nodes ns : List ZenExportGraphNode) (map after : Dependants)
      → ((x : ZenExportGraphNode) → 0 < occurrences x ns → 0 < occurrences x nodes)
      → ((n : ZenDependencyGraphNode) → All IsKnown (dependencies_of deps n))
      → Edges export_map nodes map
      → reverse_lookup export_map deps ns map ≡ ok after
      → Edges export_map nodes after
  unfolding reverse_lookup
  reverse_lookup-Edges nodes [] map after sub known e h =
      subst (Edges export_map nodes) (ok-injective h) e
  reverse_lookup-Edges nodes (n ∷ ns) map after sub known e h =
      let (next, added, rest) =
        bind-eq-ok (add_dependant export_map n (dependencies_of deps n.node) map) _ h in
      reverse_lookup-Edges nodes ns next after (λ x k. sub x (omega (arith, k))) known
        (add_dependant-Edges export_map nodes n (dependencies_of deps n.node) map next
          (sub n (rw (eq_node_refl n) (omega arith))) (known n.node) e added)
        rest

  reverse_lookup-kept :
      (ns : List ZenExportGraphNode) (map after : Dependants) (x y : ZenExportGraphNode)
      → 0 < occurrences y (dependants_of map x)
      → reverse_lookup export_map deps ns map ≡ ok after
      → 0 < occurrences y (dependants_of after x)
  unfolding reverse_lookup
  reverse_lookup-kept [] map after x y edge h =
      subst (λ m. 0 < occurrences y (dependants_of m x)) (ok-injective h) edge
  reverse_lookup-kept (n ∷ ns) map after x y edge h =
      let (next, added, rest) =
        bind-eq-ok (add_dependant export_map n (dependencies_of deps n.node) map) _ h in
      reverse_lookup-kept ns next after x y
        (add_dependant-kept export_map [] n (dependencies_of deps n.node) map next x y edge added)
        rest

  reverse_lookup-edge :
      (ns : List ZenExportGraphNode) (map after : Dependants) (y : ZenExportGraphNode)
      (raw : ZenDependencyGraphNode)
      → reverse_lookup export_map deps ns map ≡ ok after
      → 0 < occurrences y ns
      → contains_node raw (dependencies_of deps y.node) ≡ true
      → is_export raw.package_index ≡ true
      → (x : ZenExportGraphNode) × (x.node ≡ raw) × (0 < occurrences y (dependants_of after x))
  unfolding reverse_lookup
  reverse_lookup-edge [] map after y raw h some_y c b = absurd (omega arith)
  reverse_lookup-edge (n ∷ ns) map after y raw h some_y c b =
      let (next, added, rest) =
        bind-eq-ok (add_dependant export_map n (dependencies_of deps n.node) map) _ h in
      elim (Bool-cases (eq_node y n)) [
        | inl e ↦
            let same : y ≡ n = eq_node→eq y n e in
            let (x, is_raw, edge) =
              add_dependant-edge export_map [] n (dependencies_of deps n.node) map next raw added
                (subst (λ z. contains_node raw (dependencies_of deps z.node) ≡ true) same c) b in
            (
              x,
              is_raw,
              subst (λ z. 0 < occurrences z (dependants_of after x)) (sym same)
                  (reverse_lookup-kept ns next after x n edge rest),
            )
        | inr e ↦ reverse_lookup-edge ns next after y raw rest (ground (arith, some_y, e)) c b
      ]

no_Edges :
    (export_map : List FExportMapEntry) (nodes : List ZenExportGraphNode)
    → Edges export_map nodes []
no_Edges export_map nodes = record {
  distinct = λ x. omega arith;
  known = λ x h. absurd (omega arith);
  targets = λ x h. absurd (omega arith);
}

IsNode-is_export :
    (export_map : List FExportMapEntry) (low high : ℕ) (x : ZenExportGraphNode)
    → IsNode export_map low high x
    → is_export x.node.package_index ≡ true
unfolding is_export
IsNode-is_export export_map low high x n = rw n.index (ground arith)

is_export_create : (i : ℕ) → i < 2 ^ 31 - 1 → is_export (create_node i).package_index ≡ true
unfolding is_export
is_export_create i h = rw (create_index i h) (ground arith)

module _ (exports : List FObjectExport) (preload : List FPackageIndex)
    (export_map : List FExportMapEntry) (same_length : length export_map ≡ length exports)
    (short : length exports < 2 ^ 31) (words : AreWords preload) where
  -- What the order is made of.
  record Ordered (order : List ZenExportGraphNode) (deps : DependencyMap) : Type 0 where
    nodes : List ZenExportGraphNode
    dependants : Dependants
    built : build_nodes preload export_map 0 exports ≡ ok (nodes, deps)
    reversed : reverse_lookup export_map deps nodes [] ≡ ok dependants
    sorted : sort_dependencies_in_load_order nodes dependants ≡ ok order

  load_order_of-Ordered :
      (order : List ZenExportGraphNode) (deps : DependencyMap)
      → load_order_of exports preload export_map ≡ ok (order, deps)
      → Ordered order deps
  unfolding load_order_of
  load_order_of-Ordered order deps h =
      let ((nodes, d), built, h1) = bind-eq-ok (build_nodes preload export_map 0 exports) _ h in
      let (dependants, reversed, h2) = bind-eq-ok (reverse_lookup export_map d nodes []) _ h1 in
      let (o, sorted, h3) = bind-eq-ok (sort_dependencies_in_load_order nodes dependants) _ h2 in
      let same_order : o ≡ order = ap (λ p. p.0) (ok-injective h3) in
      let same_deps : d ≡ deps = ap (λ p. p.1) (ok-injective h3) in
      record {
        nodes = nodes;
        dependants = dependants;
        built =
            subst (λ e. build_nodes preload export_map 0 exports ≡ ok (nodes, e)) same_deps built;
        reversed =
            subst (λ e. reverse_lookup export_map e nodes [] ≡ ok dependants) same_deps reversed;
        sorted =
            subst (λ e. sort_dependencies_in_load_order nodes dependants ≡ ok e) same_order sorted;
      }

  module _ (order : List ZenExportGraphNode) (deps : DependencyMap) (o : Ordered order deps) where
    Ordered-IsGraph : IsGraph o.nodes o.dependants
    Ordered-IsGraph =
        let e =
          reverse_lookup-Edges export_map deps o.nodes o.nodes [] o.dependants (λ x k. k)
            (build_nodes-IsKnown preload words export_map 0 exports o.nodes deps (omega arith)
              o.built)
            (no_Edges export_map o.nodes) o.reversed in
        let node = λ (x : ZenExportGraphNode) (k : 0 < occurrences x o.nodes).
          build_nodes-IsNode preload export_map 0 exports o.nodes deps (omega arith) o.built x k in
        let there = λ (x : ZenExportGraphNode) (k : 0 < occurrences x (keys o.dependants)).
          IsNode-build_nodes preload export_map 0 exports o.nodes deps (omega arith) o.built x
            (subst (λ n. IsNode export_map 0 n x) (omega (arith, same_length)) (e.known x k)) in
        record {
          distinct =
              build_nodes-distinct preload export_map 0 exports o.nodes deps (omega arith) o.built;
          distinct_keys = e.distinct;
          sources = λ x. elim (Bool-cases (occurrences x (keys o.dependants) == 0)) [
            | inl z ↦ ground (arith, z)
            | inr z ↦ ground (arith, z, e.distinct x, there x (ground (arith, z)))
          ];
          targets = e.targets;
          exports = λ x k. IsNode-is_export export_map 0 _ x (node x k);
        }

    in_nodes :
        (x : ZenExportGraphNode) (before after : List ZenExportGraphNode)
        → order ≡ before ++ x ∷ after
        → 0 < occurrences x o.nodes
    in_nodes x before after split =
        let once =
          sort_dependencies-occurrences o.nodes o.dependants Ordered-IsGraph order o.sorted x in
        let split_once : occurrences x order ≡ occurrences x before + occurrences x (x ∷ after) =
          rw split (occurrences-append x before (x ∷ after)) in
        ground (arith, once, split_once, eq_node_refl x)

    ordered-before :
        (x : ZenExportGraphNode) (raw : ZenDependencyGraphNode)
        (before after : List ZenExportGraphNode)
        → contains_node raw (dependencies_of deps x.node) ≡ true
        → is_export raw.package_index ≡ true
        → order ≡ before ++ x ∷ after
        → (a : ZenExportGraphNode) × (a.node ≡ raw) × (0 < occurrences a before)
    ordered-before x raw before after c b split =
        let (a, is_raw, edge) =
          reverse_lookup-edge export_map deps o.nodes [] o.dependants x raw o.reversed
            (in_nodes x before after split) c b in
        (
          a,
          is_raw,
          sort_dependencies-before o.nodes o.dependants Ordered-IsGraph order o.sorted a x before
              after edge split,
        )

  -- For fewer than 2 ^ 31 exports, as many entries of the export map, and preload dependencies of
  -- 32 bits: in the load order of the exports, where there is one, the creation of an export stands
  -- before its serialization.
  pub load_order_of-created :
      (order : List ZenExportGraphNode) (deps : DependencyMap)
      → load_order_of exports preload export_map ≡ ok (order, deps)
      → (i : ℕ) → i < length exports
      → (x : ZenExportGraphNode) (before after : List ZenExportGraphNode)
      → x.node ≡ serialize_node i
      → order ≡ before ++ x ∷ after
      → (a : ZenExportGraphNode) × (a.node ≡ create_node i) × (0 < occurrences a before)
  load_order_of-created order deps h i small x before after is_x split =
      let o = load_order_of-Ordered order deps h in
      let depends : contains_node (create_node i) (dependencies_of deps x.node) ≡ true =
        subst (λ n. contains_node (create_node i) (dependencies_of deps n) ≡ true) (sym is_x)
          (build_nodes-created preload words export_map 0 exports o.nodes deps o.built i
            (omega arith) (omega arith)) in
      ordered-before order deps o x (create_node i) before after depends
        (is_export_create i (omega arith)) split

  -- For fewer than 2 ^ 31 exports, as many entries of the export map, and preload dependencies of
  -- 32 bits: in the load order of the exports, where there is one, each node of an export stands
  -- once.
  pub load_order_of-once :
      (order : List ZenExportGraphNode) (deps : DependencyMap)
      → load_order_of exports preload export_map ≡ ok (order, deps)
      → (x : ZenExportGraphNode) → IsNode export_map 0 (length exports) x
      → occurrences x order ≡ 1
  load_order_of-once order deps h x n =
      let o = load_order_of-Ordered order deps h in
      omega (
        arith,
        sort_dependencies-occurrences o.nodes o.dependants (Ordered-IsGraph order deps o) order
            o.sorted x,
        IsNode-build_nodes preload export_map 0 exports o.nodes deps (omega arith) o.built x
            (subst (λ m. IsNode export_map 0 m x) (omega arith) n),
        build_nodes-distinct preload export_map 0 exports o.nodes deps (omega arith) o.built x,
      )
