-- ===== src/ZenConversion/LoadOrder/Verdict.antt =====
-- What the sort returns, and when it finds circular dependencies.

use retoc.Prelude.{
  inr, ◌∷◌, inl, [], List, ◌++◌, ◌≡◌, ◌<◌, ◌≤◌, append-nil, arith, append_assoc, Bool-cases, ◌==◌,
  ◌&&◌, ltb, zero, suc, ℕ, if◌then◌else◌, ◌⊎◌, length, ◌∙◌, true, sym, subst,
}
use retoc.ZenConversion.LoadOrder.{
  dependants_of, Dependants, Counts, sort_dependencies_in_load_order, count_edges, without_edges,
}
use retoc.ZenConversion.{ZenExportGraphNode, eq_node→eq, eq_node_refl}
use retoc.ZenConversion.LoadOrder.Sorted.{IsLoadOrder, IsGraph, Inv, take_nodes-ok, start}
use retoc.ZenConversion.LoadOrder.Rounds.{unmet, keys}
use retoc.ZenConversion.LoadOrder.Counting.{occurrences, occurrences-eq, length-le}
use retoc.Outcome.{ok, err, circular_dependency, ok-injective}

IsLoadOrder-unmet :
    (dependants : Dependants) (seen before after : List ZenExportGraphNode) (b : ZenExportGraphNode)
    → IsLoadOrder dependants seen (before ++ b ∷ after)
    → unmet (seen ++ before) dependants b ≡ 0
IsLoadOrder-unmet dependants seen [] after b h = rw append-nil h.0
IsLoadOrder-unmet dependants seen (n ∷ before) after b h =
    rw (← append_assoc seen (n ∷ []) before)
      (IsLoadOrder-unmet dependants (seen ++ n ∷ []) before after b h.1)

unmet-zero :
    (done : List ZenExportGraphNode) (dependants : Dependants) (a b : ZenExportGraphNode)
    → unmet done dependants b ≡ 0
    → 0 < occurrences b (dependants_of dependants a)
    → 0 < occurrences a done
unfolding dependants_of
unmet-zero done [] a b e h = absurd (omega arith)
unmet-zero done ((key, to_nodes) ∷ dependants) a b e h =
    ground (arith, eq_node→eq a key, unmet-zero done dependants a b)

-- An edge to `x` that is not met has a source that is not done.
unmet-source :
    (done : List ZenExportGraphNode) (dependants : Dependants) (x : ZenExportGraphNode)
    → ((k : ZenExportGraphNode) → occurrences k (keys dependants) ≤ 1)
    → 0 < unmet done dependants x
    → (a : ZenExportGraphNode) × (occurrences a done ≡ 0)
      × (0 < occurrences x (dependants_of dependants a))
      × (0 < occurrences a (keys dependants))
unfolding dependants_of
unmet-source done [] x distinct h = absurd (omega arith)
unmet-source done ((key, to_nodes) ∷ dependants) x distinct h =
    elim (Bool-cases (occurrences key done == 0 && ltb 0 (occurrences x to_nodes))) [
      | inl e ↦ (
        key,
        ground arith,
        rw (eq_node_refl key) (ground arith),
        rw (eq_node_refl key) (omega arith),
      )
      | inr e ↦
          let (a, left, edge, there) =
            unmet-source done dependants x (λ k. omega (arith, distinct k)) (ground arith) in
          (a, left, ground (arith, distinct key, eq_node→eq a key, eq_node_refl key), omega arith)
    ]

-- What the loop ends with.
record Ended (nodes : List ZenExportGraphNode) (dependants : Dependants)
    (order : List ZenExportGraphNode) : Type 0 where
  after : Counts
  inv : Inv nodes dependants after [] order
  returns :
      sort_dependencies_in_load_order nodes dependants
      ≡ (if length order == length nodes then ok order else err circular_dependency)

module _ (nodes : List ZenExportGraphNode) (dependants : Dependants)
    (graph : IsGraph nodes dependants) where
  ended : (order : List ZenExportGraphNode) × Ended nodes dependants order
  unfolding sort_dependencies_in_load_order
  ended =
      let counts : Counts = count_edges (λ _. 0) dependants in
      let (order, after, done, inv) =
        take_nodes-ok nodes dependants graph (suc (length nodes)) counts
          (without_edges counts nodes) [] (start nodes dependants graph) (omega arith) in
      (order, record { after = after; inv = inv; returns = rw done })

  -- For a graph of exports, whose nodes differ and whose edges lead from nodes to nodes: the sort
  -- ends, without a panic, with an order or with the error for circular dependencies.
  pub sort_dependencies_ends :
      ((order : List ZenExportGraphNode) × (sort_dependencies_in_load_order nodes dependants
          ≡ ok order))
      ⊎ (sort_dependencies_in_load_order nodes dependants ≡ err circular_dependency)
  sort_dependencies_ends =
      let (order, e) = ended in
      elim (Bool-cases (length order == length nodes)) [
        | inl all ↦ inl (order, e.returns ∙ rw all)
        | inr left ↦ inr (e.returns ∙ rw left)
      ]

  module _ (order : List ZenExportGraphNode) (e : Ended nodes dependants order) where
    some_times : (x : ZenExportGraphNode) → occurrences x order ≤ occurrences x nodes
    some_times x = ground (arith, e.inv.bag x)

    no_edges_left :
        (rank : ZenExportGraphNode → ℕ)
        → ((a b : ZenExportGraphNode)
            → 0 < occurrences b (dependants_of dependants a)
            → rank a < rank b)
        → (k : ℕ) (x : ZenExportGraphNode) → rank x < k
        → e.after x ≡ 0
    no_edges_left rank below zero x h = absurd (omega arith)
    no_edges_left rank below (suc k) x h = elim (Bool-cases (e.after x == 0)) [
      | inl none_left ↦ ground arith
      | inr some_left ↦
          let unmet_x : 0 < unmet order dependants x = ground (arith, e.inv.met x) in
          let (a, missing, edge, key) =
            unmet-source order dependants x graph.distinct_keys unmet_x in
          let met_a = no_edges_left rank below k a (omega (arith, below a x edge)) in
          absurd (ground (arith, met_a, e.inv.bag a, graph.sources a, missing, key))
    ]

  module _ (order : List ZenExportGraphNode)
      (returned : sort_dependencies_in_load_order nodes dependants ≡ ok order) where
    returned_order : Ended nodes dependants order × (length order ≡ length nodes)
    returned_order =
        let (ending, e) = ended in
        elim (Bool-cases (length ending == length nodes)) [
          | inl all ↦
              let same : ending ≡ order = ok-injective (sym (e.returns ∙ rw all) ∙ returned) in
              subst (λ o. Ended nodes dependants o × (length o ≡ length nodes)) same
                (e, ground arith)
          | inr left ↦
              let failed : sort_dependencies_in_load_order nodes dependants
                  ≡ err circular_dependency =
                e.returns ∙ rw left in
              cc
        ]

    -- For a graph of exports, whose nodes differ and whose edges lead from nodes to nodes: an order
    -- that the sort returns has each node of the graph once, and no other node.
    pub sort_dependencies-occurrences :
        (x : ZenExportGraphNode) → occurrences x order ≡ occurrences x nodes
    sort_dependencies-occurrences x =
        let (e, all) = returned_order in occurrences-eq order nodes (some_times order e) all x

    -- For a graph of exports, whose nodes differ and whose edges lead from nodes to nodes: in an
    -- order that the sort returns, a node that another depends on stands before it.
    pub sort_dependencies-before :
        (a b : ZenExportGraphNode) (before after : List ZenExportGraphNode)
        → 0 < occurrences b (dependants_of dependants a)
        → order ≡ before ++ b ∷ after
        → 0 < occurrences a before
    sort_dependencies-before a b before after edge split =
        let (e, _) = returned_order in
        unmet-zero before dependants a b
          (IsLoadOrder-unmet dependants [] before after b
            (subst (λ o. IsLoadOrder dependants [] o) split e.inv.ordered))
          edge

  order_has :
      (order : List ZenExportGraphNode) (e : Ended nodes dependants order)
      → (rank : ZenExportGraphNode → ℕ)
      → ((a b : ZenExportGraphNode)
          → 0 < occurrences b (dependants_of dependants a)
          → rank a < rank b)
      → (x : ZenExportGraphNode) → occurrences x nodes ≤ occurrences x order
  order_has order e rank below x =
      ground (arith, e.inv.bag x, no_edges_left order e rank below (suc (rank x)) x (omega arith))

  -- A graph of exports, whose nodes differ and whose edges lead from nodes to nodes, is sorted if
  -- each edge leads from a lower to a higher rank, so that there is no cycle.
  pub sort_dependencies_acyclic :
      (rank : ZenExportGraphNode → ℕ)
      → ((a b : ZenExportGraphNode)
          → 0 < occurrences b (dependants_of dependants a)
          → rank a < rank b)
      → (order : List ZenExportGraphNode) × (sort_dependencies_in_load_order nodes dependants
          ≡ ok order)
  sort_dependencies_acyclic rank below =
      let (order, e) = ended in
      let as_often = λ (x : ZenExportGraphNode). order_has order e rank below x in
      let all : (length order == length nodes) ≡ true =
        ground
          (arith, length-le order nodes (some_times order e), length-le nodes order as_often) in
      (order, e.returns ∙ rw all)
