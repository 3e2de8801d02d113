-- ===== src/ZenConversion/LoadOrder/Sorted.antt =====
-- The graphs that are sorted, the orders of their nodes, and what holds in each round of the sort.

use retoc.Prelude.{
  ◌∷◌, inl, inr, [], true, refl, List, ◌<◌, ◌≡◌, ◌≤◌, ◌++◌, arith, append-nil, Bool-cases,
  append_assoc, ◌+◌, length, length-append, if◌then◌else◌, ◌==◌, suc, zero, ℕ,
}
use retoc.Outcome.{ok}
use retoc.ZenConversion.LoadOrder.{
  Dependants, cmp, pop, Ordering, is_gt, count_edges, Counts, release, without_edges, dependants_of,
  take_nodes,
}
use retoc.Zen.PackageIndex.{is_export, to_export_index}
use retoc.ZenConversion.{ZenExportGraphNode, eq_node_refl}
use retoc.ZenConversion.LoadOrder.Counting.{occurrences, length-le, occurrences-append}
use retoc.ZenConversion.LoadOrder.Rounds.{
  unmet, keys, count_edges_lem, unmet-dependants_of, occurrences-without_edges, release_counts,
  release_heap,
}

-- The nodes are exports and differ; the dependants, by keys that differ, are edges between them.
pub record IsGraph (nodes : List ZenExportGraphNode) (dependants : Dependants) : Type 0 where
  pub distinct : (x : ZenExportGraphNode) → occurrences x nodes ≤ 1
  pub distinct_keys : (x : ZenExportGraphNode) → occurrences x (keys dependants) ≤ 1
  pub sources : (x : ZenExportGraphNode) → occurrences x (keys dependants) ≤ occurrences x nodes
  pub targets : (x : ZenExportGraphNode) → 0 < unmet [] dependants x → 0 < occurrences x nodes
  pub exports :
      (x : ZenExportGraphNode) → 0 < occurrences x nodes → is_export x.node.package_index ≡ true

-- The nodes with edges to an item stand before it, `seen` counted in.
abbrev pub IsLoadOrder : Dependants → List ZenExportGraphNode → List ZenExportGraphNode → Type 0
IsLoadOrder dependants seen [] = Unit
IsLoadOrder dependants seen (n ∷ nodes) =
    (unmet seen dependants n ≡ 0) × IsLoadOrder dependants (seen ++ n ∷ []) nodes

IsLoadOrder-append :
    (dependants : Dependants) (seen nodes : List ZenExportGraphNode) (n : ZenExportGraphNode)
    → IsLoadOrder dependants seen nodes
    → unmet (seen ++ nodes) dependants n ≡ 0
    → IsLoadOrder dependants seen (nodes ++ n ∷ [])
IsLoadOrder-append dependants seen [] n h e = (rw append-nil at e, tt)
IsLoadOrder-append dependants seen (m ∷ nodes) n h e =
    (h.0, IsLoadOrder-append dependants (seen ++ m ∷ []) nodes n h.1 (rw append_assoc e))

cmp-ok :
    (x y : ZenExportGraphNode)
    → is_export x.node.package_index ≡ true
    → is_export y.node.package_index ≡ true
    → (o : Ordering) × (cmp x y ≡ ok o)
unfolding cmp is_export to_export_index
cmp-ok x y hx hy = rw (hx, hy) (_, refl)

abbrev AllExports : List ZenExportGraphNode → Type 0
AllExports nodes =
    (x : ZenExportGraphNode) → 0 < occurrences x nodes → is_export x.node.package_index ≡ true

record Popped (heap : List ZenExportGraphNode)
    (popped : ZenExportGraphNode × List ZenExportGraphNode) : Type 0 where
  same : (x : ZenExportGraphNode) → occurrences x heap ≡ occurrences x (popped.0 ∷ popped.1)

pop-ok :
    (best : ZenExportGraphNode) (heap : List ZenExportGraphNode)
    → AllExports (best ∷ heap)
    → (popped : ZenExportGraphNode × List ZenExportGraphNode) × (pop best heap ≡ ok popped)
      × Popped (best ∷ heap) popped
unfolding pop
pop-ok best [] h = ((best, []), refl, record { same = λ x. refl })
pop-ok best (n ∷ heap) h =
    let (o, compared) =
      cmp-ok n best (h n (ground (arith, eq_node_refl n)))
        (h best (ground (arith, eq_node_refl best))) in
    let (p, kept, k) = pop-ok best heap (λ x e. h x (omega arith)) in
    let (q, replaced, r) = pop-ok n heap (λ x e. h x (omega arith)) in
    elim (Bool-cases (is_gt o)) [
      | inl e ↦ (
        (q.0, best ∷ q.1),
        rw (compared, e, replaced),
        record { same = λ x. omega (arith, r.same x) },
      )
      | inr e ↦
          ((p.0, n ∷ p.1), rw (compared, e, kept), record { same = λ x. omega (arith, k.same x) })
    ]

unmet-le :
    (done : List ZenExportGraphNode) (dependants : Dependants) (x : ZenExportGraphNode)
    → unmet done dependants x ≤ unmet [] dependants x
unmet-le done [] x = omega arith
unmet-le done ((key, to_nodes) ∷ dependants) x = ground (arith, unmet-le done dependants x)

-- What holds before each round.
pub record Inv (nodes : List ZenExportGraphNode) (dependants : Dependants) (counts : Counts)
    (heap load_order : List ZenExportGraphNode) : Type 0 where
  pub met : (x : ZenExportGraphNode) → counts x ≡ unmet load_order dependants x
  pub bag :
      (x : ZenExportGraphNode)
      → occurrences x load_order + occurrences x heap
        ≡ (if counts x == 0 then occurrences x nodes else 0)
  pub ordered : IsLoadOrder dependants [] load_order

module _ (nodes : List ZenExportGraphNode) (dependants : Dependants)
    (graph : IsGraph nodes dependants) where
  pub start :
      Inv nodes dependants
        (count_edges (λ _. 0) dependants)
        (without_edges (count_edges (λ _. 0) dependants) nodes)
        []
  start = record {
    met = λ x. omega (arith, count_edges_lem (λ _. 0) dependants x);
    bag = λ x. omega (arith, occurrences-without_edges (count_edges (λ _. 0) dependants) nodes x);
    ordered = tt;
  }

  module _ (counts : Counts) (heap load_order : List ZenExportGraphNode)
      (inv : Inv nodes dependants counts heap load_order) where
    among : (x : ZenExportGraphNode) → 0 < occurrences x heap → 0 < occurrences x nodes
    among x h = ground (arith, inv.bag x)

    free : (x : ZenExportGraphNode) → 0 < occurrences x heap → counts x ≡ 0
    free x h = ground (arith, inv.bag x)

    unplaced : (x : ZenExportGraphNode) → 0 < occurrences x heap → occurrences x load_order ≡ 0
    unplaced x h = ground (arith, inv.bag x, graph.distinct x)

    placed_length : length load_order + length heap ≤ length nodes
    placed_length = omega (
      arith,
      length-append load_order heap,
      length-le (load_order ++ heap) nodes
          λ x. ground (arith, inv.bag x, occurrences-append x load_order heap),
    )

    pub counts_target : (x : ZenExportGraphNode) → 0 < counts x → occurrences x nodes ≡ 1
    counts_target x h = omega (
      arith,
      inv.met x,
      unmet-le load_order dependants x,
      graph.targets x (omega (arith, inv.met x, unmet-le load_order dependants x)),
      graph.distinct x,
    )

    fits :
        (removed : ZenExportGraphNode)
        → 0 < occurrences removed heap
        → (y : ZenExportGraphNode) → occurrences y (dependants_of dependants removed) ≤ counts y
    fits removed there y = omega (
      arith,
      inv.met y,
      unmet-dependants_of load_order dependants removed y (unplaced removed there)
          graph.distinct_keys,
    )

    round :
        (removed : ZenExportGraphNode) (others : List ZenExportGraphNode)
        → ((x : ZenExportGraphNode) → occurrences x heap ≡ occurrences x (removed ∷ others))
        → Inv nodes dependants
            (release counts others (dependants_of dependants removed)).0
            (release counts others (dependants_of dependants removed)).1
            (load_order ++ removed ∷ [])
    round removed others same =
        let there : 0 < occurrences removed heap =
          ground (arith, same removed, eq_node_refl removed) in
        let edges = dependants_of dependants removed in
        record {
          met = λ x. omega (
            arith,
            inv.met x,
            release_counts x counts others edges (fits removed there),
            unmet-dependants_of load_order dependants removed x (unplaced removed there)
                graph.distinct_keys,
          );
          bag = λ x. ground (
            arith,
            inv.bag x,
            same x,
            counts_target x,
            fits removed there x,
            release_counts x counts others edges (fits removed there),
            release_heap x counts others edges (fits removed there),
            occurrences-append x load_order (removed ∷ []),
          );
          ordered =
              IsLoadOrder-append dependants [] load_order removed inv.ordered
                (omega (arith, inv.met removed, free removed there));
        }

  -- With a round for each node that is left, the loop ends with no node of its heap left.
  pub take_nodes-ok :
      (fuel : ℕ) (counts : Counts) (heap load_order : List ZenExportGraphNode)
      → Inv nodes dependants counts heap load_order
      → length nodes < length load_order + fuel
      → (order : List ZenExportGraphNode) × (after : Counts) × (take_nodes fuel dependants counts
            heap load_order
          ≡ ok order)
        × Inv nodes dependants after [] order
  unfolding take_nodes
  take_nodes-ok zero counts heap load_order inv enough =
      absurd (omega (arith, placed_length counts heap load_order inv))
  take_nodes-ok (suc fuel) counts [] load_order inv enough = (load_order, counts, refl, inv)
  take_nodes-ok (suc fuel) counts (n ∷ heap) load_order inv enough =
      let (p, popped, k) =
        pop-ok n heap (λ x e. graph.exports x (among counts (n ∷ heap) load_order inv x e)) in
      let released = release counts p.1 (dependants_of dependants p.0) in
      let (order, after, done, final) =
        take_nodes-ok fuel released.0 released.1 (load_order ++ p.0 ∷ [])
          (round counts (n ∷ heap) load_order inv p.0 p.1 k.same)
          (omega (arith, length-append load_order (p.0 ∷ []))) in
      (order, after, rw popped done, final)
