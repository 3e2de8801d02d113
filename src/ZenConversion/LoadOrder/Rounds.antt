-- ===== src/ZenConversion/LoadOrder/Rounds.antt =====
-- What a round of the sort does to the counts of the unsorted edges, and to the heap.

use retoc.Prelude.{
  [], ◌∷◌, refl, ℕ, List, if◌then◌else◌, map, ◌≡◌, ◌≤◌, ◌==◌, ◌-◌, ◌++◌, arith, ◌+◌, ◌∙◌, inl, inr,
  Bool-cases,
}
use retoc.ZenConversion.{ZenExportGraphNode, eq_node→eq, eq_node, eq_node_refl}
use retoc.ZenConversion.LoadOrder.{
  without_edges, Dependants, dependants_of, add_edges, count_edges, release, Counts, update,
  decrement,
}
use retoc.ZenConversion.LoadOrder.Counting.{occurrences, occurrences-append}

-- The edges to `x` from nodes other than those that are `done`.
abbrev pub unmet : List ZenExportGraphNode → Dependants → ZenExportGraphNode → ℕ
unmet done [] x = 0
unmet done ((key, to_nodes) ∷ dependants) x =
    (if occurrences key done == 0 then occurrences x to_nodes else 0) + unmet done dependants x

abbrev pub keys : Dependants → List ZenExportGraphNode
keys dependants = map (λ p. p.0) dependants

add_edges_lem :
    (counts : Counts) (to_nodes : List ZenExportGraphNode) (x : ZenExportGraphNode)
    → add_edges counts to_nodes x ≡ counts x + occurrences x to_nodes
unfolding add_edges
add_edges_lem counts [] x = omega arith
add_edges_lem counts (n ∷ to_nodes) x =
    add_edges_lem (update counts n (counts n + 1)) to_nodes x ∙ ground (arith, eq_node→eq x n)

pub count_edges_lem :
    (counts : Counts) (dependants : Dependants) (x : ZenExportGraphNode)
    → count_edges counts dependants x ≡ counts x + unmet [] dependants x
unfolding count_edges
count_edges_lem counts [] x = omega arith
count_edges_lem counts ((key, to_nodes) ∷ dependants) x = omega (
  arith,
  count_edges_lem (add_edges counts to_nodes) dependants x,
  add_edges_lem counts to_nodes x,
)

pub occurrences-without_edges :
    (counts : Counts) (nodes : List ZenExportGraphNode) (x : ZenExportGraphNode)
    → occurrences x (without_edges counts nodes)
      ≡ (if counts x == 0 then occurrences x nodes else 0)
unfolding without_edges
occurrences-without_edges counts [] x = ground arith
occurrences-without_edges counts (n ∷ nodes) x =
    ground (arith, eq_node→eq x n, occurrences-without_edges counts nodes x)

-- What `release` adds to the heap.
abbrev pub released : ℕ → ℕ → ℕ
released count edges = if count == 0 then 0 else if count - edges == 0 then 1 else 0

still_fits :
    (counts : Counts) (n : ZenExportGraphNode) (to_nodes : List ZenExportGraphNode)
    → ((y : ZenExportGraphNode) → occurrences y (n ∷ to_nodes) ≤ counts y)
    → (y : ZenExportGraphNode) → occurrences y to_nodes ≤ update counts n (decrement (counts n)) y
still_fits counts n to_nodes h y = ground (arith, eq_node→eq y n, h y, h n, eq_node_refl n)

module _ (x : ZenExportGraphNode) where
  pub release_counts :
      (counts : Counts) (heap to_nodes : List ZenExportGraphNode)
      → ((y : ZenExportGraphNode) → occurrences y to_nodes ≤ counts y)
      → (release counts heap to_nodes).0 x ≡ counts x - occurrences x to_nodes
  unfolding release
  release_counts counts heap [] h = omega arith
  release_counts counts heap (n ∷ to_nodes) h =
      release_counts (update counts n (decrement (counts n)))
        (if decrement (counts n) == 0 then n ∷ heap else heap) to_nodes
        (still_fits counts n to_nodes h)
      ∙ ground (arith, eq_node→eq x n, h x, h n, eq_node_refl n)

  pub release_heap :
      (counts : Counts) (heap to_nodes : List ZenExportGraphNode)
      → ((y : ZenExportGraphNode) → occurrences y to_nodes ≤ counts y)
      → occurrences x (release counts heap to_nodes).1
        ≡ occurrences x heap + released (counts x) (occurrences x to_nodes)
  unfolding release
  release_heap counts heap [] h = ground arith
  release_heap counts heap (n ∷ to_nodes) h =
      release_heap (update counts n (decrement (counts n)))
        (if decrement (counts n) == 0 then n ∷ heap else heap) to_nodes
        (still_fits counts n to_nodes h)
      ∙ ground (arith, eq_node→eq x n, h x, h n, eq_node_refl n)

eq_node_comm : (x y : ZenExportGraphNode) → eq_node x y ≡ eq_node y x
eq_node_comm x y = ground (arith, eq_node→eq x y, eq_node→eq y x, eq_node_refl x, eq_node_refl y)

unmet-append :
    (done : List ZenExportGraphNode) (dependants : Dependants) (n x : ZenExportGraphNode)
    → occurrences n (keys dependants) ≡ 0
    → unmet done dependants x ≡ unmet (done ++ n ∷ []) dependants x
unmet-append done [] n x h = refl
unmet-append done ((key, to_nodes) ∷ dependants) n x h = ground (
  arith,
  unmet-append done dependants n x,
  eq_node_comm n key,
  occurrences-append key done (n ∷ []),
)

pub unmet-dependants_of :
    (done : List ZenExportGraphNode) (dependants : Dependants) (n x : ZenExportGraphNode)
    → occurrences n done ≡ 0
    → ((k : ZenExportGraphNode) → occurrences k (keys dependants) ≤ 1)
    → unmet done dependants x
      ≡ unmet (done ++ n ∷ []) dependants x + occurrences x (dependants_of dependants n)
unfolding dependants_of
unmet-dependants_of done [] n x h distinct = refl
unmet-dependants_of done ((key, to_nodes) ∷ dependants) n x h distinct =
    elim (Bool-cases (eq_node n key)) [
      | inl e ↦ ground (
        arith,
        unmet-append done dependants n x,
        eq_node→eq n key,
        distinct n,
        distinct key,
        eq_node_refl key,
        occurrences-append key done (n ∷ []),
      )
      | inr e ↦
          let rest = unmet-dependants_of done dependants n x h (λ k. omega (arith, distinct k)) in
          ground (arith, rest, eq_node_comm n key, occurrences-append key done (n ∷ []))
    ]
