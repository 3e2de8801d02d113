-- ===== src/ZenConversion/Preload/Nodes.antt =====
-- The nodes that `build_zen_preload_dependencies` makes of the exports.
use retoc.Zen.PackageIndex
use retoc.Outcome
use retoc.Zen.Exports.{create_export, serialize_export, FExportMapEntry, is_public_export}
use retoc.Outcome.{ok, bind-eq-ok, unwrap-eq-ok, ok-injective}
use retoc.Prelude.Int.{pos}
use retoc.Prelude.{
  none, suc, some, ◌∷◌, false, Option, List, Bool, ℕ, ◌≤◌, ◌<◌, ◌≡◌, ◌⊎◌, get_elem?, ap, sym, inr,
  [], inl, refl, arith, ◌^◌, ◌+◌, length, ◌-◌, subst, Bool-cases, ◌%◌, ◌==◌, ◌∙◌,
}
use retoc.Zen.PackageIndex.{FPackageIndex, create_export_index}
use retoc.LegacyAsset.Objects.{FObjectExport}
use retoc.ZenConversion.Preload.{
  build_nodes, DependencyMap, create_node, serialize_node, export_dependencies,
}
use retoc.ZenConversion.{
  ZenExportGraphNode, ZenDependencyGraphNode, eq_node, eq_node→eq, eq_graph_node, eq_node_refl,
}
use retoc.ZenConversion.LoadOrder.Counting.{occurrences}
use native.Mathlib.Nat.{mod-eq_of_lt}

abbrev public_of : Option FExportMapEntry → Bool
public_of none = false
public_of (some entry) = is_public_export entry

-- A node of an export from `low` on and below `high`.
pub record IsNode (export_map : List FExportMapEntry) (low high : ℕ) (x : ZenExportGraphNode)
    : Type 0 where
  pub place : ℕ
  pub from_low : low ≤ place
  pub below_high : place < high
  pub index : x.node.package_index.index ≡ pos (suc place)
  pub kind : (x.node.command_type ≡ create_export) ⊎ (x.node.command_type ≡ serialize_export)
  pub public : x.is_public_export ≡ public_of (get_elem? export_map place)

abbrev creation : FExportMapEntry → ℕ → ZenExportGraphNode
creation entry k = record { node = create_node k; is_public_export = is_public_export entry }

abbrev serialization : FExportMapEntry → ℕ → ZenExportGraphNode
serialization entry k = record {
  node = serialize_node k;
  is_public_export = is_public_export entry;
}

module _ (preload : List FPackageIndex) (export_map : List FExportMapEntry) where
  -- What the first of some exports adds.
  pub record Step (k : ℕ) (o : FObjectExport) (os : List FObjectExport)
      (nodes : List ZenExportGraphNode) (deps : DependencyMap) : Type 0 where
    pub own : List ZenDependencyGraphNode × List ZenDependencyGraphNode
    pub entry : FExportMapEntry
    pub others : List ZenExportGraphNode × DependencyMap
    pub collected : export_dependencies preload o ≡ ok own
    pub found : get_elem? export_map k ≡ some entry
    pub built : build_nodes preload export_map (suc k) os ≡ ok others
    pub nodes_are : nodes ≡ creation entry k ∷ serialization entry k ∷ others.0
    pub deps_are :
        deps ≡ (create_node k, own.0) ∷ (serialize_node k, create_node k ∷ own.1) ∷ others.1

  pub build_nodes-Step :
      (k : ℕ) (o : FObjectExport) (os : List FObjectExport) (nodes : List ZenExportGraphNode)
      (deps : DependencyMap)
      → build_nodes preload export_map k (o ∷ os) ≡ ok (nodes, deps)
      → Step k o os nodes deps
  unfolding build_nodes
  build_nodes-Step k o os nodes deps h =
      let (own, collected, h1) = bind-eq-ok (export_dependencies preload o) _ h in
      let (entry, found, h2) = bind-eq-ok (Outcome.unwrap (get_elem? export_map k)) _ h1 in
      let (others, built, h3) = bind-eq-ok (build_nodes preload export_map (suc k) os) _ h2 in
      record {
        own = own;
        entry = entry;
        others = others;
        collected = collected;
        found = unwrap-eq-ok found;
        built = built;
        nodes_are = ap (λ p. p.0) (sym (ok-injective h3));
        deps_are = ap (λ p. p.1) (sym (ok-injective h3));
      }

abbrev Named : FPackageIndex → ℕ → Type 0
Named p i = p.index ≡ pos (suc i)

pub create_index : (k : ℕ) → k < 2 ^ 31 - 1 → Named (PackageIndex.create_export (k % 2 ^ 32)) k
create_index k h =
    rw (mod-eq_of_lt {n = k} {m = 2 ^ 32} (omega arith))
      (ap (λ p. p.index) (create_export_index k h))

module _ (preload : List FPackageIndex) (export_map : List FExportMapEntry) where
  creation-IsNode :
      (entry : FExportMapEntry) (k high : ℕ)
      → k < 2 ^ 31 - 1
      → k < high
      → get_elem? export_map k ≡ some entry
      → IsNode export_map k high (creation entry k)
        × IsNode export_map k high (serialization entry k)
  creation-IsNode entry k high small below found = (
    record {
      place = k;
      from_low = omega arith;
      below_high = below;
      index = create_index k small;
      kind = inl refl;
      public = rw found;
    },
    record {
      place = k;
      from_low = omega arith;
      below_high = below;
      index = create_index k small;
      kind = inr refl;
      public = rw found;
    },
  )

  IsNode-widen :
      (k high : ℕ) (x : ZenExportGraphNode)
      → IsNode export_map (suc k) high x
      → IsNode export_map k high x
  IsNode-widen k high x n = record {
    place = n.place;
    from_low = omega (arith, n.from_low);
    below_high = n.below_high;
    index = n.index;
    kind = n.kind;
    public = n.public;
  }

  -- The nodes are nodes of the exports.
  pub build_nodes-IsNode :
      (k : ℕ) (exports : List FObjectExport) (nodes : List ZenExportGraphNode)
      (deps : DependencyMap)
      → k + length exports < 2 ^ 31
      → build_nodes preload export_map k exports ≡ ok (nodes, deps)
      → (x : ZenExportGraphNode) → 0 < occurrences x nodes
      → IsNode export_map k (k + length exports) x
  unfolding build_nodes
  build_nodes-IsNode k [] nodes deps small h x some_x =
      let none_left : [] ≡ nodes = ap (λ p. p.0) (ok-injective h) in
      absurd (omega (arith, subst (λ ns. 0 < occurrences x ns) (sym none_left) some_x))
  build_nodes-IsNode k (o ∷ os) nodes deps small h x some_x =
      let s = build_nodes-Step preload export_map k o os nodes deps h in
      let here =
        creation-IsNode s.entry k (k + length (o ∷ os)) (omega arith) (omega arith) s.found in
      let some_x' = subst (λ ns. 0 < occurrences x ns) s.nodes_are some_x in
      elim (Bool-cases (eq_node x (creation s.entry k))) [
        | inl e ↦ subst (IsNode export_map k (k + length (o ∷ os))) (sym (eq_node→eq x _ e)) here.0
        | inr e ↦ elim (Bool-cases (eq_node x (serialization s.entry k))) [
          | inl f ↦
              subst (IsNode export_map k (k + length (o ∷ os))) (sym (eq_node→eq x _ f)) here.1
          | inr f ↦
              let left : 0 < occurrences x s.others.0 = ground (arith, some_x', e, f) in
              IsNode-widen k (k + length (o ∷ os)) x (
                subst (λ n. IsNode export_map (suc k) n x) (omega arith)
                  (build_nodes-IsNode (suc k) os s.others.0 s.others.1 (omega arith) s.built x
                    left))
        ]
      ]

same_node :
    (x y : ZenExportGraphNode)
    → x.node.package_index.index ≡ y.node.package_index.index
    → x.node.command_type ≡ y.node.command_type
    → x.is_public_export ≡ y.is_public_export
    → x ≡ y
same_node x y i c p = cc

later :
    (export_map : List FExportMapEntry) (k high : ℕ) (x : ZenExportGraphNode)
    → IsNode export_map (suc k) high x
    → Named x.node.package_index k
    → ⊥
later export_map k high x n e =
    let same : pos (suc n.place) ≡ pos (suc k) = sym n.index ∙ e in ground (arith, n.from_low, same)

module _ (preload : List FPackageIndex) (export_map : List FExportMapEntry) where
  -- All nodes of the exports are there.
  pub IsNode-build_nodes :
      (k : ℕ) (exports : List FObjectExport) (nodes : List ZenExportGraphNode)
      (deps : DependencyMap)
      → k + length exports < 2 ^ 31
      → build_nodes preload export_map k exports ≡ ok (nodes, deps)
      → (x : ZenExportGraphNode) → IsNode export_map k (k + length exports) x
      → 0 < occurrences x nodes
  IsNode-build_nodes k [] nodes deps small h x n = absurd (omega (arith, n.from_low, n.below_high))
  IsNode-build_nodes k (o ∷ os) nodes deps small h x n =
      let s = build_nodes-Step preload export_map k o os nodes deps h in
      let c = creation s.entry k in
      let d = serialization s.entry k in
      subst (λ ns. 0 < occurrences x ns) (sym s.nodes_are)
        (elim (Bool-cases (n.place == k)) [
          | inl e ↦
              let here : n.place ≡ k = ground (arith, e) in
              let same_index : x.node.package_index.index ≡ c.node.package_index.index =
                n.index ∙ rw here (sym (create_index k (omega arith))) in
              let same_public : x.is_public_export ≡ is_public_export s.entry =
                n.public ∙ rw (here, s.found) refl in
              elim n.kind [
                | inl f ↦ rw (same_node x c same_index f same_public, eq_node_refl c) (omega arith)
                | inr f ↦ rw (same_node x d same_index f same_public, eq_node_refl d) (omega arith)
              ]
          | inr e ↦
              let left =
                IsNode-build_nodes (suc k) os s.others.0 s.others.1 (omega arith) s.built x
                  (record {
                    place = n.place;
                    from_low = ground (arith, e, n.from_low);
                    below_high = omega (arith, n.below_high);
                    index = n.index;
                    kind = n.kind;
                    public = n.public;
                  }) in
              omega (arith, left)
        ])

  differ : (a b : FExportMapEntry) (k : ℕ) → eq_node (creation a k) (serialization b k) ≡ false
  unfolding eq_node eq_graph_node
  differ a b k = ground arith

  -- The nodes differ.
  pub build_nodes-distinct :
      (k : ℕ) (exports : List FObjectExport) (nodes : List ZenExportGraphNode)
      (deps : DependencyMap)
      → k + length exports < 2 ^ 31
      → build_nodes preload export_map k exports ≡ ok (nodes, deps)
      → (x : ZenExportGraphNode) → occurrences x nodes ≤ 1
  unfolding build_nodes
  build_nodes-distinct k [] nodes deps small h x =
      subst (λ ns. occurrences x ns ≤ 1) (ap (λ p. p.0) (ok-injective h)) (omega arith)
  build_nodes-distinct k (o ∷ os) nodes deps small h x =
      let s = build_nodes-Step preload export_map k o os nodes deps h in
      let c = creation s.entry k in
      let d = serialization s.entry k in
      let left = build_nodes-distinct (suc k) os s.others.0 s.others.1 (omega arith) s.built x in
      let none_of : (y : ZenExportGraphNode)
          → Named y.node.package_index k
          → occurrences y s.others.0 ≡ 0 =
        λ y e. elim (Bool-cases (occurrences y s.others.0 == 0)) [
          | inl z ↦ ground (arith, z)
          | inr z ↦ absurd (
              later export_map k (suc k + length os) y
                (build_nodes-IsNode preload export_map (suc k) os s.others.0 s.others.1
                  (omega arith) s.built y (ground (arith, z)))
                e)
        ] in
      let named_k = create_index k (omega arith) in
      subst (λ ns. occurrences x ns ≤ 1) (sym s.nodes_are)
        (ground (
          arith,
          left,
          eq_node→eq x c,
          eq_node→eq x d,
          none_of c named_k,
          none_of d named_k,
          differ s.entry s.entry k,
        ))
