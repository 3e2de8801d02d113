-- ===== src/ZenConversion/Preload/Known.antt =====
-- What the dependencies of an export are, where the package indexes are words.
use retoc.Zen.Exports.{create_export, serialize_export, EExportCommandType, FExportMapEntry}
use retoc.Prelude.Int.{negsuc, pos, InRange, ℤ, eq_ℤ}
use retoc.Prelude.{
  [], suc, none, inl, zero, ◌∷◌, refl, some, inr, Option, List, ◌≡◌, ◌^◌, ℕ, ◌⊎◌, subst, get_elem?,
  Bool-cases, false, true, Bool, ◌<◌, ◌-◌, ◌||◌, arith, ◌+◌, ◌≤◌, length, ap, sym, ◌==◌,
}
use retoc.Outcome.{ok, unwrap-eq-ok, bind-eq-ok, ok-injective}
use retoc.ZenConversion.{
  ZenDependencyGraphNode, eq_graph_node, ZenExportGraphNode, eq_graph_node_refl, eq_graph_node→eq,
}
use retoc.ZenConversion.Preload.{
  get_at, collect, export_dependencies, collect_all, plus_i32, rounds, build_nodes, dependencies_of,
  serialize_node, create_node, DependencyMap,
}
use retoc.Zen.PackageIndex.{FPackageIndex}
use retoc.Ser.Arrays.{All, All-append}
use retoc.LegacyAsset.Objects.{FObjectExport}
use retoc.ZenConversion.Preload.Nodes.{create_index, build_nodes-Step}

abbrev IsKind : EExportCommandType → Type 0
IsKind c = (c ≡ create_export) ⊎ (c ≡ serialize_export)

pub record IsKnown (raw : ZenDependencyGraphNode) : Type 0 where
  pub fits : InRange (2 ^ 31) raw.package_index.index
  pub kind : (raw.command_type ≡ create_export) ⊎ (raw.command_type ≡ serialize_export)

abbrev pub AreWords : List FPackageIndex → Type 0
AreWords preload = All (λ p. InRange (2 ^ 31) p.index) preload

abbrev FitsAt : Option FPackageIndex → Type 0
FitsAt none = Unit
FitsAt (some p) = InRange (2 ^ 31) p.index

get_elem?-word :
    (preload : List FPackageIndex) (n : ℕ) (p : FPackageIndex)
    → AreWords preload
    → get_elem? preload n ≡ some p
    → InRange (2 ^ 31) p.index
get_elem?-word [] n p h e = cc
get_elem?-word (q ∷ preload) zero p h e = subst (λ o. FitsAt o) e h.0
get_elem?-word (q ∷ preload) (suc n) p h e = get_elem?-word preload n p h.1 e

get_at-word :
    (preload : List FPackageIndex) (z : ℤ) (p : FPackageIndex)
    → AreWords preload
    → get_at preload z ≡ ok p
    → InRange (2 ^ 31) p.index
unfolding get_at
get_at-word preload (pos n) p h e = get_elem?-word preload n p h (unwrap-eq-ok e)
get_at-word preload (negsuc n) p h e = cc

module _ (preload : List FPackageIndex) (words : AreWords preload) where
  collect-IsKnown :
      (c : EExportCommandType)
      → IsKind c
      → (base : ℤ) (left i : ℕ) (ds : List ZenDependencyGraphNode)
      → collect preload c base left i ≡ ok ds
      → All IsKnown ds
  unfolding collect
  collect-IsKnown c kind base zero i ds h = subst (All IsKnown) (ok-injective h) tt
  collect-IsKnown c kind base (suc left) i ds h =
      let (p, got, h1) = bind-eq-ok (get_at preload (plus_i32 base (pos i))) _ h in
      let (others, rest, h2) = bind-eq-ok (collect preload c base left (suc i)) _ h1 in
      subst (All IsKnown) (ok-injective h2) (
        record { fits = get_at-word preload (plus_i32 base (pos i)) p words got; kind = kind },
        collect-IsKnown c kind base left (suc i) others rest,
      )

  abbrev BothKnown : List ZenDependencyGraphNode × List ZenDependencyGraphNode → Type 0
  BothKnown own = All IsKnown own.0 × All IsKnown own.1

  collect_all-IsKnown :
      (o : FObjectExport) (b0 b1 b2 b3 : ℤ)
      (own : List ZenDependencyGraphNode × List ZenDependencyGraphNode)
      → collect_all preload o b0 b1 b2 b3 ≡ ok own
      → BothKnown own
  unfolding collect_all
  collect_all-IsKnown o b0 b1 b2 b3 own h =
      let (a, ha, h1) =
        bind-eq-ok (collect preload create_export b3 (rounds o.create_before_create_dependencies) 0)
          _ h in
      let (b, hb, h2) =
        bind-eq-ok
          (collect preload serialize_export b2 (rounds o.serialize_before_create_dependencies) 0) _
          h1 in
      let (c, hc, h3) =
        bind-eq-ok
          (collect preload create_export b1 (rounds o.create_before_serialize_dependencies) 0) _
          h2 in
      let (d, hd, h4) =
        bind-eq-ok
          (collect preload serialize_export b0 (rounds o.serialize_before_serialize_dependencies) 0)
          _ h3 in
      subst BothKnown (ok-injective h4) (
        All-append IsKnown a b (collect-IsKnown create_export (inl refl) b3 _ 0 a ha)
            (collect-IsKnown serialize_export (inr refl) b2 _ 0 b hb),
        All-append IsKnown c d (collect-IsKnown create_export (inl refl) b1 _ 0 c hc)
            (collect-IsKnown serialize_export (inr refl) b0 _ 0 d hd),
      )

  export_dependencies-IsKnown :
      (o : FObjectExport) (own : List ZenDependencyGraphNode × List ZenDependencyGraphNode)
      → export_dependencies preload o ≡ ok own
      → BothKnown own
  unfolding export_dependencies
  export_dependencies-IsKnown o own h =
      elim (Bool-cases (eq_ℤ o.first_export_dependency_index (negsuc 0))) [
        | inl e ↦ subst BothKnown (ok-injective (rw e at h)) (tt, tt)
        | inr e ↦ collect_all-IsKnown o _ _ _ _ own (rw e at h)
      ]

create_node-IsKnown : (k : ℕ) → k < 2 ^ 31 - 1 → IsKnown (create_node k)
create_node-IsKnown k h = record { fits = rw (create_index k h) (omega arith); kind = inl refl }

abbrev pub contains_node : ZenDependencyGraphNode → List ZenDependencyGraphNode → Bool
contains_node raw [] = false
contains_node raw (d ∷ ds) = eq_graph_node raw d || contains_node raw ds

module _ (preload : List FPackageIndex) (words : AreWords preload)
    (export_map : List FExportMapEntry) where
  pub build_nodes-IsKnown :
      (k : ℕ) (exports : List FObjectExport) (nodes : List ZenExportGraphNode)
      (deps : DependencyMap)
      → k + length exports < 2 ^ 31
      → build_nodes preload export_map k exports ≡ ok (nodes, deps)
      → (n : ZenDependencyGraphNode) → All IsKnown (dependencies_of deps n)
  unfolding build_nodes dependencies_of
  build_nodes-IsKnown k [] nodes deps small h n =
      subst (λ ds. All IsKnown (dependencies_of ds n)) (ap (λ p. p.1) (ok-injective h)) tt
  build_nodes-IsKnown k (o ∷ os) nodes deps small h n =
      let s = build_nodes-Step preload export_map k o os nodes deps h in
      let own = export_dependencies-IsKnown preload words o s.own s.collected in
      subst (λ ds. All IsKnown (dependencies_of ds n)) (sym s.deps_are)
        (elim (Bool-cases (eq_graph_node n (create_node k))) [
          | inl e ↦ rw e own.0
          | inr e ↦ rw e (elim (Bool-cases (eq_graph_node n (serialize_node k))) [
            | inl f ↦ rw f (create_node-IsKnown k (omega arith), own.1)
            | inr f ↦
                rw f (build_nodes-IsKnown (suc k) os s.others.0 s.others.1 (omega arith) s.built n)
          ])
        ])

  differ_kind : (i k : ℕ) → eq_graph_node (serialize_node i) (create_node k) ≡ false
  unfolding eq_graph_node
  differ_kind i k = ground arith

  -- The serialization of an export depends on its creation.
  pub build_nodes-created :
      (k : ℕ) (exports : List FObjectExport) (nodes : List ZenExportGraphNode)
      (deps : DependencyMap)
      → build_nodes preload export_map k exports ≡ ok (nodes, deps)
      → (i : ℕ) → k ≤ i
      → i < k + length exports
      → contains_node (create_node i) (dependencies_of deps (serialize_node i)) ≡ true
  unfolding dependencies_of
  build_nodes-created k [] nodes deps h i low high = absurd (omega arith)
  build_nodes-created k (o ∷ os) nodes deps h i low high =
      let s = build_nodes-Step preload export_map k o os nodes deps h in
      subst (λ ds. contains_node (create_node i) (dependencies_of ds (serialize_node i)) ≡ true)
        (sym s.deps_are)
        (rw (differ_kind i k) (elim (Bool-cases (i == k)) [
          | inl e ↦
              let here : i ≡ k = ground (arith, e) in
              rw (here, eq_graph_node_refl (serialize_node k), eq_graph_node_refl (create_node k))
          | inr e ↦
              let left =
                build_nodes-created (suc k) os s.others.0 s.others.1 s.built i (ground (arith, e))
                  (omega arith) in
              elim (Bool-cases (eq_graph_node (serialize_node i) (serialize_node k))) [
                | inl f ↦
                    let same : create_node i ≡ create_node k =
                      ap
                        (λ n. record {
                          package_index = n.package_index;
                          command_type = create_export;
                        })
                        (eq_graph_node→eq (serialize_node i) (serialize_node k) f) in
                    rw (f, same, eq_graph_node_refl (create_node k))
                | inr f ↦ rw f left
              ]
        ]))
