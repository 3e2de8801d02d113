-- ===== src/ZenConversion/Preload/Reverse.antt =====
-- The edges that `reverse_lookup` makes of the dependencies.
use retoc.ZenConversion.LoadOrder.Rounds.{keys, unmet}
use retoc.Prelude.{
  zero, some, suc, true, [], inl, ◌∷◌, inr, List, ℕ, ◌^◌, ◌≡◌, ◌<◌, length, get_elem?, subst,
  Bool-cases, arith, get_elem?-lt, sym, ap, ◌∙◌, ◌≤◌,
}
use retoc.Outcome.{ok, bind-eq-ok, unwrap-eq-ok, ok-injective}
use retoc.Prelude.Int.{negsuc, pos, ℤ, InRange, leb_ℤ, as_u32, wrap_i32, pred_ℤ, wrap_i32_small}
use retoc.Zen.PackageIndex.{to_export_index, FPackageIndex, is_export}
use retoc.Zen.Exports.{FExportMapEntry, is_public_export}
use retoc.ZenConversion.{
  ZenExportGraphNode, ZenDependencyGraphNode, eq_graph_node, eq_graph_node→eq,
}
use retoc.ZenConversion.Preload.{add_dependant, push_dependant}
use retoc.ZenConversion.LoadOrder.{Dependants, dependants_of}
use retoc.ZenConversion.Preload.Nodes.{IsNode}
use retoc.ZenConversion.LoadOrder.Counting.{occurrences}
use retoc.ZenConversion.Preload.Known.{IsKnown, contains_node}
use retoc.Ser.Arrays.{All}
use retoc.ZenConversion.Preload.Pushed.{
  push-distinct, push-keys, push-kept, push-edge, push-targets,
}
use native.Mathlib.Nat.{mod-eq_of_lt}
use retoc.Outcome

named_index :
    (z : ℤ) (i : ℕ)
    → InRange (2 ^ 31) z
    → Outcome.bind (Outcome.assert (leb_ℤ (pos 1) z)) (λ _. ok (as_u32 (wrap_i32 (pred_ℤ z))))
      ≡ ok i
    → z ≡ pos (suc i)
named_index (pos zero) i fits h = cc
named_index (pos (suc n)) i fits h =
    let read : as_u32 (wrap_i32 (pos n)) ≡ n =
      rw (wrap_i32_small (pos n) (omega arith), mod-eq_of_lt {n = n} {m = 2 ^ 32} (omega arith)) in
    let some_export : leb_ℤ (pos 1) (pos (suc n)) ≡ true = ground arith in
    ap (λ m. pos (suc m)) (sym read ∙ ok-injective (rw some_export at h))
named_index (negsuc n) i fits h = cc

to_export_index-named :
    (p : FPackageIndex) (i : ℕ)
    → InRange (2 ^ 31) p.index
    → to_export_index p ≡ ok i
    → p.index ≡ pos (suc i)
unfolding to_export_index
to_export_index-named p i fits h = named_index p.index i fits h

module _ (export_map : List FExportMapEntry) (nodes : List ZenExportGraphNode) where
  -- The dependants so far are edges between the nodes.
  pub record Edges (map : Dependants) : Type 0 where
    pub distinct : (x : ZenExportGraphNode) → occurrences x (keys map) ≤ 1
    pub known :
        (x : ZenExportGraphNode)
        → 0 < occurrences x (keys map)
        → IsNode export_map 0 (length export_map) x
    pub targets : (x : ZenExportGraphNode) → 0 < unmet [] map x → 0 < occurrences x nodes

  push-Edges :
      (map : Dependants) (key node : ZenExportGraphNode)
      → Edges map
      → IsNode export_map 0 (length export_map) key
      → 0 < occurrences node nodes
      → Edges (push_dependant map key node)
  push-Edges map key node e key_known node_known = record {
    distinct = λ x. push-distinct map key node x (e.distinct x);
    known = λ x h. elim (push-keys map key node x h) [
      | inl old ↦ e.known x old
      | inr same ↦ subst (IsNode export_map 0 (length export_map)) (sym same) key_known
    ];
    targets = λ x h. elim (push-targets map key node x h) [
      | inl old ↦ e.targets x old
      | inr same ↦ subst (λ y. 0 < occurrences y nodes) (sym same) node_known
    ];
  }

  -- A dependency on an export.
  record Added (dependant : ZenExportGraphNode) (raw : ZenDependencyGraphNode)
      (ds : List ZenDependencyGraphNode) (map after : Dependants) : Type 0 where
    place : ℕ
    entry : FExportMapEntry
    at : to_export_index raw.package_index ≡ ok place
    found : get_elem? export_map place ≡ some entry
    rest :
        add_dependant export_map dependant ds (
          push_dependant map
            (record { node = raw; is_public_export = is_public_export entry })
            dependant)
        ≡ ok after

  add_dependant-Added :
      (dependant : ZenExportGraphNode) (raw : ZenDependencyGraphNode)
      (ds : List ZenDependencyGraphNode) (map after : Dependants)
      → is_export raw.package_index ≡ true
      → add_dependant export_map dependant (raw ∷ ds) map ≡ ok after
      → Added dependant raw ds map after
  unfolding add_dependant
  add_dependant-Added dependant raw ds map after e h =
      let (place, at, h1) = bind-eq-ok (to_export_index raw.package_index) _ (rw e at h) in
      let (entry, found, h2) = bind-eq-ok (Outcome.unwrap (get_elem? export_map place)) _ h1 in
      record { place = place; entry = entry; at = at; found = unwrap-eq-ok found; rest = h2 }

  Added-IsNode :
      (dependant : ZenExportGraphNode) (raw : ZenDependencyGraphNode)
      (ds : List ZenDependencyGraphNode) (map after : Dependants)
      (a : Added dependant raw ds map after)
      → IsKnown raw
      → IsNode export_map 0
          (length export_map)
          (record { node = raw; is_public_export = is_public_export a.entry })
  Added-IsNode dependant raw ds map after a k = record {
    place = a.place;
    from_low = omega arith;
    below_high = get_elem?-lt export_map a.place a.entry a.found;
    index = to_export_index-named raw.package_index a.place k.fits a.at;
    kind = k.kind;
    public = rw a.found;
  }

  module _ (dependant : ZenExportGraphNode) where
    pub add_dependant-Edges :
        (ds : List ZenDependencyGraphNode) (map after : Dependants)
        → 0 < occurrences dependant nodes
        → All IsKnown ds
        → Edges map
        → add_dependant export_map dependant ds map ≡ ok after
        → Edges after
    unfolding add_dependant
    add_dependant-Edges [] map after some_d known e h = subst Edges (ok-injective h) e
    add_dependant-Edges (raw ∷ ds) map after some_d known e h =
        elim (Bool-cases (is_export raw.package_index)) [
          | inl b ↦
              let a = add_dependant-Added dependant raw ds map after b h in
              add_dependant-Edges ds _ after some_d known.1
                (push-Edges map _ dependant e (Added-IsNode dependant raw ds map after a known.0)
                  some_d)
                a.rest
          | inr b ↦ add_dependant-Edges ds map after some_d known.1 e (rw b at h)
        ]

    pub add_dependant-kept :
        (ds : List ZenDependencyGraphNode) (map after : Dependants) (x y : ZenExportGraphNode)
        → 0 < occurrences y (dependants_of map x)
        → add_dependant export_map dependant ds map ≡ ok after
        → 0 < occurrences y (dependants_of after x)
    unfolding add_dependant
    add_dependant-kept [] map after x y edge h =
        subst (λ m. 0 < occurrences y (dependants_of m x)) (ok-injective h) edge
    add_dependant-kept (raw ∷ ds) map after x y edge h =
        elim (Bool-cases (is_export raw.package_index)) [
          | inl b ↦
              let a = add_dependant-Added dependant raw ds map after b h in
              add_dependant-kept ds _ after x y (push-kept map _ dependant x y edge) a.rest
          | inr b ↦ add_dependant-kept ds map after x y edge (rw b at h)
        ]

    pub add_dependant-edge :
        (ds : List ZenDependencyGraphNode) (map after : Dependants) (raw : ZenDependencyGraphNode)
        → add_dependant export_map dependant ds map ≡ ok after
        → contains_node raw ds ≡ true
        → is_export raw.package_index ≡ true
        → (x : ZenExportGraphNode) × (x.node ≡ raw)
          × (0 < occurrences dependant (dependants_of after x))
    unfolding add_dependant
    add_dependant-edge [] map after raw h c b = cc
    add_dependant-edge (d ∷ ds) map after raw h c b = elim (Bool-cases (eq_graph_node raw d)) [
      | inl e ↦
          let same : raw ≡ d = eq_graph_node→eq raw d e in
          let a =
            add_dependant-Added dependant d ds map after
              (subst (λ n. is_export n.package_index ≡ true) same b) h in
          (
            record { node = d; is_public_export = is_public_export a.entry },
            sym same,
            add_dependant-kept ds _ after _ dependant (push-edge map _ dependant) a.rest,
          )
      | inr e ↦
          let left : contains_node raw ds ≡ true = ground (arith, c, e) in
          elim (Bool-cases (is_export d.package_index)) [
            | inl f ↦
                let a = add_dependant-Added dependant d ds map after f h in
                add_dependant-edge ds _ after raw a.rest left b
            | inr f ↦ add_dependant-edge ds map after raw (rw f at h) left b
          ]
    ]
