-- ===== src/ZenConversion/Preload/Pushed.antt =====
-- What `push_dependant` does to the keys, the targets and the edges of the dependants.

use retoc.Prelude.{
  [], inl, inr, ◌∷◌, ◌<◌, ◌≡◌, arith, ◌⊎◌, ◌+◌, ◌≤◌, Bool-cases, if◌then◌else◌, ◌==◌,
}
use retoc.ZenConversion.LoadOrder.{Dependants, dependants_of}
use retoc.ZenConversion.Preload.{push_dependant}
use retoc.ZenConversion.{ZenExportGraphNode, eq_node_refl, eq_node, eq_node→eq}
use retoc.ZenConversion.LoadOrder.Counting.{occurrences, occurrences-append}
use retoc.ZenConversion.LoadOrder.Rounds.{unmet, keys}

occurrences-keys_push :
    (map : Dependants) (key node x : ZenExportGraphNode)
    → occurrences x (keys (push_dependant map key node))
      ≡ occurrences x (keys map)
        + (if occurrences key (keys map) == 0 then (if eq_node x key then 1 else 0) else 0)
unfolding push_dependant
occurrences-keys_push [] key node x = ground arith
occurrences-keys_push ((k, nodes) ∷ map) key node x =
    ground (arith, occurrences-keys_push map key node x)

pub push-distinct :
    (map : Dependants) (key node x : ZenExportGraphNode)
    → occurrences x (keys map) ≤ 1
    → occurrences x (keys (push_dependant map key node)) ≤ 1
push-distinct map key node x h =
    ground (arith, occurrences-keys_push map key node x, eq_node→eq x key)

pub push-keys :
    (map : Dependants) (key node x : ZenExportGraphNode)
    → 0 < occurrences x (keys (push_dependant map key node))
    → (0 < occurrences x (keys map)) ⊎ (x ≡ key)
push-keys map key node x h = elim (Bool-cases (eq_node x key)) [
  | inl e ↦ inr (eq_node→eq x key e)
  | inr e ↦ inl (ground (arith, occurrences-keys_push map key node x, e))
]

unmet-push :
    (map : Dependants) (key node x : ZenExportGraphNode)
    → unmet [] (push_dependant map key node) x ≡ unmet [] map x + (if eq_node x node then 1 else 0)
unfolding push_dependant
unmet-push [] key node x = ground arith
unmet-push ((k, nodes) ∷ map) key node x =
    ground (arith, unmet-push map key node x, occurrences-append x nodes (node ∷ []))

pub push-targets :
    (map : Dependants) (key node x : ZenExportGraphNode)
    → 0 < unmet [] (push_dependant map key node) x
    → (0 < unmet [] map x) ⊎ (x ≡ node)
push-targets map key node x h = elim (Bool-cases (eq_node x node)) [
  | inl e ↦ inr (eq_node→eq x node e)
  | inr e ↦ inl (ground (arith, unmet-push map key node x, e))
]

pub push-kept :
    (map : Dependants) (key node a b : ZenExportGraphNode)
    → 0 < occurrences b (dependants_of map a)
    → 0 < occurrences b (dependants_of (push_dependant map key node) a)
unfolding push_dependant dependants_of
push-kept [] key node a b h = absurd (omega arith)
push-kept ((k, nodes) ∷ map) key node a b h =
    ground (arith, push-kept map key node a b, occurrences-append b nodes (node ∷ []))

pub push-edge :
    (map : Dependants) (key node : ZenExportGraphNode)
    → 0 < occurrences node (dependants_of (push_dependant map key node) key)
unfolding push_dependant dependants_of
push-edge [] key node = ground (arith, eq_node_refl key, eq_node_refl node)
push-edge ((k, nodes) ∷ map) key node =
    ground
      (arith, push-edge map key node, occurrences-append node nodes (node ∷ []), eq_node_refl node)
