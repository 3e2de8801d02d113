-- ===== src/ZenConversion/LoadOrder/Counting.antt =====
-- How often a node stands in a list, and what orders of two lists follow from it.

use retoc.Prelude.{
  [], ◌∷◌, refl, inl, inr, List, ◌++◌, ◌<◌, ℕ, ◌≤◌, if◌then◌else◌, length, ◌≡◌, ◌+◌, arith,
  Bool-cases,
}
use retoc.ZenConversion.{ZenExportGraphNode, eq_node, eq_node_refl, eq_node→eq}

abbrev pub occurrences : ZenExportGraphNode → List ZenExportGraphNode → ℕ
occurrences x [] = 0
occurrences x (y ∷ ys) = (if eq_node x y then 1 else 0) + occurrences x ys

pub occurrences-append :
    (x : ZenExportGraphNode) (xs ys : List ZenExportGraphNode)
    → occurrences x (xs ++ ys) ≡ occurrences x xs + occurrences x ys
occurrences-append x [] ys = omega arith
occurrences-append x (y ∷ xs) ys = ground (arith, occurrences-append x xs ys)

erase : ZenExportGraphNode → List ZenExportGraphNode → List ZenExportGraphNode
erase x [] = []
erase x (y ∷ ys) = if eq_node x y then ys else y ∷ erase x ys

length-erase :
    (x : ZenExportGraphNode) (ys : List ZenExportGraphNode)
    → 0 < occurrences x ys
    → length (erase x ys) + 1 ≡ length ys
unfolding erase
length-erase x [] h = absurd (omega arith)
length-erase x (y ∷ ys) h = ground (arith, length-erase x ys)

occurrences-erase :
    (z x : ZenExportGraphNode) (ys : List ZenExportGraphNode)
    → 0 < occurrences x ys
    → occurrences z (erase x ys) + (if eq_node z x then 1 else 0) ≡ occurrences z ys
unfolding erase
occurrences-erase z x [] h = absurd (omega arith)
occurrences-erase z x (y ∷ ys) h = elim (Bool-cases (eq_node x y)) [
  | inl e ↦ rw (← eq_node→eq x y e) (rw (eq_node_refl x) (omega arith))
  | inr e ↦
      let rest : 0 < occurrences x ys = ground arith in
      rw e (omega (arith, occurrences-erase z x ys rest))
]

pub length-le :
    (xs ys : List ZenExportGraphNode)
    → ((x : ZenExportGraphNode) → occurrences x xs ≤ occurrences x ys)
    → length xs ≤ length ys
length-le [] ys h = omega arith
length-le (x ∷ xs) ys h =
    let some_x : 0 < occurrences x ys = ground (arith, h x, eq_node_refl x) in
    omega (
      arith,
      length-erase x ys some_x,
      length-le xs (erase x ys) (λ z. omega (arith, h z, occurrences-erase z x ys some_x)),
    )

-- Two lists of one length, where the second has each node as often as the first at least.
pub occurrences-eq :
    (xs ys : List ZenExportGraphNode)
    → ((x : ZenExportGraphNode) → occurrences x xs ≤ occurrences x ys)
    → length xs ≡ length ys
    → (x : ZenExportGraphNode) → occurrences x xs ≡ occurrences x ys
occurrences-eq [] [] h e x = refl
occurrences-eq [] (y ∷ ys) h e x = absurd (omega arith)
occurrences-eq (y ∷ xs) ys h e x =
    let some_y : 0 < occurrences y ys = ground (arith, h y, eq_node_refl y) in
    omega (
      arith,
      occurrences-erase x y ys some_y,
      occurrences-eq xs (erase y ys) (λ z. omega (arith, h z, occurrences-erase z y ys some_y))
          (omega (arith, length-erase y ys some_y)) x,
    )
