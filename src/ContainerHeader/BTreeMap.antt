-- ===== src/ContainerHeader/BTreeMap.antt =====
-- The `BTreeMap`s of src/container_header.rs: pairs in the order of their keys, which `lt` decides.
use retoc.Prelude.{
  true, some, ◌∷◌, none, refl, inr, inl, false, [], Bool, ◌≡◌, List, ◌++◌, if◌then◌else◌,
  Bool-cases, Option, append-nil, append_assoc, subst, sym, ◌∙◌,
}
use retoc.Ser.Arrays.{All}

module _ {K V : Type 0} (lt : K → K → Bool) where
  unfoldable pub insert : K → V → List (K × V) → List (K × V)
  insert key value [] = (key, value) ∷ []
  insert key value ((k, v) ∷ m) =
      let rest = insert key value m in
      if lt k key
      then (k, v) ∷ rest
      else if lt key k
      then (key, value) ∷ (k, v) ∷ m
      else (key, value) ∷ m

  unfoldable pub get : K → List (K × V) → Option V
  get key [] = none
  get key ((k, v) ∷ m) =
      let rest = get key m in if lt k key then rest else if lt key k then none else some v

  -- Later pairs replace earlier ones.
  unfoldable pub insert_all : List (K × V) → List (K × V) → List (K × V)
  insert_all m [] = m
  insert_all m ((k, v) ∷ ps) = insert_all (insert k v m) ps

  unfoldable pub from_iter : List (K × V) → List (K × V)
  from_iter ps = insert_all [] ps

  abbrev pub Sorted : List (K × V) → Type 0
  Sorted [] = Unit
  Sorted (p ∷ ps) = All (λ q. lt p.0 q.0 ≡ true) ps × Sorted ps

module _ {K V : Type 0} (lt : K → K → Bool) where
  insert_last :
      (k : K) (v : V) (m : List (K × V))
      → All (λ q. lt q.0 k ≡ true) m
      → insert lt k v m ≡ m ++ (k, v) ∷ []
  unfolding insert
  insert_last k v [] h = refl
  insert_last k v ((j, w) ∷ m) h = rw (h.0, insert_last k v m h.1)

  all_middle :
      (P : K × V → Type 0) (xs : List (K × V)) (x : K × V) (ys : List (K × V))
      → All P (xs ++ x ∷ ys)
      → P x
  all_middle P [] x ys a = a.0
  all_middle P (y ∷ xs) x ys a = all_middle P xs x ys a.1

  all_before :
      (m : List (K × V)) (p : K × V) (ps : List (K × V))
      → Sorted lt (m ++ p ∷ ps)
      → All (λ q. lt q.0 p.0 ≡ true) m
  all_before [] p ps h = tt
  all_before (q ∷ m) p ps h =
      (all_middle (λ r. lt q.0 r.0 ≡ true) m p ps h.0, all_before m p ps h.1)

  insert_all-Sorted : (m ps : List (K × V)) → Sorted lt (m ++ ps) → insert_all lt m ps ≡ m ++ ps
  unfolding insert_all
  insert_all-Sorted m [] h = rw (append-nil m)
  insert_all-Sorted m (p ∷ ps) h =
      let assoc = append_assoc m (p ∷ []) ps in
      rw (insert_last p.0 p.1 m (all_before m p ps h))
        (insert_all-Sorted (m ++ p ∷ []) ps (subst (Sorted lt) (sym assoc) h) ∙ assoc)

  -- Pairs in the order of their keys make a map of the same pairs.
  pub from_iter-Sorted : (ps : List (K × V)) → Sorted lt ps → from_iter lt ps ≡ ps
  unfolding from_iter
  from_iter-Sorted ps h = insert_all-Sorted [] ps h

  pub get-insert :
      ((k : K) → lt k k ≡ false)
      → (k : K) (v : V) (m : List (K × V)) → get lt k (insert lt k v m) ≡ some v
  unfolding get insert
  get-insert irr k v [] = rw (irr k)
  get-insert irr k v ((j, w) ∷ m) = elim (Bool-cases (lt j k)) [
    | inl before ↦ rw (before, before) (get-insert irr k v m)
    | inr later ↦ elim (Bool-cases (lt k j)) [
      | inl after ↦ rw (later, after, irr k)
      | inr same ↦ rw (later, same, irr k)
    ]
  ]
