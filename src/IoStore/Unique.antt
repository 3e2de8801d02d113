-- ===== src/IoStore/Unique.antt =====
-- The items that `UniqueIterator` of src/iostore.rs returns, and the packages that it is used for.
use retoc.Prelude.{
  inl, inr, [], ◌∷◌, refl, false, true, ◌==◌, Bool, ◌≡◌, ◌||◌, List, Bool-cases, map, ==_iff, subst,
  sym,
}
use retoc.IoStore.{unique, contains, IoStoreBackend, PackageInfo}
use retoc.IoStore.Backend.{packages, packages_all}
use retoc.Ser.Arrays.{All, All-map}

-- No two of the items have keys that are the same.
abbrev pub Distinct : {A K : Type 0} → (K → K → Bool) → (A → K) → List A → Type 0
Distinct same key [] = Unit
Distinct same key (x ∷ xs) = All (λ y. same (key x) (key y) ≡ false) xs × Distinct same key xs

or_false : (a b : Bool) → (a || b) ≡ false → (a ≡ false) × (b ≡ false)
or_false false false h = (refl, refl)
or_false true b h = cc
or_false false true h = cc

or_move : (a b c : Bool) → ((a || b) || c) ≡ true → (b || (a || c)) ≡ true
or_move true true c h = refl
or_move true false c h = refl
or_move false true c h = refl
or_move false false c h = h

or_true : (a b : Bool) → a ≡ true → (a || b) ≡ true
or_true a b h = rw h

or_right : (a b : Bool) → b ≡ true → (a || b) ≡ true
or_right true b h = refl
or_right false b h = h

module _ {A K : Type 0} (same : K → K → Bool) (key : A → K) where
  unique-fresh :
      (encountered : List K) (xs : List A)
      → All (λ x. contains same key encountered (key x) ≡ false) (unique same key encountered xs)
  unfolding unique contains
  unique-fresh encountered [] = tt
  unique-fresh encountered (x ∷ xs) = elim (Bool-cases (contains same key encountered (key x))) [
    | inl seen ↦ rw seen (unique-fresh encountered xs)
    | inr fresh ↦ rw fresh (
      fresh,
      All-map _ _
          (λ y h. (or_false (same (key x) (key y)) (contains same key encountered (key y)) h).1)
          (unique same key (key x ∷ encountered) xs) (unique-fresh (key x ∷ encountered) xs),
    )
  ]

  pub unique-Distinct :
      (encountered : List K) (xs : List A) → Distinct same key (unique same key encountered xs)
  unfolding unique contains
  unique-Distinct encountered [] = tt
  unique-Distinct encountered (x ∷ xs) = elim (Bool-cases (contains same key encountered (key x))) [
    | inl seen ↦ rw seen (unique-Distinct encountered xs)
    | inr fresh ↦ rw fresh (
      All-map _ _
          (λ y h. (or_false (same (key x) (key y)) (contains same key encountered (key y)) h).0)
          (unique same key (key x ∷ encountered) xs) (unique-fresh (key x ∷ encountered) xs),
      unique-Distinct (key x ∷ encountered) xs,
    )
  ]

  unique_seen :
      (encountered : List K) (x : A) (xs : List A)
      → contains same key encountered (key x) ≡ true
      → unique same key encountered (x ∷ xs) ≡ unique same key encountered xs
  unfolding unique
  unique_seen encountered x xs seen = rw seen refl

  unique_new :
      (encountered : List K) (x : A) (xs : List A)
      → contains same key encountered (key x) ≡ false
      → unique same key encountered (x ∷ xs) ≡ x ∷ unique same key (key x ∷ encountered) xs
  unfolding unique
  unique_new encountered x xs fresh = rw fresh refl

  -- The key was encountered, or it is that of a returned item.
  abbrev Known : List K → List A → A → Type 0
  Known encountered out y =
      (contains same key encountered (key y) || contains same key (map key out) (key y)) ≡ true

  pub unique_complete :
      ((k : K) → same k k ≡ true)
      → (encountered : List K) (xs : List A)
      → All
          (λ x.
            (contains same key encountered (key x)
              || contains same key (map key (unique same key encountered xs)) (key x))
            ≡ true)
          xs
  unfolding contains
  unique_complete self_same encountered [] = tt
  unique_complete self_same encountered (x ∷ xs) =
      elim (Bool-cases (contains same key encountered (key x))) [
        | inl seen ↦
            subst (λ out. All (Known encountered out) (x ∷ xs))
              (sym (unique_seen encountered x xs seen))
              (or_true _ _ seen, unique_complete self_same encountered xs)
        | inr fresh ↦
            subst (λ out. All (Known encountered out) (x ∷ xs))
              (sym (unique_new encountered x xs fresh))
              (
                or_right (contains same key encountered (key x)) _
                    (or_true _ _ (self_same (key x))),
                All-map _ _
                    (λ y h.
                      or_move (same (key x) (key y)) (contains same key encountered (key y)) _ h)
                    xs (unique_complete self_same (key x ∷ encountered) xs),
              )
      ]

-- `packages_all` of a backend has the id of every package of every container, and has it once.
pub packages_all-Distinct :
    (self : IoStoreBackend)
    → Distinct ◌==◌ (λ p. p.id) (packages_all self)
      × All
          (λ p.
            contains ◌==◌ (λ (q : PackageInfo). q.id) (map (λ q. q.id) (packages_all self)) p.id
            ≡ true)
          (packages self)
unfolding packages_all packages contains
packages_all-Distinct self =
    let all = packages self in
    (
      unique-Distinct ◌==◌ (λ (p : PackageInfo). p.id) [] all,
      unique_complete ◌==◌ (λ (p : PackageInfo). p.id) (λ k. (==_iff k k).1 refl) [] all,
    )
