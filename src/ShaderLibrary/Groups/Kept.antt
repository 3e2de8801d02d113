-- ===== src/ShaderLibrary/Groups/Kept.antt =====
-- How often a shader stands in the groups, at each step of the grouping.

use retoc.Outcome.{ok}
use retoc.Prelude.{
  suc, ◌∷◌, zero, refl, [], ℕ, replicate, Bool, List, ◌≡◌, map, length, if◌then◌else◌, ◌++◌, ◌+◌,
  ◌<◌, arith, ◌==◌, not, inl, true, inr, min, Bool-cases, ◌/◌, length-replicate, leb, ◌||◌,
}
use retoc.ShaderLibrary.Groups.{
  smallest_group, smallest, add_to, choose, distribute, sort_by, insert_by, streaks, flat_map,
  split_by_size, group_shaders, split_raytracing, is_raytracing_shader_frequency, entry_of, total,
  in_range, ascending, divide, split_all, split_in,
}
use retoc.ShaderLibrary.Records.{FShaderCodeEntry}

abbrev pub count : ℕ → List ℕ → ℕ
count n [] = 0
count n (x ∷ xs) = (if n == x then 1 else 0) + count n xs

-- How often a shader stands in the groups.
abbrev pub count_groups : ℕ → List (List ℕ) → ℕ
count_groups n [] = 0
count_groups n (group ∷ groups) = count n group + count_groups n groups

module _ (n : ℕ) where
  count-append : (xs ys : List ℕ) → count n (xs ++ ys) ≡ count n xs + count n ys
  count-append [] ys = omega arith
  count-append (x ∷ xs) ys = omega (arith, count-append xs ys)

  count_groups-append :
      (xs ys : List (List ℕ)) → count_groups n (xs ++ ys) ≡ count_groups n xs + count_groups n ys
  count_groups-append [] ys = omega arith
  count_groups-append (x ∷ xs) ys = omega (arith, count_groups-append xs ys)

  count-streaks :
      (maps : ℕ → List ℕ) (current last shaders : List ℕ)
      → count_groups n (streaks maps current last shaders) ≡ count n current + count n shaders
  unfolding streaks
  count-streaks maps [] last [] = omega arith
  count-streaks maps (c ∷ current) last [] = omega arith
  count-streaks maps [] last (shader ∷ shaders) =
      omega (arith, count-streaks maps (shader ∷ []) (maps shader) shaders)
  count-streaks maps (c ∷ current) last (shader ∷ shaders) = ground (
    arith,
    count-streaks maps (shader ∷ []) (maps shader) shaders,
    count-streaks maps ((c ∷ current) ++ shader ∷ []) last shaders,
    count-append current (shader ∷ []),
  )

  count-choose :
      (p : ℕ → Bool) (shaders : List ℕ)
      → count n (choose p shaders) + count n (choose (λ s. not (p s)) shaders) ≡ count n shaders
  unfolding choose
  count-choose p [] = omega arith
  count-choose p (shader ∷ shaders) = ground (arith, count-choose p shaders)

  count-insert_by :
      (below : ℕ → ℕ → Bool) (shader : ℕ) (sorted : List ℕ)
      → count n (insert_by below shader sorted) ≡ count n (shader ∷ sorted)
  unfolding insert_by
  count-insert_by below shader [] = refl
  count-insert_by below shader (s ∷ sorted) = ground (arith, count-insert_by below shader sorted)

  count-sort_by :
      (below : ℕ → ℕ → Bool) (shaders : List ℕ) → count n (sort_by below shaders) ≡ count n shaders
  unfolding sort_by
  count-sort_by below [] = refl
  count-sort_by below (shader ∷ shaders) =
      omega
        (arith, count-insert_by below shader (sort_by below shaders), count-sort_by below shaders)

  count-map_sort :
      (below : ℕ → ℕ → Bool) (groups : List (List ℕ))
      → count_groups n (map (sort_by below) groups) ≡ count_groups n groups
  count-map_sort below [] = refl
  count-map_sort below (group ∷ groups) =
      omega (arith, count-sort_by below group, count-map_sort below groups)

  abbrev count_sized : List (List ℕ × ℕ) → ℕ
  count_sized groups = count_groups n (map (λ g. g.0) groups)

  count-add_to :
      (groups : List (List ℕ × ℕ)) (index shader size : ℕ)
      → index < length groups
      → count_sized (add_to groups index shader size) ≡ count n (shader ∷ []) + count_sized groups
  unfolding add_to
  count-add_to [] index shader size h = absurd (omega arith)
  count-add_to ((group, total) ∷ groups) zero shader size h =
      omega (arith, count-append group (shader ∷ []))
  count-add_to ((group, total) ∷ groups) (suc index) shader size h =
      omega (arith, count-add_to groups index shader size)

length-add_to :
    (groups : List (List ℕ × ℕ)) (index shader size : ℕ)
    → length (add_to groups index shader size) ≡ length groups
unfolding add_to
length-add_to [] index shader size = refl
length-add_to ((group, total) ∷ groups) zero shader size = refl
length-add_to ((group, total) ∷ groups) (suc index) shader size =
    omega (arith, length-add_to groups index shader size)

smallest_lt :
    (best best_size index : ℕ) (groups : List (List ℕ × ℕ))
    → best < index
    → smallest best best_size index groups < index + length groups
unfolding smallest
smallest_lt best best_size index [] h = omega arith
smallest_lt best best_size index ((group, size) ∷ groups) h = ground (
  arith,
  smallest_lt index size (suc index) groups,
  smallest_lt best best_size (suc index) groups,
)

smallest_group_lt :
    (groups : List (List ℕ × ℕ)) → 0 < length groups → smallest_group groups < length groups
unfolding smallest_group
smallest_group_lt [] h = h
smallest_group_lt ((group, size) ∷ groups) h = omega (arith, smallest_lt 0 size 1 groups)

module _ (n : ℕ) where
  count-distribute :
      (size : ℕ → ℕ) (shaders : List ℕ) (groups : List (List ℕ × ℕ))
      → 0 < length groups
      → count_sized n (distribute size shaders groups) ≡ count n shaders + count_sized n groups
  unfolding distribute
  count-distribute size [] groups h = omega arith
  count-distribute size (shader ∷ shaders) groups h =
      let i = smallest_group groups in
      omega (
        arith,
        count-distribute size shaders (add_to groups i shader (size shader))
            (omega (arith, length-add_to groups i shader (size shader))),
        count-add_to n groups i shader (size shader) (smallest_group_lt groups h),
      )

  count-replicate : (k : ℕ) → count_sized n (replicate k ([], 0)) ≡ 0
  count-replicate zero = refl
  count-replicate (suc k) = omega (arith, count-replicate k)

  module _ (entries : List FShaderCodeEntry) where
    count-split_in :
        (group : List ℕ) (k : ℕ) → 0 < k → count_groups n (split_in entries group k) ≡ count n group
    unfolding split_in
    count-split_in group k some_groups =
        let size = λ (s : ℕ). (entry_of entries s).uncompressed_size in
        let below = λ (a b : ℕ). ascending (entry_of entries b) (entry_of entries a) in
        omega (
          arith,
          count-distribute size (sort_by below group) (replicate k ([], 0))
              (omega (arith, length-replicate {A = List ℕ × ℕ} k ([], 0))),
          count-sort_by n below group,
          count-replicate k,
        )

    divide-ok : (a b : ℕ) → 0 < b → divide a b ≡ ok (a / b)
    unfolding divide
    divide-ok a b h = ground arith

    count-split_by_size :
        (max_size : ℕ) (group : List ℕ)
        → 0 < max_size
        → (groups : List (List ℕ)) × (split_by_size entries max_size group ≡ ok groups)
          × (count_groups n groups ≡ count n group)
    unfolding split_by_size total
    count-split_by_size max_size [] h = ([] ∷ [], ground arith, refl)
    count-split_by_size max_size (g ∷ group) h =
        let size = total (λ s. (entry_of entries s).uncompressed_size) (g ∷ group) in
        let k = min (size / max_size + 1) (length (g ∷ group)) in
        elim (Bool-cases (leb size max_size || (length (g ∷ group) == 1))) [
          | inl e ↦ ((g ∷ group) ∷ [], rw e, omega arith)
          | inr e ↦ (
            split_in entries (g ∷ group) k,
            rw (e, divide-ok size max_size h),
            count-split_in (g ∷ group) k (omega arith),
          )
        ]

    count-split_all :
        (max_size : ℕ) (groups : List (List ℕ))
        → 0 < max_size
        → (split : List (List ℕ)) × (split_all entries max_size groups ≡ ok split)
          × (count_groups n split ≡ count_groups n groups)
    unfolding split_all
    count-split_all max_size [] h = ([], refl, refl)
    count-split_all max_size (group ∷ groups) h =
        let (first, first_split, as_first) = count-split_by_size max_size group h in
        let (others, others_split, as_others) = count-split_all max_size groups h in
        (
          first ++ others,
          rw (first_split, others_split),
          omega (arith, count_groups-append n first others, as_first, as_others),
        )

    count-split_raytracing :
        (group : List ℕ) → count_groups n (split_raytracing entries group) ≡ count n group
    unfolding split_raytracing
    count-split_raytracing group = ground (
      arith,
      count-choose n (λ s. is_raytracing_shader_frequency (entry_of entries s).frequency) group,
    )

    count-flat_map :
        (f : List ℕ → List (List ℕ)) (groups : List (List ℕ))
        → ((group : List ℕ) → count_groups n (f group) ≡ count n group)
        → count_groups n (flat_map f groups) ≡ count_groups n groups
    unfolding flat_map
    count-flat_map f [] h = refl
    count-flat_map f (group ∷ groups) h = omega (
      arith,
      count_groups-append n (f group) (flat_map f groups),
      h group,
      count-flat_map f groups h,
    )

    -- Where each shader has an entry and the size limit is not 0, there are groups, which hold each
    -- shader as often as the sorted list that they are made of.
    pub group_shaders-count :
        (maps : ℕ → List ℕ) (separate_raytracing : Bool) (max_size : ℕ) (shaders : List ℕ)
        → in_range entries shaders ≡ true
        → 0 < max_size
        → (groups : List (List ℕ)) × (group_shaders entries maps separate_raytracing max_size
              shaders
            ≡ ok groups)
          × (count_groups n groups ≡ count n shaders)
    unfolding group_shaders
    group_shaders-count maps separate_raytracing max_size shaders fit some_size =
        let streaked = streaks maps [] [] shaders in
        let separated =
          if separate_raytracing then flat_map (split_raytracing entries) streaked else streaked in
        let below = λ (a b : ℕ). ascending (entry_of entries a) (entry_of entries b) in
        let as_often : count_groups n separated ≡ count_groups n streaked =
          elim (Bool-cases separate_raytracing) [
            | inl e ↦
                rw e (count-flat_map (split_raytracing entries) streaked count-split_raytracing)
            | inr e ↦ rw e
          ] in
        let (split, splits, as_split) = count-split_all max_size separated some_size in
        (
          map (sort_by below) split,
          rw (fit, splits),
          omega (
            arith,
            count-map_sort n below split,
            as_split,
            as_often,
            count-streaks n maps [] [] shaders,
          ),
        )
