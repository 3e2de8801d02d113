-- ===== src/ShaderLibrary/Groups.antt =====
-- The grouping of shaders in `build_io_store_shader_code_archive_header` of src/shader_library.rs.
-- `sort_by` is a stable sort.
pub mod Kept
use retoc.Outcome
use retoc.Prelude.{
  true, suc, [], ◌∷◌, zero, ℕ, List, if◌then◌else◌, ◌++◌, Bool, not, get_or, min, ◌+◌, ◌==◌, ltb,
  is_empty, ◌/◌, map, ◌&&◌, list_eq, length, ◌||◌, leb, replicate,
}
use retoc.Outcome.{ok, Outcome, panicked}
use retoc.ShaderLibrary.Records.{FShaderCodeEntry}

-- `maps` gives the shader maps that reference a shader. `last` are those of the current group.
unfoldable pub streaks : (ℕ → List ℕ) → List ℕ → List ℕ → List ℕ → List (List ℕ)
streaks maps current last [] = if is_empty current then [] else current ∷ []
streaks maps current last (shader ∷ shaders) =
    let begin = streaks maps (shader ∷ []) (maps shader) shaders in
    let extend = streaks maps (current ++ shader ∷ []) last shaders in
    if is_empty current
    then begin
    else if not (list_eq last (maps shader))
    then current ∷ begin
    else extend

-- RayGen, RayMiss, RayHitGroup and RayCallable
unfoldable pub is_raytracing_shader_frequency : ℕ → Bool
is_raytracing_shader_frequency frequency =
    (frequency == 6 || frequency == 7) || (frequency == 8 || frequency == 9)

unfoldable pub choose : (ℕ → Bool) → List ℕ → List ℕ
choose p [] = []
choose p (shader ∷ shaders) = if p shader then shader ∷ choose p shaders else choose p shaders

unfoldable pub total : (ℕ → ℕ) → List ℕ → ℕ
total size [] = 0
total size (shader ∷ shaders) = size shader + total size shaders

-- The place in a sorted list, behind the items that are not above.
unfoldable pub insert_by : (ℕ → ℕ → Bool) → ℕ → List ℕ → List ℕ
insert_by below shader [] = shader ∷ []
insert_by below shader (s ∷ sorted) =
    let behind = insert_by below shader sorted in
    if below s shader then s ∷ behind else shader ∷ s ∷ sorted

unfoldable pub sort_by : (ℕ → ℕ → Bool) → List ℕ → List ℕ
sort_by below [] = []
sort_by below (shader ∷ shaders) = insert_by below shader (sort_by below shaders)

-- `sort_shaders_ascending(a, b) == Less`
unfoldable pub ascending : FShaderCodeEntry → FShaderCodeEntry → Bool
ascending a b =
    ltb a.uncompressed_size b.uncompressed_size
    || (a.uncompressed_size == b.uncompressed_size
        && (ltb a.size b.size
            || (a.size == b.size
                && (ltb a.frequency b.frequency
                    || (a.frequency == b.frequency && ltb a.offset b.offset)))))

-- The index of the first smallest group; the groups stand with their sizes.
unfoldable pub smallest : ℕ → ℕ → ℕ → List (List ℕ × ℕ) → ℕ
smallest best best_size index [] = best
smallest best best_size index ((_, size) ∷ groups) =
    let better = smallest index size (suc index) groups in
    let same = smallest best best_size (suc index) groups in
    if ltb size best_size then better else same

unfoldable pub smallest_group : List (List ℕ × ℕ) → ℕ
smallest_group [] = 0
smallest_group ((_, size) ∷ groups) = smallest 0 size 1 groups

unfoldable pub add_to : List (List ℕ × ℕ) → ℕ → ℕ → ℕ → List (List ℕ × ℕ)
add_to [] index shader size = []
add_to ((group, total) ∷ groups) zero shader size = (group ++ shader ∷ [], total + size) ∷ groups
add_to (group ∷ groups) (suc index) shader size = group ∷ add_to groups index shader size

unfoldable pub distribute : (ℕ → ℕ) → List ℕ → List (List ℕ × ℕ) → List (List ℕ × ℕ)
distribute size [] groups = groups
distribute size (shader ∷ shaders) groups =
    distribute size shaders (add_to groups (smallest_group groups) shader (size shader))

-- `flat_map`
unfoldable pub flat_map : (List ℕ → List (List ℕ)) → List (List ℕ) → List (List ℕ)
flat_map f [] = []
flat_map f (group ∷ groups) = f group ++ flat_map f groups

-- `/` of a `usize`, which panics on 0
unfoldable pub divide : ℕ → ℕ → Outcome ℕ
divide n m = if m == 0 then panicked else ok (n / m)

abbrev no_entry : FShaderCodeEntry
no_entry = record { offset = 0; size = 0; uncompressed_size = 0; frequency = 0 }

module _ (entries : List FShaderCodeEntry) where
  -- `shader_entries[shader]`, for the shaders that `group_shaders` admits
  abbrev pub entry_of : ℕ → FShaderCodeEntry
  entry_of shader = get_or entries shader no_entry

  unfoldable pub split_raytracing : List ℕ → List (List ℕ)
  split_raytracing group =
      let raytracing = choose (λ s. is_raytracing_shader_frequency (entry_of s).frequency) group in
      let others =
        choose (λ s. not (is_raytracing_shader_frequency (entry_of s).frequency)) group in
      if not (is_empty others) && not (is_empty raytracing)
      then others ∷ raytracing ∷ []
      else group ∷ []

  -- The group, in so many new ones.
  unfoldable pub split_in : List ℕ → ℕ → List (List ℕ)
  split_in group num_new_groups =
      map (λ g. g.0)
        (distribute (λ s. (entry_of s).uncompressed_size)
          (sort_by (λ a b. ascending (entry_of b) (entry_of a)) group)
          (replicate num_new_groups ([], 0)))

  unfoldable pub split_by_size : ℕ → List ℕ → Outcome (List (List ℕ))
  split_by_size max_size group =
      let group_size = total (λ s. (entry_of s).uncompressed_size) group in
      let split =
        Outcome.bind (divide group_size max_size)
          (λ quotient. ok (split_in group (min (quotient + 1) (length group)))) in
      if leb group_size max_size || (length group == 1) then ok (group ∷ []) else split

  -- `flat_map`
  unfoldable pub split_all : ℕ → List (List ℕ) → Outcome (List (List ℕ))
  split_all max_size [] = ok []
  split_all max_size (group ∷ groups) =
      Outcome.bind (split_by_size max_size group)
        λ split. Outcome.bind (split_all max_size groups) λ others. ok (split ++ others)

  unfoldable pub in_range : List ℕ → Bool
  in_range [] = true
  in_range (shader ∷ shaders) = ltb shader (length entries) && in_range shaders

  -- The groups of the shaders in their order. The size of each group is computed, so that a shader
  -- without an entry panics.
  unfoldable pub group_shaders : (ℕ → List ℕ) → Bool → ℕ → List ℕ → Outcome (List (List ℕ))
  group_shaders maps separate_raytracing max_size shaders =
      let streaked = streaks maps [] [] shaders in
      let separated =
        if separate_raytracing then flat_map split_raytracing streaked else streaked in
      Outcome.bind (Outcome.assert (in_range shaders)) λ _.
        Outcome.bind (split_all max_size separated)
          λ split. ok (map (sort_by (λ a b. ascending (entry_of a) (entry_of b))) split)
