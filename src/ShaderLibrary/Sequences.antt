-- ===== src/ShaderLibrary/Sequences.antt =====
-- `find_or_add_sequence_in_shader_indices` of src/shader_library.rs, on the shader indices of the
-- header.
use retoc.Outcome
use retoc.Outcome.{ok, panicked, Outcome}
use retoc.Prelude.{
  ◌∷◌, refl, inr, zero, some, none, true, [], inl, suc, List, ℕ, Option, ◌≡◌, ◌+◌, Bool, ◌^◌, ◌==◌,
  ◌++◌, length, if◌then◌else◌, ◌≤◌, ◌-◌, arith, map, ◌&&◌, take, Bool-cases, ◌%◌, drop, ◌<◌,
  drop-length, take-eq_self, take-length, subst, ap, ◌∙◌,
}
use retoc.Ser.Arrays.{All}
use native.Mathlib.Nat.{mod-eq_of_lt}

-- The indices after the first, as far as both lists go.
unfoldable pub zip_all : List ℕ → List ℕ → Bool
zip_all [] ys = true
zip_all (x ∷ xs) [] = true
zip_all (x ∷ xs) (y ∷ ys) = x == y && zip_all xs ys

-- The loop over the places from `place` on, for the rounds that are left; `behind` are the indices
-- from there on.
unfoldable pub find_sequence : ℕ → List ℕ → ℕ → List ℕ → ℕ → Outcome (Option ℕ)
find_sequence first others zero behind place = ok none
find_sequence first others (suc left) [] place = panicked
find_sequence first others (suc left) (y ∷ behind) place =
    let next = find_sequence first others left behind (suc place) in
    if y == first && zip_all others behind then ok (some place) else next

-- `len() - indices.len() + 1` in a `usize`
abbrev pub places : ℕ → ℕ → ℕ
places len count = (len + 2 ^ 64 - count + 1) % 2 ^ 64

-- The new shader indices, and where the sequence stands in them.
abbrev add_if_missing : List ℕ → List ℕ → Option ℕ → List ℕ × ℕ
add_if_missing shader_indices indices (some place) = (shader_indices, place)
add_if_missing shader_indices indices none =
    (shader_indices ++ map (λ i. i % 2 ^ 32) indices, length shader_indices)

unfoldable pub find_or_add_sequence_in_shader_indices : List ℕ → List ℕ → Outcome (List ℕ × ℕ)
find_or_add_sequence_in_shader_indices shader_indices [] = panicked
find_or_add_sequence_in_shader_indices shader_indices (first ∷ others) =
    Outcome.bind
      (find_sequence first others (places (length shader_indices) (length (first ∷ others)))
        shader_indices 0)
      λ found. ok (add_if_missing shader_indices (first ∷ others) found)

zip_all-take :
    (xs ys : List ℕ) → zip_all xs ys ≡ true → length xs ≤ length ys → take (length xs) ys ≡ xs
unfolding zip_all
zip_all-take [] ys h e = refl
zip_all-take (x ∷ xs) [] h e = absurd (omega arith)
zip_all-take (x ∷ xs) (y ∷ ys) h e = ground (arith, zip_all-take xs ys)

-- A place that is found has the sequence.
abbrev Found : ℕ → List ℕ → List ℕ → ℕ → Option ℕ → Type 0
Found first others behind place none = Unit
Found first others behind place (some found) =
    (place ≤ found) × (take (suc (length others)) (drop (found - place) behind) ≡ first ∷ others)

Found-cons :
    (first : ℕ) (others : List ℕ) (y : ℕ) (behind : List ℕ) (place : ℕ) (found : Option ℕ)
    → Found first others behind (suc place) found
    → Found first others (y ∷ behind) place found
Found-cons first others y behind place none k = tt
Found-cons first others y behind place (some n) k =
    let e : n - place ≡ suc (n - suc place) = omega (arith, k.0) in (omega (arith, k.0), rw e k.1)

find_sequence-Found :
    (first : ℕ) (others : List ℕ) (left : ℕ) (behind : List ℕ) (place : ℕ)
    → left + length others ≤ length behind
    → (found : Option ℕ) × (find_sequence first others left behind place ≡ ok found)
      × Found first others behind place found
unfolding find_sequence
find_sequence-Found first others zero behind place h = (none, refl, tt)
find_sequence-Found first others (suc left) [] place h = absurd (omega arith)
find_sequence-Found first others (suc left) (y ∷ behind) place h =
    elim (Bool-cases (y == first && zip_all others behind)) [
      | inl e ↦
          let zipped : zip_all others behind ≡ true = ground (arith, e) in
          let same : y ≡ first = ground (arith, e) in
          let stays : place - place ≡ 0 = omega arith in
          (
            some place,
            rw e,
            (omega arith, rw (stays, same, zip_all-take others behind zipped (omega arith))),
          )
      | inr e ↦
          let (found, returned, k) =
            find_sequence-Found first others left behind (suc place) (omega arith) in
          (found, rw e returned, Found-cons first others y behind place found k)
    ]

map-mod : (xs : List ℕ) → All (λ x. x < 2 ^ 32) xs → map (λ i. i % 2 ^ 32) xs ≡ xs
map-mod [] h = refl
map-mod (x ∷ xs) h = rw (mod-eq_of_lt {n = x} {m = 2 ^ 32} h.0, map-mod xs h.1)

-- What a place in the new indices is good for.
abbrev Holds : List ℕ → List ℕ → List ℕ × ℕ → Type 0
Holds shader_indices indices result =
    (take (length indices) (drop result.1 result.0) ≡ indices)
    × (take (length shader_indices) result.0 ≡ shader_indices)

add_if_missing-Holds :
    (shader_indices : List ℕ) (first : ℕ) (others : List ℕ) (found : Option ℕ)
    → All (λ x. x < 2 ^ 32) (first ∷ others)
    → Found first others shader_indices 0 found
    → Holds shader_indices (first ∷ others) (add_if_missing shader_indices (first ∷ others) found)
add_if_missing-Holds shader_indices first others none fit k =
    let same = map-mod (first ∷ others) fit in
    (
      ap (take (length (first ∷ others)))
            (drop-length shader_indices (map (λ i. i % 2 ^ 32) (first ∷ others)) ∙ same)
          ∙ take-eq_self (first ∷ others) (length (first ∷ others)) (omega arith),
      take-length shader_indices (map (λ i. i % 2 ^ 32) (first ∷ others)),
    )
add_if_missing-Holds shader_indices first others (some n) fit k = (
  subst (λ m. take (length (first ∷ others)) (drop m shader_indices) ≡ first ∷ others) (omega arith)
      k.1,
  take-eq_self shader_indices (length shader_indices) (omega arith),
)

-- For a sequence that is not empty, not longer than the shader indices, and of indices of 32 bits,
-- and for fewer than 2 ^ 63 shader indices: the place that is returned has the sequence, in indices
-- that begin with the old ones.
pub find_or_add_sequence_lem :
    (shader_indices : List ℕ) (first : ℕ) (others : List ℕ)
    → length (first ∷ others) ≤ length shader_indices
    → length shader_indices < 2 ^ 63
    → All (λ x. x < 2 ^ 32) (first ∷ others)
    → (result : List ℕ × ℕ) × (find_or_add_sequence_in_shader_indices shader_indices
          (first ∷ others)
        ≡ ok result)
      × (take (length (first ∷ others)) (drop result.1 result.0) ≡ first ∷ others)
      × (take (length shader_indices) result.0 ≡ shader_indices)
unfolding find_or_add_sequence_in_shader_indices
find_or_add_sequence_lem shader_indices first others short small fit =
    let (found, returned, k) =
      find_sequence-Found first others (places (length shader_indices) (length (first ∷ others)))
        shader_indices 0 (omega arith) in
    let held = add_if_missing-Holds shader_indices first others found fit k in
    (add_if_missing shader_indices (first ∷ others) found, rw returned, held.0, held.1)
