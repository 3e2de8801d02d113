-- ===== src/IoStore/Priority.antt =====
-- The order of containers of src/iostore.rs: `global` first, then patches by their number, then
-- names.
use retoc.Prelude.{
  take, drop, length, ℕ, some, ◌∷◌, none, [], Bool, if◌then◌else◌, list_eq, not, ◌+◌, ◌&&◌, codes,
  ◌==◌, ◌||◌, ◌%◌, ◌-◌, ◌^◌, ltb, false, inr, true, refl, inl, ◌≡◌, Bool-cases, arith,
}
use mathlib.Core.List.{List, Perm}
use retoc.Ser.Utf.{Text}
use mathlib.Core.Option.{Option}
use retoc.NameMap.Numbers.{rsplit_once, parse_magnitude}
use retoc.ContainerHeader.Records.{text_lt}
use retoc.Ser.Arrays.{All, All-map}
use mathlib.Core.List.Perm

-- `parse::<u32>`: digits after an optional `+`.
unfoldable pub parse_u32 : Text → Option ℕ
parse_u32 [] = none
parse_u32 (c ∷ s) =
    if c == 43 then parse_magnitude (2 ^ 32 - 1) s else parse_magnitude (2 ^ 32 - 1) (c ∷ s)

-- `strip_suffix("_P")`
unfoldable pub strip_patch : Text → Option Text
strip_patch name =
    let keep = length name - 2 in
    if list_eq (drop keep name) (codes "_P") then some (take keep name) else none

-- The name and the version of a patch, from the name without its suffix.
unfoldable pub patch_version : Text → Option (Text × Text) → Text × ℕ
patch_version base_name none = (base_name, 1)
patch_version base_name (some (name, version)) = elim (parse_u32 version) [
  | some n ↦ (name, (n + 2) % 2 ^ 32)
  | none ↦ (base_name, 1)
]

unfoldable pub version_of : Text → Option Text → Text × ℕ
version_of full_name none = (full_name, 0)
version_of full_name (some base_name) = patch_version base_name (rsplit_once 95 base_name)

pub record Priority : Type 0 where
  pub is_global : Bool
  pub chunk_version : ℕ
  pub base_name : Text

unfoldable pub sort_container_name : Text → Priority
sort_container_name full_name =
    let (base_name, chunk_version) = version_of full_name (strip_patch full_name) in
    record {
      is_global = list_eq full_name (codes "global");
      chunk_version = chunk_version;
      base_name = base_name;
    }

-- The order of the triples, lexicographic; `false` is below `true`.
unfoldable pub lower : Priority → Priority → Bool
lower a b =
    (not a.is_global && b.is_global)
    || (not (a.is_global && not b.is_global)
        && (ltb a.chunk_version b.chunk_version
            || (a.chunk_version == b.chunk_version && text_lt a.base_name b.base_name)))

-- `sort_by` with the arguments swapped: a stable sort, the highest first.
unfoldable pub place : {A : Type 0} → (A → Priority) → A → List A → List A
place key x [] = x ∷ []
place key x (y ∷ ys) =
    let rest = y ∷ place key x ys in if lower (key x) (key y) then rest else x ∷ y ∷ ys

unfoldable pub sort_by : {A : Type 0} → (A → Priority) → List A → List A
sort_by key [] = []
sort_by key (x ∷ xs) = place key x (sort_by key xs)

text_lt_trans : (a b c : Text) → text_lt a b ≡ false → text_lt b c ≡ false → text_lt a c ≡ false
unfolding text_lt
text_lt_trans [] [] c h k = k
text_lt_trans [] (y ∷ b) c h k = cc
text_lt_trans (x ∷ a) [] [] h k = refl
text_lt_trans (x ∷ a) [] (z ∷ c) h k = cc
text_lt_trans (x ∷ a) (y ∷ b) [] h k = refl
text_lt_trans (x ∷ a) (y ∷ b) (z ∷ c) h k = ground (arith, text_lt_trans a b c)

lower_trans : (a b c : Priority) → lower a b ≡ false → lower b c ≡ false → lower a c ≡ false
unfolding lower
lower_trans a b c h k = ground (arith, text_lt_trans a.base_name b.base_name c.base_name)

text_lt_asym : (a b : Text) → text_lt a b ≡ true → text_lt b a ≡ false
unfolding text_lt
text_lt_asym [] [] h = refl
text_lt_asym [] (y ∷ b) h = refl
text_lt_asym (x ∷ a) [] h = cc
text_lt_asym (x ∷ a) (y ∷ b) h = ground (arith, text_lt_asym a b)

lower_asym : (a b : Priority) → lower a b ≡ true → lower b a ≡ false
unfolding lower
lower_asym a b h = ground (arith, text_lt_asym a.base_name b.base_name)

-- No later element is above an earlier one.
abbrev pub Descending : {A : Type 0} → (A → Priority) → List A → Type 0
Descending key [] = Unit
Descending key (x ∷ xs) = All (λ y. lower (key x) (key y) ≡ false) xs × Descending key xs

module _ {A : Type 0} (key : A → Priority) where
  place-All : (P : A → Type 0) (x : A) (ys : List A) → P x → All P ys → All P (place key x ys)
  unfolding place
  place-All P x [] p h = (p, tt)
  place-All P x (y ∷ ys) p h = elim (Bool-cases (lower (key x) (key y))) [
    | inl below ↦ rw below (h.0, place-All P x ys p h.1)
    | inr above ↦ rw above (p, h)
  ]

  place-Descending : (x : A) (ys : List A) → Descending key ys → Descending key (place key x ys)
  unfolding place
  place-Descending x [] h = (tt, tt)
  place-Descending x (y ∷ ys) h = elim (Bool-cases (lower (key x) (key y))) [
    | inl below ↦ rw below (
      place-All (λ z. lower (key y) (key z) ≡ false) x ys (lower_asym (key x) (key y) below) h.0,
      place-Descending x ys h.1,
    )
    | inr above ↦ rw above (
      (
        above,
        All-map (λ z. lower (key y) (key z) ≡ false) (λ z. lower (key x) (key z) ≡ false)
            (λ z. lower_trans (key x) (key y) (key z) above) ys h.0,
      ),
      h,
    )
  ]

  place-Perm : (x : A) (ys : List A) → Perm (place key x ys) (x ∷ ys)
  unfolding place
  place-Perm x [] = Perm.refl (x ∷ [])
  place-Perm x (y ∷ ys) = elim (Bool-cases (lower (key x) (key y))) [
    | inl below ↦ rw below (Perm.trans (Perm.cons y (place-Perm x ys)) (Perm.swap x y ys))
    | inr above ↦ rw above (Perm.refl (x ∷ y ∷ ys))
  ]

  pub sort_by-Descending : (xs : List A) → Descending key (sort_by key xs)
  unfolding sort_by
  sort_by-Descending [] = tt
  sort_by-Descending (x ∷ xs) = place-Descending x (sort_by key xs) (sort_by-Descending xs)

  pub sort_by-Perm : (xs : List A) → Perm (sort_by key xs) xs
  unfolding sort_by
  sort_by-Perm [] = Perm.refl []
  sort_by-Perm (x ∷ xs) = Perm.trans (place-Perm x (sort_by key xs)) (Perm.cons x (sort_by-Perm xs))
