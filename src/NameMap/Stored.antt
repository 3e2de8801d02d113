-- ===== src/NameMap/Stored.antt =====
-- What `FNameMap` of src/name_map.rs keeps of the names that are stored.
use retoc.Prelude.{
  ℕ, ◌<◌, ◌≡◌, ◌^◌, List, some, none, get_elem?, length, arith, refl, ◌++◌, ◌∷◌, [], Option,
  list_eq, list_eq_iff, inr, inl, true, get_elem?-lt, Bool-cases, ◌%◌, get_elem?-append,
  get_elem?-length, suc, ◌+◌,
}
use retoc.Outcome.{ok, bind-eq-ok, unwrap-eq-ok}
use retoc.Ser.Utf.{Text}
use retoc.Toc.Maps.{Map, insert}
use retoc.NameMap.{FMappedName, mapped_name_parts, EMappedNameType}
use retoc.NameMap.Numbers.{with_number, break_down_name_string, with_number-break_down_name_string}
use retoc.NameMap.Store.{FNameMap, get, store, store_part, create_from_names, lookup_of, same_kind}
use retoc.Outcome
use retoc.NameMap

-- The lookup finds names where they are.
pub record IsNameMap (self : FNameMap) : Type 0 where
  pub found : (s : Text) (i : ℕ) → self.name_lookup s ≡ some i → get_elem? self.names i ≡ some s

same_kind_refl : (k : EMappedNameType) → same_kind k k ≡ true
unfolding same_kind
same_kind_refl k = grind arith

-- The mapped name of an entry stands for the entry's name with the number.
get-create :
    (self : FNameMap) (i number : ℕ) (n : Text)
    → i < 2 ^ 30
    → get_elem? self.names i ≡ some n
    → get self (NameMap.create (i % 2 ^ 32) self.kind number) ≡ ok (with_number n number)
unfolding get
get-create self i number n small h =
    let parts = mapped_name_parts (i % 2 ^ 32) self.kind number in
    let low : i % 2 ^ 32 % 2 ^ 30 ≡ i = omega arith in
    rw (parts.1, same_kind_refl self.kind, parts.0, low, h, parts.2)

get-store_part :
    (self : FNameMap) (part : Text) (number : ℕ) (existing : Option ℕ)
    → IsNameMap self
    → length self.names < 2 ^ 30
    → self.name_lookup part ≡ existing
    → get (store_part self part number existing).0 (store_part self part number existing).1
      ≡ ok (with_number part number)
unfolding store_part
get-store_part self part number (some i) valid few h =
    let there = valid.found part i h in
    get-create self i number part (omega (arith, few, get_elem?-lt self.names i part there)) there
get-store_part self part number none valid few h =
    get-create _ (length self.names) number part few (get_elem?-length self.names part)

-- In a valid map of less than 2 ^ 30 names, the mapped name that `store` returns stands for the
-- stored name, its number included.
pub get-store :
    (self : FNameMap) (name : Text)
    → IsNameMap self
    → length self.names < 2 ^ 30
    → get (store self name).0 (store self name).1 ≡ ok name
unfolding store
get-store self name valid few =
    let p = break_down_name_string name in
    rw (
      get-store_part self p.0 p.1 (self.name_lookup p.0) valid few refl,
      with_number-break_down_name_string name,
    )

-- Where each entry of a lookup leads to its name in the list.
abbrev Finds : Map Text ℕ → List Text → Type 0
Finds m names = (s : Text) (i : ℕ) → m s ≡ some i → get_elem? names i ≡ some s

insert-Finds :
    (m : Map Text ℕ) (names : List Text) (part : Text) (at : ℕ)
    → get_elem? names at ≡ some part
    → Finds m names
    → Finds (insert list_eq part at m) names
insert-Finds m names part at there finds s i h = elim (Bool-cases (list_eq s part)) [
  | inl e ↦
      let same : at ≡ i = ground (arith, rw e at h) in rw ((list_eq_iff s part).0 e, ← same) there
  | inr e ↦ finds s i (rw e at h)
]

store_part-IsNameMap :
    (self : FNameMap) (part : Text) (number : ℕ) (existing : Option ℕ)
    → IsNameMap self
    → IsNameMap (store_part self part number existing).0
unfolding store_part
store_part-IsNameMap self part number (some i) valid = valid
store_part-IsNameMap self part number none valid = record {
  found =
      insert-Finds self.name_lookup (self.names ++ part ∷ []) part (length self.names)
        (get_elem?-length self.names part)
        (λ s i h. get_elem?-append self.names (part ∷ []) i s (valid.found s i h));
}

-- Storing a name keeps a map valid.
pub store-IsNameMap :
    (self : FNameMap) (name : Text) → IsNameMap self → IsNameMap (store self name).0
unfolding store
store-IsNameMap self name valid =
    let p = break_down_name_string name in
    store_part-IsNameMap self p.0 p.1 (self.name_lookup p.0) valid

get_longer :
    (a b : FNameMap) (n : FMappedName) (text : Text)
    → b.kind ≡ a.kind
    → ((i : ℕ) (s : Text) → get_elem? a.names i ≡ some s → get_elem? b.names i ≡ some s)
    → get a n ≡ ok text
    → get b n ≡ ok text
unfolding get
get_longer a b n text kinds longer h =
    let (k, e₁, h₁) = bind-eq-ok (NameMap.kind n) _ h in
    let (u, e₂, h₂) = bind-eq-ok (Outcome.assert (same_kind k a.kind)) _ h₁ in
    let (s, e₃, h₃) = bind-eq-ok (Outcome.unwrap (get_elem? a.names (NameMap.index n))) _ h₂ in
    rw (e₁, kinds, e₂, longer (NameMap.index n) s (unwrap-eq-ok e₃)) h₃

store_part_names :
    (self : FNameMap) (part : Text) (number : ℕ) (existing : Option ℕ) (i : ℕ) (s : Text)
    → get_elem? self.names i ≡ some s
    → get_elem? (store_part self part number existing).0.names i ≡ some s
unfolding store_part
store_part_names self part number (some e) i s h = h
store_part_names self part number none i s h = get_elem?-append self.names (part ∷ []) i s h

store_part_kind :
    (self : FNameMap) (part : Text) (number : ℕ) (existing : Option ℕ)
    → (store_part self part number existing).0.kind ≡ self.kind
unfolding store_part
store_part_kind self part number (some e) = refl
store_part_kind self part number none = refl

-- A mapped name that stands for a text stands for it after another name is stored.
pub get-store_other :
    (self : FNameMap) (name text : Text) (n : FMappedName)
    → get self n ≡ ok text
    → get (store self name).0 n ≡ ok text
unfolding store
get-store_other self name text n h =
    let p = break_down_name_string name in
    get_longer self (store self name).0 n text (store_part_kind self p.0 p.1 (self.name_lookup p.0))
      (store_part_names self p.0 p.1 (self.name_lookup p.0)) h

later : (a j : ℕ) → a + 1 + j ≡ a + suc j
later a j = omega arith

no_shift : (a : ℕ) → a + 0 ≡ a
no_shift a = omega arith

from_start : (j : ℕ) → 0 + j ≡ j
from_start j = omega arith

lookup_of-Finds :
    (all names : List Text) (start : ℕ) (m : Map Text ℕ)
    → ((j : ℕ) (s : Text) → get_elem? names j ≡ some s → get_elem? all (start + j) ≡ some s)
    → Finds m all
    → Finds (lookup_of start names m) all
unfolding lookup_of
lookup_of-Finds all [] start m at finds = finds
lookup_of-Finds all (name ∷ names) start m places finds =
    lookup_of-Finds all names (start + 1) (insert list_eq name start m)
      (λ j s h. rw (later start j) (places (suc j) s h))
      (insert-Finds m all name start (rw (no_shift start) at (places 0 name refl)) finds)

-- A map that is made of a list of names is valid, whatever names occur twice.
pub create_from_names-IsNameMap :
    (kind : EMappedNameType) (names : List Text) → IsNameMap (create_from_names kind names)
unfolding create_from_names
create_from_names-IsNameMap kind names = record {
  found = lookup_of-Finds names names 0 (λ k. none) (λ j s h. rw (from_start j) h) (λ s i h. cc);
}
