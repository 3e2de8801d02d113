-- ===== src/NameMap/Store.antt =====
-- `FNameMap` of src/name_map.rs: names in the order of their first use, with a lookup by the name.
use retoc.Outcome
use retoc.Outcome.{◌>>=◌, ◌>>◌, Outcome, ok}
use retoc.Prelude.{
  ℕ, ◌+◌, ◌%◌, ◌^◌, ◌==◌, List, [], ◌∷◌, Option, some, none, ◌++◌, length, get_elem?, Bool, list_eq,
}
use retoc.Ser.Utf.{Text}
use retoc.Toc.Maps.{Map, insert}
use retoc.NameMap.{EMappedNameType, FMappedName, create, kind, repr, index}
use retoc.NameMap.Numbers.{break_down_name_string, with_number}

pub record FNameMap : Type 0 where
  pub kind : EMappedNameType
  pub names : List Text
  pub name_lookup : Map Text ℕ

unfoldable pub same_kind : EMappedNameType → EMappedNameType → Bool
same_kind a b = repr a == repr b

unfoldable pub get : FNameMap → FMappedName → Outcome Text
get self name = do
  k ← kind name
  Outcome.assert (same_kind k self.kind)
  n ← Outcome.unwrap (get_elem? self.names (index name))
  ok (with_number n name.number)

unfoldable pub new : EMappedNameType → FNameMap
new kind = record { kind = kind; names = []; name_lookup = λ k. none }

-- `enumerate` and `insert`, from this index on.
unfoldable pub lookup_of : ℕ → List Text → Map Text ℕ → Map Text ℕ
lookup_of i [] m = m
lookup_of i (name ∷ names) m = lookup_of (i + 1) names (insert list_eq name i m)

unfoldable pub create_from_names : EMappedNameType → List Text → FNameMap
create_from_names kind names = record {
  kind = kind;
  names = names;
  name_lookup = lookup_of 0 names (λ k. none);
}

-- The name without its number is looked up, and added if it is new.
unfoldable pub store_part : FNameMap → Text → ℕ → Option ℕ → FNameMap × FMappedName
store_part self part number (some existing) = (self, create (existing % 2 ^ 32) self.kind number)
store_part self part number none = (
  record self {
    names = self.names ++ part ∷ [];
    name_lookup = insert list_eq part (length self.names) self.name_lookup;
  },
  create (length self.names % 2 ^ 32) self.kind number,
)

unfoldable pub store : FNameMap → Text → FNameMap × FMappedName
store self name =
    let part = (break_down_name_string name).0 in
    store_part self part (break_down_name_string name).1 (self.name_lookup part)
