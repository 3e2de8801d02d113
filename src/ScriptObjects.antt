-- ===== src/ScriptObjects.antt =====
-- src/script_objects.rs: `FPackageObjectIndex`, two bits of kind over 62 bits of a hash or an index.
-- The hash of paths, cityhash, is a parameter.
pub mod Kinds
use retoc.Outcome
use retoc.Prelude.{
  ℕ, [], none, ◌∷◌, some, List, Bool, ◌^◌, bit_and, bit_or, if◌then◌else◌, Option, ◌-◌, get_elem?,
  ◌*◌, map, ◌==◌, ◌%◌, ◌||◌, ◌++◌, not, ◌/◌,
}
use retoc.Ser.Stream.{◌>>=◌, Reader, pure}
use retoc.NameMap.Store.{FNameMap}
use retoc.NameMap.{FMappedName, de_mapped_name, ser_mapped_name}
use retoc.Ser.Utf.{Text, encode_utf16}
use retoc.Outcome.{Outcome, ok}
use retoc.Ser.Arrays.{ser_array}
use retoc.Ser.Words.{ser_u64, de_u64, ser_u16}
use retoc.Toc.Maps.{Map, insert}
use retoc.Compression.{to_lower}

pub record FPackageObjectIndex : Type 0 where
  pub type_and_id : ℕ

pub data FPackageObjectIndexType : Type 0 where
  export script_import package_import null : FPackageObjectIndexType

-- `kind as u64`
abbrev pub repr : FPackageObjectIndexType → ℕ
repr export = 0
repr script_import = 1
repr package_import = 2
repr null = 3

abbrev variants : List FPackageObjectIndexType
variants = export ∷ script_import ∷ package_import ∷ null ∷ []

pub record FPackageImportReference : Type 0 where
  pub imported_package_index : ℕ
  pub imported_public_export_hash_index : ℕ

-- `((kind as u64) << 62) | value`
unfoldable pub create : FPackageObjectIndexType → ℕ → FPackageObjectIndex
create kind value = record { type_and_id = bit_or (repr kind * 2 ^ 62) value }

unfoldable pub create_from_raw : ℕ → FPackageObjectIndex
create_from_raw raw = record { type_and_id = raw }

unfoldable pub create_null : FPackageObjectIndex
create_null = create null (2 ^ 64 - 1)

unfoldable pub create_export : ℕ → FPackageObjectIndex
create_export export_index = create export export_index

unfoldable pub create_package_import : FPackageImportReference → FPackageObjectIndex
create_package_import import_ref = create package_import (
    bit_or import_ref.imported_public_export_hash_index
      (import_ref.imported_package_index * 2 ^ 32))

unfoldable pub raw_index : FPackageObjectIndex → ℕ
raw_index self = bit_and self.type_and_id (2 ^ 62 - 1)

unfoldable pub kind : FPackageObjectIndex → Outcome FPackageObjectIndexType
kind self = Outcome.unwrap (get_elem? variants (self.type_and_id / 2 ^ 62))

unfoldable pub is_kind : FPackageObjectIndexType → FPackageObjectIndex → Outcome Bool
is_kind wanted self = Outcome.bind (kind self) λ k. ok (repr k == repr wanted)

abbrev then_some {ℓ} : {A : Type ℓ} → Bool → A → Option A
then_some b a = if b then some a else none

unfoldable pub value : FPackageObjectIndex → Outcome (Option ℕ)
value self = Outcome.bind (is_kind null self) λ b. ok (then_some (not b) self.type_and_id)

unfoldable pub as_export : FPackageObjectIndex → Outcome (Option ℕ)
as_export self =
    Outcome.bind (is_kind export self) λ b. ok (then_some b (self.type_and_id % 2 ^ 32))

unfoldable pub as_package_import : FPackageObjectIndex → Outcome (Option FPackageImportReference)
as_package_import self = Outcome.bind (is_kind package_import self) λ b. ok (
    then_some b (record {
      imported_package_index = raw_index self / 2 ^ 32 % 2 ^ 32;
      imported_public_export_hash_index = self.type_and_id % 2 ^ 32;
    }))

unfoldable pub is_null : FPackageObjectIndex → Outcome Bool
is_null self = is_kind null self

-- The character of a path for the hash, `:` and `.` being separators.
unfoldable hashed_char : ℕ → ℕ
hashed_char c = if c == 58 || c == 46 then 47 else to_lower c

unfoldable path_bytes : Text → List ℕ
path_bytes object_path = ser_array ser_u16 (encode_utf16 (map hashed_char object_path))

module _ (cityhash : List ℕ → ℕ) where
  -- `hash &= !(3 << 62)`
  unfoldable generate_import_hash_from_object_path : Text → ℕ
  generate_import_hash_from_object_path object_path = cityhash (path_bytes object_path) % 2 ^ 62

  unfoldable create_script_import : Text → FPackageObjectIndex
  create_script_import object_path =
      create script_import (generate_import_hash_from_object_path object_path)

  unfoldable create_legacy_package_import_from_path : Text → FPackageObjectIndex
  create_legacy_package_import_from_path object_path =
      create package_import (generate_import_hash_from_object_path object_path)

unfoldable pub de_object_index : Reader FPackageObjectIndex
de_object_index = do raw ← de_u64; pure (record { type_and_id = raw })

unfoldable pub ser_object_index : FPackageObjectIndex → List ℕ
ser_object_index self = ser_u64 self.type_and_id

pub record FScriptObjectEntry : Type 0 where
  pub object_name : FMappedName
  pub global_index : FPackageObjectIndex
  pub outer_index : FPackageObjectIndex
  pub cdo_class_index : FPackageObjectIndex

unfoldable pub de_entry : Reader FScriptObjectEntry
de_entry = do
  object_name ← de_mapped_name
  global_index ← de_object_index
  outer_index ← de_object_index
  cdo_class_index ← de_object_index
  pure (record {
    object_name = object_name;
    global_index = global_index;
    outer_index = outer_index;
    cdo_class_index = cdo_class_index;
  })

unfoldable pub ser_entry : FScriptObjectEntry → List ℕ
ser_entry self =
    ser_mapped_name self.object_name
    ++ (ser_object_index self.global_index
        ++ (ser_object_index self.outer_index ++ ser_object_index self.cdo_class_index))

pub record ZenScriptObjects : Type 0 where
  pub global_name_map : FNameMap
  pub script_objects : List FScriptObjectEntry
  pub script_object_lookup : Map ℕ FScriptObjectEntry

-- Later entries with the same index replace earlier ones.
unfoldable pub lookup_entries :
    List FScriptObjectEntry → Map ℕ FScriptObjectEntry → Map ℕ FScriptObjectEntry
lookup_entries [] m = m
lookup_entries (e ∷ es) m = lookup_entries es (insert ◌==◌ e.global_index.type_and_id e m)

unfoldable pub new : List FScriptObjectEntry → FNameMap → ZenScriptObjects
new script_objects global_name_map = record {
  global_name_map = global_name_map;
  script_objects = script_objects;
  script_object_lookup = lookup_entries script_objects (λ k. none);
}
