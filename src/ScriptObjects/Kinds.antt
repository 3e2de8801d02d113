-- ===== src/ScriptObjects/Kinds.antt =====
-- `FPackageObjectIndex` of src/script_objects.rs: the kinds of indexes and what they hold.
use retoc.Prelude.{
  ℕ, ◌<◌, ◌≡◌, ◌^◌, ◌+◌, ◌*◌, ◌%◌, ◌/◌, List, some, get_elem?, arith, refl, ◌++◌, append_assoc,
}
use retoc.Prelude.Bits.{bit_or-parts, bit_or-parts_low, bit_and-mask}
use retoc.Outcome.{ok}
use retoc.NameMap.{IsMappedName, de_mapped_name-ser_mapped_name}
use retoc.Ser.Words.{de_u64-ser_u64}
use retoc.ScriptObjects.{
  script_import, null, FPackageObjectIndexType, FPackageImportReference, FScriptObjectEntry, repr,
  variants, create, kind, raw_index, is_kind, create_export, as_export, create_package_import,
  as_package_import, de_object_index, ser_object_index, de_entry, ser_entry, export, package_import,
}
use retoc.Outcome

from_repr-repr : (k : FPackageObjectIndexType) → Outcome.unwrap (get_elem? variants (repr k)) ≡ ok k
from_repr-repr export = refl
from_repr-repr script_import = refl
from_repr-repr package_import = refl
from_repr-repr null = refl

-- The two parts of a new index of 62 bits at most.
bits_create :
    (k : FPackageObjectIndexType) (v : ℕ)
    → v < 2 ^ 62
    → (create k v).type_and_id ≡ repr k * 2 ^ 62 + v
unfolding create
bits_create k v h = bit_or-parts 62 (repr k) v h

-- An index of a value of 62 bits has the kind and the value that it was made of.
create_kind :
    (k : FPackageObjectIndexType) (v : ℕ)
    → v < 2 ^ 62
    → (kind (create k v) ≡ ok k) × (raw_index (create k v) ≡ v)
unfolding kind raw_index
create_kind k v h =
    let high : (repr k * 2 ^ 62 + v) / 2 ^ 62 ≡ repr k = omega arith in
    let low : (repr k * 2 ^ 62 + v) % 2 ^ 62 ≡ v = omega arith in
    (
      rw (bits_create k v h, high) (from_repr-repr k),
      rw (bits_create k v h, bit_and-mask 62 (repr k * 2 ^ 62 + v)) low,
    )

-- An export index of 32 bits is had back.
as_export-create_export : (i : ℕ) → i < 2 ^ 32 → as_export (create_export i) ≡ ok (some i)
unfolding as_export create_export is_kind
as_export-create_export i h =
    let bits = bits_create export i (omega arith) in
    let low : (create export i).type_and_id % 2 ^ 32 ≡ i = omega (arith, bits) in
    rw ((create_kind export i (omega arith)).0, low)

-- A package import is had back if its package index has 30 bits at most and its hash index 32.
as_package_import-create_package_import :
    (r : FPackageImportReference)
    → r.imported_package_index < 2 ^ 30
    → r.imported_public_export_hash_index < 2 ^ 32
    → as_package_import (create_package_import r) ≡ ok (some r)
unfolding as_package_import create_package_import is_kind
as_package_import-create_package_import r p e =
    let v = r.imported_package_index * 2 ^ 32 + r.imported_public_export_hash_index in
    let parts =
      bit_or-parts_low 32 r.imported_package_index r.imported_public_export_hash_index e in
    let small : v < 2 ^ 62 = omega arith in
    let both = create_kind package_import v small in
    let high : v / 2 ^ 32 % 2 ^ 32 ≡ r.imported_package_index = omega arith in
    let low : (create package_import v).type_and_id % 2 ^ 32 ≡ r.imported_public_export_hash_index =
      omega (arith, bits_create package_import v small) in
    rw (parts, both.0, both.1, high, low)

pub record IsEntry (e : FScriptObjectEntry) : Type 0 where
  pub object_name : IsMappedName e.object_name
  pub global_index : e.global_index.type_and_id < 2 ^ 64
  pub outer_index : e.outer_index.type_and_id < 2 ^ 64
  pub cdo_class_index : e.cdo_class_index.type_and_id < 2 ^ 64

-- An entry of the script objects whose fields are words is read back as it was written.
de_entry-ser_entry :
    (e : FScriptObjectEntry) (rest : List ℕ)
    → IsEntry e
    → de_entry (ser_entry e ++ rest) ≡ ok (e, rest)
unfolding de_entry ser_entry de_object_index ser_object_index
de_entry-ser_entry e rest h = simp (
  append_assoc, de_mapped_name-ser_mapped_name, de_u64-ser_u64, h.object_name, h.global_index,
  h.outer_index, h.cdo_class_index,
)
