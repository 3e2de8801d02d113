-- ===== src/Toc/ChunkType.antt =====
-- `EIoChunkType` of src/main.rs. The numbering of the chunk types changed with UE5, so a byte in a
-- file is read and written by `new` and `value` under the flag `is_new`; the discriminant is a third
-- numbering, which holds all the types of both.
use retoc.Prelude.{
  ℕ, ◌<◌, ◌≡◌, refl, Bool, true, false, Option, some, List, [], ◌∷◌, arith, get_elem?,
}
use retoc.Outcome
use retoc.Outcome.{Outcome, ok, panicked}

pub data EIoChunkType : Type 0 where
  invalid export_bundle_data bulk_data optional_bulk_data memory_mapped_bulk_data : EIoChunkType
  script_objects container_header external_file shader_code_library shader_code : EIoChunkType
  package_store_entry derived_data editor_derived_data package_resource : EIoChunkType
  install_manifest loader_global_meta loader_initial_load_meta loader_global_names : EIoChunkType
  loader_global_name_hashes : EIoChunkType

-- In the order of their discriminants.
abbrev pub variants : List EIoChunkType
variants =
    invalid ∷ export_bundle_data ∷ bulk_data ∷ optional_bulk_data ∷ memory_mapped_bulk_data
    ∷ script_objects ∷ container_header ∷ external_file ∷ shader_code_library ∷ shader_code
    ∷ package_store_entry ∷ derived_data ∷ editor_derived_data ∷ package_resource ∷ install_manifest
    ∷ loader_global_meta ∷ loader_initial_load_meta ∷ loader_global_names
    ∷ loader_global_name_hashes ∷ []

-- `self as u8`
abbrev pub repr : EIoChunkType → ℕ
repr invalid = 0
repr export_bundle_data = 1
repr bulk_data = 2
repr optional_bulk_data = 3
repr memory_mapped_bulk_data = 4
repr script_objects = 5
repr container_header = 6
repr external_file = 7
repr shader_code_library = 8
repr shader_code = 9
repr package_store_entry = 10
repr derived_data = 11
repr editor_derived_data = 12
repr package_resource = 13
repr install_manifest = 14
repr loader_global_meta = 15
repr loader_initial_load_meta = 16
repr loader_global_names = 17
repr loader_global_name_hashes = 18

unfoldable pub from_repr : ℕ → Option EIoChunkType
from_repr n = get_elem? variants n

-- The types by their number in a file, from UE5 on and before.
abbrev new_types : List EIoChunkType
new_types =
    invalid ∷ export_bundle_data ∷ bulk_data ∷ optional_bulk_data ∷ memory_mapped_bulk_data
    ∷ script_objects ∷ container_header ∷ external_file ∷ shader_code_library ∷ shader_code
    ∷ package_store_entry ∷ derived_data ∷ editor_derived_data ∷ package_resource ∷ []

abbrev old_types : List EIoChunkType
old_types =
    invalid ∷ install_manifest ∷ export_bundle_data ∷ bulk_data ∷ optional_bulk_data
    ∷ memory_mapped_bulk_data ∷ loader_global_meta ∷ loader_initial_load_meta ∷ loader_global_names
    ∷ loader_global_name_hashes ∷ container_header ∷ shader_code_library ∷ shader_code ∷ []

unfoldable pub new : ℕ → Bool → Outcome EIoChunkType
new value true = Outcome.unwrap (get_elem? new_types value)
new value false = Outcome.unwrap (get_elem? old_types value)

unfoldable pub value : EIoChunkType → Bool → Outcome ℕ
value invalid true = ok 0
value export_bundle_data true = ok 1
value bulk_data true = ok 2
value optional_bulk_data true = ok 3
value memory_mapped_bulk_data true = ok 4
value script_objects true = ok 5
value container_header true = ok 6
value external_file true = ok 7
value shader_code_library true = ok 8
value shader_code true = ok 9
value package_store_entry true = ok 10
value derived_data true = ok 11
value editor_derived_data true = ok 12
value package_resource true = ok 13
value invalid false = ok 0
value install_manifest false = ok 1
value export_bundle_data false = ok 2
value bulk_data false = ok 3
value optional_bulk_data false = ok 4
value memory_mapped_bulk_data false = ok 5
value loader_global_meta false = ok 6
value loader_initial_load_meta false = ok 7
value loader_global_names false = ok 8
value loader_global_name_hashes false = ok 9
value container_header false = ok 10
value shader_code_library false = ok 11
value shader_code false = ok 12
value _ _ = panicked

pub from_repr-repr : (t : EIoChunkType) → from_repr (repr t) ≡ some t
unfolding from_repr
from_repr-repr invalid = refl
from_repr-repr _ = refl

pub repr-lt : (t : EIoChunkType) → repr t < 19
repr-lt invalid = omega arith
repr-lt _ = omega arith

-- A type that a byte stands for, before UE5 or from it on, is written as that byte there.
pub value-new :
    (v : ℕ) (is_new : Bool) (t : EIoChunkType) → new v is_new ≡ ok t → value t is_new ≡ ok v
unfolding new value
value-new v is_new t h = ground arith

-- A byte that a type is written as, before UE5 or from it on, stands for that type there.
pub new-value :
    (t : EIoChunkType) (is_new : Bool) (v : ℕ) → value t is_new ≡ ok v → new v is_new ≡ ok t
unfolding new value
new-value invalid is_new v h = ground arith
new-value _ is_new v h = ground arith
