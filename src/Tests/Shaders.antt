-- ===== src/Tests/Shaders.antt =====
-- The theorems on shader libraries, at four shaders.
use retoc.Prelude.Int.{pos}
use retoc.Prelude.{
  refl, [], true, ◌∷◌, ℕ, List, ◌≡◌, if◌then◌else◌, replicate, arith, ◌==◌, take, ◌++◌, drop,
  list_eq,
}
use retoc.Outcome.{ok}
use retoc.ShaderLibrary.Headers.{
  FShaderLibraryHeader, de_library_header, IsShaderLibraryHeader, ser_library_header,
  de_library_header-ser_library_header,
}
use retoc.ShaderLibrary.Groups.{
  in_range, group_shaders, streaks, flat_map, split_raytracing, choose,
  is_raytracing_shader_frequency, split_by_size, total, sort_by, insert_by, ascending, distribute,
  add_to, smallest_group, smallest, split_all, split_in, divide,
}
use retoc.ShaderLibrary.Sequences.{find_or_add_sequence_in_shader_indices, find_or_add_sequence_lem}
use retoc.ShaderLibrary.Records.{FShaderCodeEntry}
use retoc.ShaderLibrary.Groups.Kept.{count_groups, count, group_shaders-count}

abbrev shader : ℕ → ℕ → FShaderCodeEntry
shader frequency size = record {
  offset = 0;
  size = size;
  uncompressed_size = size;
  frequency = frequency;
}

abbrev entries : List FShaderCodeEntry
entries = shader 0 30 ∷ shader 6 10 ∷ shader 3 20 ∷ shader 0 50 ∷ []

abbrev maps : ℕ → List ℕ
maps n = if n == 3 then 0 ∷ 1 ∷ [] else 0 ∷ []

grouped :
    group_shaders entries maps true 35 (0 ∷ 1 ∷ 2 ∷ 3 ∷ [])
    ≡ ok ((0 ∷ []) ∷ (2 ∷ []) ∷ (1 ∷ []) ∷ (3 ∷ []) ∷ [])
unfolding group_shaders split_all split_in divide streaks flat_map split_raytracing choose
    is_raytracing_shader_frequency split_by_size total sort_by insert_by ascending distribute add_to
    smallest_group smallest in_range list_eq
grouped = refl

in_range-entries : in_range entries (0 ∷ 1 ∷ 2 ∷ 3 ∷ []) ≡ true
unfolding in_range
in_range-entries = refl

group_shaders-count_example :
    (groups : List (List ℕ)) × (group_shaders entries maps true 35 (0 ∷ 1 ∷ 2 ∷ 3 ∷ []) ≡ ok groups)
    × (count_groups 2 groups ≡ count 2 (0 ∷ 1 ∷ 2 ∷ 3 ∷ []))
group_shaders-count_example =
    group_shaders-count 2 entries maps true 35 (0 ∷ 1 ∷ 2 ∷ 3 ∷ []) in_range-entries (omega arith)

find_or_add_sequence_lem_example :
    (result : List ℕ × ℕ) × (find_or_add_sequence_in_shader_indices (4 ∷ 5 ∷ 6 ∷ []) (5 ∷ 6 ∷ [])
      ≡ ok result)
    × (take 2 (drop result.1 result.0) ≡ 5 ∷ 6 ∷ [])
    × (take 3 result.0 ≡ 4 ∷ 5 ∷ 6 ∷ [])
find_or_add_sequence_lem_example =
    find_or_add_sequence_lem (4 ∷ 5 ∷ 6 ∷ []) 5 (6 ∷ []) (omega arith) (omega arith) (omega arith)

abbrev hash : List ℕ
hash = replicate 20 7

abbrev library : FShaderLibraryHeader
library = record {
  shader_map_hashes = hash ∷ [];
  shader_hashes = hash ∷ hash ∷ [];
  shader_map_entries =
      record {
        shader_indices_offset = 0;
        num_shaders = 2;
        first_preload_index = 0;
        num_preload_entries = 1;
      }
      ∷ [];
  shader_entries = shader 0 30 ∷ shader 6 10 ∷ [];
  preload_entries = record { offset = pos 8; size = pos 40 } ∷ [];
  shader_indices = 0 ∷ 1 ∷ [];
}

library-IsShaderLibraryHeader : IsShaderLibraryHeader library
library-IsShaderLibraryHeader = record {
  shader_map_hashes = omega arith;
  shader_hashes = omega arith;
  shader_map_entries = omega arith;
  shader_entries = omega arith;
  preload_entries = omega arith;
  shader_indices = omega arith;
}

de_library_header-ser_library_header_example :
    de_library_header (ser_library_header library ++ 9 ∷ []) ≡ ok (library, 9 ∷ [])
de_library_header-ser_library_header_example =
    de_library_header-ser_library_header library (9 ∷ []) library-IsShaderLibraryHeader
