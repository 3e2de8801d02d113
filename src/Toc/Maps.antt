-- ===== src/Toc/Maps.antt =====
-- The transient indexes of `Toc` in src/main.rs, built when a file is read. A `HashMap` is a
-- function from keys to options; the key of a chunk is its raw id, by which `FIoChunkId` is
-- compared and hashed.
use retoc.Outcome
use retoc.Ser.Utf.{Text}
use retoc.Compression.{to_ascii_lowercase}
use retoc.Toc.ChunkId.{FIoChunkId, get_raw}
use retoc.Prelude.{
  none, [], some, Option, List, ℕ, if◌then◌else◌, ◌++◌, ◌∷◌, Bool, ◌+◌, list_eq, ◌==◌,
}
use retoc.Outcome.{Outcome, ok, out_of_fuel, panicked, missing_key}
use retoc.Directory.Walk.{Visit}

abbrev pub Map : Type 0 → Type 0 → Type 0
Map K V = K → Option V

-- `path.join("/")`
unfoldable pub join_slash : List Text → Text
join_slash [] = []
join_slash (name ∷ []) = name
join_slash (name ∷ next ∷ names) = name ++ 47 ∷ join_slash (next ∷ names)

abbrev pub insert : {K V : Type 0} → (K → K → Bool) → K → V → Map K V → Map K V
insert same k v m = λ j. if same j k then some v else m j

pub record Files : Type 0 where
  pub file_map : Map Text ℕ
  pub file_map_lower : Map Text ℕ
  pub file_map_rev : Map ℕ Text

abbrev pub no_files : Files
no_files = record { file_map = λ k. none; file_map_lower = λ k. none; file_map_rev = λ k. none }

-- The visitor of `Toc::de`, and its run over the visits in their order.
unfoldable pub add_visit : Files → Visit → Files
add_visit files (user_data, names) =
    let path = join_slash names in
    record {
      file_map = insert list_eq path user_data files.file_map;
      file_map_lower = insert list_eq (to_ascii_lowercase path) user_data files.file_map_lower;
      file_map_rev = insert ◌==◌ user_data path files.file_map_rev;
    }

unfoldable pub add_visits : Files → List Visit → Files
add_visits files [] = files
add_visits files (v ∷ vs) = add_visits (add_visit files v) vs

-- The raw ids of a list of chunks, which hashing and writing take.
unfoldable pub raw_ids : List FIoChunkId → Outcome (List (List ℕ))
raw_ids [] = ok []
raw_ids (id ∷ ids) =
    Outcome.bind (get_raw id) λ raw. Outcome.bind (raw_ids ids) λ raws. ok (raw.id ∷ raws)

-- Later chunks with the same id replace earlier ones.
unfoldable pub index_chunks : ℕ → List (List ℕ) → Map (List ℕ) ℕ → Map (List ℕ) ℕ
index_chunks i [] m = m
index_chunks i (raw ∷ raws) m = index_chunks (i + 1) raws (insert list_eq raw i m)
