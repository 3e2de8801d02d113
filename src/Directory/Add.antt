-- ===== src/Directory/Add.antt =====
-- `add_file` of the module `directory_index` in src/main.rs, with the functions that find or make a
-- name, a directory and a file. Ids are `u32`: a count is cast to it, and 1 less than 0 wraps.
use mathlib.Core.Option
use retoc.Outcome
use retoc.Outcome.{◌>>=◌, ◌>>◌, Outcome, ok, panicked, out_of_fuel}
use retoc.Directory.{
  FIoDirectoryIndexResource, FIoDirectoryIndexEntry, FIoFileIndexEntry, ℕ, List, is_empty, Option,
  length,
}
use retoc.Directory.Walk.{directory_at, file_at, name_at}
use retoc.Ser.Utf.{Text}
use retoc.Prelude.{
  none, suc, [], some, zero, ◌∷◌, if◌then◌else◌, ◌++◌, set, list_eq, ◌+◌, ◌%◌, ◌^◌, ◌-◌,
}

-- `position(|n| n == name)`
unfoldable pub position : Text → List Text → Option ℕ
position name [] = none
position name (n ∷ ns) = if list_eq n name then some 0 else Option.map suc (position name ns)

-- The name at its place, which is the end of the table for a new one, cast to a `u32`.
unfoldable pub place_name :
    FIoDirectoryIndexResource → Text → Option ℕ → FIoDirectoryIndexResource × ℕ
place_name self name (some i) = (self, i % 2 ^ 32)
place_name self name none = (
  record self { string_table = self.string_table ++ name ∷ [] },
  length self.string_table % 2 ^ 32,
)

unfoldable pub get_or_create_name : FIoDirectoryIndexResource → Text → FIoDirectoryIndexResource × ℕ
get_or_create_name self name = place_name self name (position name self.string_table)

-- What the search through a list of siblings ends with: the entry of that name, or the last entry.
pub data Search : Type 0 where
  found : ℕ → Search
  missing : Option ℕ → Search

module _ (self : FIoDirectoryIndexResource) (name : Text) where
  unfoldable pub find_dir : ℕ → Option ℕ → Option ℕ → Outcome Search
  find_dir zero dir_index last = out_of_fuel
  find_dir (suc fuel) none last = ok (missing last)
  find_dir (suc fuel) (some i) last = do
    dir ← directory_at self i
    dir_name ← Outcome.unwrap dir.name
    text ← name_at self dir_name
    let rest = find_dir fuel dir.next_sibling_entry (some i)
    if list_eq text name then ok (found i) else rest

  unfoldable pub find_file : ℕ → Option ℕ → Option ℕ → Outcome Search
  find_file zero file_index last = out_of_fuel
  find_file (suc fuel) none last = ok (missing last)
  find_file (suc fuel) (some i) last = do
    file ← file_at self i
    text ← name_at self file.name
    let rest = find_file fuel file.next_file_entry (some i)
    if list_eq text name then ok (found i) else rest

-- A write to an entry that must be there.
unfoldable pub update_dir :
    FIoDirectoryIndexResource
    → ℕ
    → (FIoDirectoryIndexEntry → FIoDirectoryIndexEntry)
    → Outcome FIoDirectoryIndexResource
update_dir self i change = do
  dir ← directory_at self i
  ok (record self { directory_entries = set self.directory_entries i (change dir) })

unfoldable pub update_file :
    FIoDirectoryIndexResource
    → ℕ
    → (FIoFileIndexEntry → FIoFileIndexEntry)
    → Outcome FIoDirectoryIndexResource
update_file self i change = do
  file ← file_at self i
  ok (record self { file_entries = set self.file_entries i (change file) })

-- The entry that the new one follows points to it: the last sibling, or else the parent.
unfoldable pub link_dir :
    FIoDirectoryIndexResource → ℕ → Option ℕ → ℕ → Outcome FIoDirectoryIndexResource
link_dir self parent none id =
    update_dir self parent (λ d. record d { first_child_entry = some id })
link_dir self parent (some last) id =
    update_dir self last (λ d. record d { next_sibling_entry = some id })

unfoldable pub link_file :
    FIoDirectoryIndexResource → ℕ → Option ℕ → ℕ → Outcome FIoDirectoryIndexResource
link_file self parent none id =
    update_dir self parent (λ d. record d { first_file_entry = some id })
link_file self parent (some last) id =
    update_file self last (λ f. record f { next_file_entry = some id })

unfoldable pub append_dir : FIoDirectoryIndexResource → Text → FIoDirectoryIndexResource
append_dir self name =
    let (named, name_id) = get_or_create_name self name in
    record named {
      directory_entries =
          named.directory_entries
          ++ (record {
            name = some name_id;
            first_child_entry = none;
            next_sibling_entry = none;
            first_file_entry = none;
          })
            ∷ [];
    }

unfoldable pub append_file : FIoDirectoryIndexResource → Text → FIoDirectoryIndexResource
append_file self name =
    let (named, name_id) = get_or_create_name self name in
    record named {
      file_entries =
          named.file_entries
          ++ (record { name = name_id; next_file_entry = none; user_data = 0 }) ∷ [];
    }

-- `len() as u32 - 1`
abbrev pub last_id : ℕ → ℕ
last_id count = (count % 2 ^ 32 + (2 ^ 32 - 1)) % 2 ^ 32

-- What follows the search: an entry that was found is returned, or a new one is linked.
unfoldable pub enter_dir :
    FIoDirectoryIndexResource → ℕ → Text → Search → Outcome (FIoDirectoryIndexResource × ℕ)
enter_dir self parent name (found i) = ok (self, i)
enter_dir self parent name (missing last) = do
  let grown = append_dir self name
  let id = last_id (length grown.directory_entries)
  linked ← link_dir grown parent last id
  ok (linked, id)

unfoldable pub enter_file :
    FIoDirectoryIndexResource → ℕ → Text → Search → Outcome (FIoDirectoryIndexResource × ℕ)
enter_file self parent name (found i) = ok (self, i)
enter_file self parent name (missing last) = do
  let grown = append_file self name
  let id = last_id (length grown.file_entries)
  linked ← link_file grown parent last id
  ok (linked, id)

unfoldable pub get_or_create_dir :
    FIoDirectoryIndexResource → ℕ → Text → Outcome (FIoDirectoryIndexResource × ℕ)
get_or_create_dir self parent name = do
  dir ← directory_at self parent
  search ← find_dir self name (length self.directory_entries + 1) dir.first_child_entry none
  enter_dir self parent name search

unfoldable pub get_or_create_file :
    FIoDirectoryIndexResource → ℕ → Text → Outcome (FIoDirectoryIndexResource × ℕ)
get_or_create_file self parent name = do
  dir ← directory_at self parent
  search ← find_file self name (length self.file_entries + 1) dir.first_file_entry none
  enter_file self parent name search

unfoldable pub ensure_root : FIoDirectoryIndexResource → FIoDirectoryIndexResource
ensure_root self =
    if is_empty self.directory_entries
    then record self {
      directory_entries =
          (record {
            name = none;
            first_child_entry = none;
            next_sibling_entry = none;
            first_file_entry = none;
          })
          ∷ [];
    }
    else self

-- The last component is the file, those before it are the directories from `dir_index` down.
unfoldable pub add_components :
    FIoDirectoryIndexResource → ℕ → List Text → ℕ → Outcome FIoDirectoryIndexResource
add_components self dir_index [] user_data = panicked
add_components self dir_index (name ∷ []) user_data = do
  (indexed, file_index) ← get_or_create_file self dir_index name
  update_file indexed file_index (λ f. record f { user_data = user_data })
add_components self dir_index (name ∷ next ∷ names) user_data = do
  (indexed, child) ← get_or_create_dir self dir_index name
  add_components indexed child (next ∷ names) user_data

-- The path is given by its components, as `typed_path` splits it; one without any panics.
unfoldable pub add_file :
    FIoDirectoryIndexResource → List Text → ℕ → Outcome FIoDirectoryIndexResource
add_file self components user_data = add_components (ensure_root self) 0 components user_data
