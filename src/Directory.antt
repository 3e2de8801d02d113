-- ===== src/Directory.antt =====
-- The module `directory_index` of src/main.rs: directories and files as nodes in two vectors, linked
-- by indices, with their names in a table. Here are the types and their serialization.
pub mod Walk
pub mod Add
pub mod Forward
use retoc.Ser.Utf.{Text, IsText}
use retoc.Ser.Strings.{de_string, write_string, IsShort, de_string-write_string}
use retoc.Ser.Words.{de_u32, ser_u32, de_u32-ser_u32}
use retoc.Ser.Arrays.{All, de_vec, ser_vec, de_vec-ser_vec}
use retoc.Ser.Stream.{◌>>=◌, Reader, RoundTrips, pure}
use retoc.Prelude.{
  Option, ◌<◌, length, ℕ, [], if◌then◌else◌, append_assoc, List, ◌^◌, some, is_empty, ◌-◌, ◌++◌,
  ◌==◌, none, ◌≡◌, arith, false,
}
use retoc.Outcome.{ok}

pub record FIoFileIndexEntry : Type 0 where
  pub name : ℕ
  pub next_file_entry : Option ℕ
  pub user_data : ℕ

pub record FIoDirectoryIndexEntry : Type 0 where
  pub name : Option ℕ
  pub first_child_entry : Option ℕ
  pub next_sibling_entry : Option ℕ
  pub first_file_entry : Option ℕ

pub record FIoDirectoryIndexResource : Type 0 where
  pub mount_point : Text
  pub directory_entries : List FIoDirectoryIndexEntry
  pub file_entries : List FIoFileIndexEntry
  pub string_table : List Text

-- `Default::default()`
abbrev pub empty : FIoDirectoryIndexResource
empty = record { mount_point = []; directory_entries = []; file_entries = []; string_table = [] }

-- `$name::new`: the greatest `u32` stands for no id.
unfoldable pub new_id : ℕ → Option ℕ
new_id value = if value == 2 ^ 32 - 1 then none else some value

unfoldable pub de_id : Reader (Option ℕ)
de_id = do value ← de_u32; pure (new_id value)

unfoldable pub ser_id : Option ℕ → List ℕ
ser_id none = ser_u32 (2 ^ 32 - 1)
ser_id (some id) = ser_u32 id

unfoldable pub de_file_entry : Reader FIoFileIndexEntry
de_file_entry = do
  name ← de_u32
  next_file_entry ← de_id
  user_data ← de_u32
  pure (record { name = name; next_file_entry = next_file_entry; user_data = user_data })

unfoldable pub ser_file_entry : FIoFileIndexEntry → List ℕ
ser_file_entry f = ser_u32 f.name ++ (ser_id f.next_file_entry ++ ser_u32 f.user_data)

unfoldable pub de_directory_entry : Reader FIoDirectoryIndexEntry
de_directory_entry = do
  name ← de_id
  first_child_entry ← de_id
  next_sibling_entry ← de_id
  first_file_entry ← de_id
  pure (record {
    name = name;
    first_child_entry = first_child_entry;
    next_sibling_entry = next_sibling_entry;
    first_file_entry = first_file_entry;
  })

unfoldable pub ser_directory_entry : FIoDirectoryIndexEntry → List ℕ
ser_directory_entry d =
    ser_id d.name
    ++ (ser_id d.first_child_entry ++ (ser_id d.next_sibling_entry ++ ser_id d.first_file_entry))

unfoldable pub de_directory_index : Reader FIoDirectoryIndexResource
de_directory_index = do
  mount_point ← de_string
  directory_entries ← de_vec de_directory_entry
  file_entries ← de_vec de_file_entry
  string_table ← de_vec de_string
  pure (record {
    mount_point = mount_point;
    directory_entries = directory_entries;
    file_entries = file_entries;
    string_table = string_table;
  })

-- Nothing is written where there is no file.
unfoldable pub ser_directory_index : FIoDirectoryIndexResource → List ℕ
ser_directory_index index =
    if is_empty index.file_entries
    then []
    else write_string index.mount_point
      ++ (ser_vec ser_directory_entry index.directory_entries
          ++ (ser_vec ser_file_entry index.file_entries ++ ser_vec write_string index.string_table))

abbrev IsId : Option ℕ → Type 0
IsId none = Unit
IsId (some id) = id < 2 ^ 32 - 1

pub record IsFileEntry (f : FIoFileIndexEntry) : Type 0 where
  pub name : f.name < 2 ^ 32
  pub next_file_entry : IsId f.next_file_entry
  pub user_data : f.user_data < 2 ^ 32

pub record IsDirectoryEntry (d : FIoDirectoryIndexEntry) : Type 0 where
  pub name : IsId d.name
  pub first_child_entry : IsId d.first_child_entry
  pub next_sibling_entry : IsId d.next_sibling_entry
  pub first_file_entry : IsId d.first_file_entry

-- What the fields of the file can hold.
pub record IsDirectoryIndex (index : FIoDirectoryIndexResource) : Type 0 where
  pub mount_point : IsText index.mount_point × IsShort index.mount_point
  pub directories :
      (length index.directory_entries < 2 ^ 32) × All IsDirectoryEntry index.directory_entries
  pub files : (length index.file_entries < 2 ^ 32) × All IsFileEntry index.file_entries
  pub names :
      (length index.string_table < 2 ^ 32) × All (λ s. IsText s × IsShort s) index.string_table

de_id-ser_id : RoundTrips de_id ser_id IsId
unfolding de_id ser_id new_id
de_id-ser_id none rest h = rw (de_u32-ser_u32 (2 ^ 32 - 1) rest (omega arith))
de_id-ser_id (some id) rest h = rw (de_u32-ser_u32 id rest (omega arith)) (ground arith)

de_file_entry-ser_file_entry : RoundTrips de_file_entry ser_file_entry IsFileEntry
unfolding de_file_entry ser_file_entry
de_file_entry-ser_file_entry f rest h =
    simp (append_assoc, de_u32-ser_u32, de_id-ser_id, h.name, h.next_file_entry, h.user_data)

de_directory_entry-ser_directory_entry :
    RoundTrips de_directory_entry ser_directory_entry IsDirectoryEntry
unfolding de_directory_entry ser_directory_entry
de_directory_entry-ser_directory_entry d rest h = simp (
  append_assoc, de_id-ser_id, h.name, h.first_child_entry, h.next_sibling_entry, h.first_file_entry,
)

-- An index that has a file, and whose parts fit their fields, is read back as it was written.
pub de_directory_index-ser_directory_index :
    (index : FIoDirectoryIndexResource) (rest : List ℕ)
    → IsDirectoryIndex index
    → is_empty index.file_entries ≡ false
    → de_directory_index (ser_directory_index index ++ rest) ≡ ok (index, rest)
unfolding de_directory_index ser_directory_index
de_directory_index-ser_directory_index index rest h files = rw files (
    simp (
      append_assoc,
      de_string-write_string,
      de_vec-ser_vec de_directory_entry ser_directory_entry IsDirectoryEntry
          de_directory_entry-ser_directory_entry,
      de_vec-ser_vec de_file_entry ser_file_entry IsFileEntry de_file_entry-ser_file_entry,
      de_vec-ser_vec de_string write_string (λ s. IsText s × IsShort s) de_string-write_string,
      h.mount_point,
      h.directories,
      h.files,
      h.names,
    ))
