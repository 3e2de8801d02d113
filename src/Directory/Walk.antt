-- ===== src/Directory/Walk.antt =====
-- `iter_root` and `iter` of the module `directory_index` in src/main.rs: the calls of the visitor,
-- in their order, each with the user data and the path from the root.
use retoc.Outcome
use retoc.Outcome.{◌>>=◌, ◌>>◌, Outcome, ok}
use retoc.Prelude.{get_elem?, suc, if◌then◌else◌, ◌++◌, ◌∷◌, ◌+◌, ◌*◌, zero, none}
use retoc.Directory.{
  FIoDirectoryIndexResource, FIoDirectoryIndexEntry, FIoFileIndexEntry, List, ℕ, Option, some, [],
  is_empty, length,
}
use retoc.Ser.Utf.{Text}

abbrev pub Visit : Type 0
Visit = ℕ × List Text

module _ (self : FIoDirectoryIndexResource) where
  unfoldable pub directory_at : ℕ → Outcome FIoDirectoryIndexEntry
  directory_at i = Outcome.unwrap (get_elem? self.directory_entries i)

  unfoldable pub file_at : ℕ → Outcome FIoFileIndexEntry
  file_at i = Outcome.unwrap (get_elem? self.file_entries i)

  unfoldable pub name_at : ℕ → Outcome Text
  name_at i = Outcome.unwrap (get_elem? self.string_table i)

  -- A directory's own name goes on the stack while it is visited.
  unfoldable pub push_name : Option ℕ → List Text → Outcome (List Text)
  push_name none stack = ok stack
  push_name (some i) stack = do name ← name_at i; ok (stack ++ name ∷ [])

  -- The loop over the files of a directory.
  unfoldable pub iter_files : ℕ → Option ℕ → List Text → Outcome (List Visit)
  iter_files zero file_index stack = Outcome.out_of_fuel
  iter_files (suc fuel) none stack = ok []
  iter_files (suc fuel) (some i) stack = do
    file ← file_at i
    name ← name_at file.name
    rest ← iter_files fuel file.next_file_entry stack
    ok ((file.user_data, stack ++ name ∷ []) ∷ rest)

  unfoldable mutual
    pub iter : ℕ → ℕ → List Text → Outcome (List Visit)
    iter zero dir_index stack = Outcome.out_of_fuel
    iter (suc fuel) dir_index stack = do
      dir ← directory_at dir_index
      inner ← push_name dir.name stack
      files ← iter_files fuel dir.first_file_entry inner
      children ← iter_children fuel dir.first_child_entry inner
      ok (files ++ children)

    -- The loop over the child directories.
    pub iter_children : ℕ → Option ℕ → List Text → Outcome (List Visit)
    iter_children zero dir_index stack = Outcome.out_of_fuel
    iter_children (suc fuel) none stack = ok []
    iter_children (suc fuel) (some i) stack = do
      dir ← directory_at i
      first ← iter fuel i stack
      rest ← iter_children fuel dir.next_sibling_entry stack
      ok (first ++ rest)

  -- One round for each entry, and one for the end of each list of links.
  unfoldable pub iter_root : Outcome (List Visit)
  iter_root =
      if is_empty self.directory_entries
      then ok []
      else iter (length self.file_entries + 2 * length self.directory_entries + 1) 0 []
