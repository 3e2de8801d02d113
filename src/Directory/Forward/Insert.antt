-- ===== src/Directory/Forward/Insert.antt =====
-- `add_file` of src/main.rs on an index whose links lead forward.
use retoc.Outcome
use retoc.Outcome.{Outcome, ok}
use retoc.Prelude.{
  get_elem?-append_inv, ℕ, ◌<◌, ◌≤◌, ◌≡◌, ◌+◌, List, [], ◌∷◌, length, get_elem?-some, Option, some,
  none, arith, refl, zero, suc, inl, inr, Bool-cases, list_eq, is_empty, ◌^◌,
}
use retoc.Ser.Utf.{Text}
use retoc.Directory.{FIoDirectoryIndexResource, FIoDirectoryIndexEntry}
use retoc.Directory.Add.{
  Search, find_dir, find_file, append_dir, append_file, enter_dir, enter_file, get_or_create_dir,
  get_or_create_file, ensure_root, add_components, add_file, missing, found, last_id,
}
use retoc.Directory.Forward.{
  AreDirectories, not_empty, Named, file_rounds-le, Below, After, After-Below, IsForward,
  directory_at-ok, file_at-ok, name_at-ok, file_rounds, file_rounds-After,
}
use retoc.Directory.Forward.Links.{
  append_dir-IsForward, append_file-IsForward, link_dir-ok, link_file-ok, update_file-ok,
}

-- What a search through `n` entries can end with.
abbrev Ends : ℕ → Search → Type 0
Ends n (found i) = i < n
Ends n (missing last) = Below n last

-- An entry other than the root has a name.
name_of :
    (i : ℕ) {n : ℕ} (name : Option ℕ)
    → Named i n name
    → 0 < i
    → (k : ℕ) × (Outcome.unwrap name ≡ ok k) × (k < n)
name_of i none h p = absurd (omega arith)
name_of i (some k) h p = (k, refl, h)

last_id_suc : (n : ℕ) → n < 2 ^ 32 → last_id (n + 1) ≡ n
last_id_suc n h = omega arith

module _ (self : FIoDirectoryIndexResource) (name : Text) (forward : IsForward self) where
  find_dir-ok :
      (fuel i : ℕ) (link last : Option ℕ)
      → After i (length self.directory_entries) link
      → Below (length self.directory_entries) last
      → file_rounds (length self.directory_entries) link ≤ fuel
      → (s : Search) × (find_dir self name fuel link last ≡ ok s)
        × Ends (length self.directory_entries) s
  unfolding find_dir
  find_dir-ok zero i none last a b k = absurd (omega arith)
  find_dir-ok zero i (some j) last a b k = absurd (omega arith)
  find_dir-ok (suc fuel) i none last a b k = (missing last, refl, b)
  find_dir-ok (suc fuel) i (some j) last a b k =
      let (d, e) = get_elem?-some self.directory_entries j a.1 in
      let links = forward.directories j d e in
      let (dir_name, named, small) = name_of j d.name links.name (omega arith) in
      let (text, read) = name_at-ok self dir_name small in
      let (s, more, ends) =
        find_dir-ok fuel j d.next_sibling_entry (some j) links.next_sibling a.1 (
          omega (
            arith,
            file_rounds-After j (length self.directory_entries) d.next_sibling_entry a.1
                links.next_sibling,
          )) in
      elim (Bool-cases (list_eq text name)) [
        | inl same ↦ (found j, rw (directory_at-ok self j d e, named, read, same), a.1)
        | inr other ↦ (s, rw (directory_at-ok self j d e, named, read, other) more, ends)
      ]

  find_file-ok :
      (fuel : ℕ) (link last : Option ℕ)
      → Below (length self.file_entries) link
      → Below (length self.file_entries) last
      → file_rounds (length self.file_entries) link ≤ fuel
      → (s : Search) × (find_file self name fuel link last ≡ ok s)
        × Ends (length self.file_entries) s
  unfolding find_file
  find_file-ok zero none last a b k = absurd (omega arith)
  find_file-ok zero (some j) last a b k = absurd (omega arith)
  find_file-ok (suc fuel) none last a b k = (missing last, refl, b)
  find_file-ok (suc fuel) (some j) last a b k =
      let (f, e) = get_elem?-some self.file_entries j a in
      let links = forward.files j f e in
      let (text, read) = name_at-ok self f.name links.name in
      let (s, more, ends) =
        find_file-ok fuel f.next_file_entry (some j)
          (After-Below j (length self.file_entries) f.next_file_entry links.next_file) a
          (omega (
            arith,
            file_rounds-After j (length self.file_entries) f.next_file_entry a links.next_file,
          )) in
      elim (Bool-cases (list_eq text name)) [
        | inl same ↦ (found j, rw (file_at-ok self j f e, read, same), a)
        | inr other ↦ (s, rw (file_at-ok self j f e, read, other) more, ends)
      ]

  -- The index has at most so many directories and files more, and one name.
  abbrev Grown : ℕ → ℕ → FIoDirectoryIndexResource → Type 0
  Grown dirs files new =
      (length new.directory_entries ≤ length self.directory_entries + dirs)
      × (length new.file_entries ≤ length self.file_entries + files)
      × (length new.string_table ≤ length self.string_table + 1)

  enter_dir-ok :
      (parent : ℕ) (s : Search)
      → parent < length self.directory_entries
      → length self.directory_entries < 2 ^ 32
      → length self.string_table < 2 ^ 32
      → Ends (length self.directory_entries) s
      → (new : FIoDirectoryIndexResource) × (i : ℕ) × (enter_dir self parent name s ≡ ok (new, i))
        × IsForward new
        × (i < length new.directory_entries)
        × Grown 1 0 new
  unfolding enter_dir
  enter_dir-ok parent (found i) p fits names ends = (self, i, refl, forward, ends, omega arith)
  enter_dir-ok parent (missing last) p fits names ends =
      let grown = append_dir-IsForward self name forward names in
      let (new, linked, valid, dirs, files, table) =
        link_dir-ok (append_dir self name) grown.0 parent last (length self.directory_entries) p
          ends (omega (arith, grown.1)) in
      let id : last_id (length (append_dir self name).directory_entries)
          ≡ length self.directory_entries =
        rw grown.1 (last_id_suc (length self.directory_entries) fits) in
      (
        new,
        length self.directory_entries,
        rw (id, linked),
        valid,
        omega (arith, dirs, grown.1),
        omega (arith, dirs, files, table, grown),
      )

  enter_file-ok :
      (parent : ℕ) (s : Search)
      → parent < length self.directory_entries
      → length self.file_entries < 2 ^ 32
      → length self.string_table < 2 ^ 32
      → Ends (length self.file_entries) s
      → (new : FIoDirectoryIndexResource) × (i : ℕ) × (enter_file self parent name s ≡ ok (new, i))
        × IsForward new
        × (i < length new.file_entries)
        × Grown 0 1 new
  unfolding enter_file
  enter_file-ok parent (found i) p fits names ends = (self, i, refl, forward, ends, omega arith)
  enter_file-ok parent (missing last) p fits names ends =
      let grown = append_file-IsForward self name forward names in
      let (new, linked, valid, dirs, files, table) =
        link_file-ok (append_file self name) grown.0 parent last (length self.file_entries)
          (omega (arith, grown.1)) ends (omega (arith, grown.2)) in
      let id : last_id (length (append_file self name).file_entries) ≡ length self.file_entries =
        rw grown.2 (last_id_suc (length self.file_entries) fits) in
      (
        new,
        length self.file_entries,
        rw (id, linked),
        valid,
        omega (arith, files, grown.2),
        omega (arith, dirs, files, table, grown),
      )

  get_or_create_dir-ok :
      (parent : ℕ)
      → parent < length self.directory_entries
      → length self.directory_entries < 2 ^ 32
      → length self.string_table < 2 ^ 32
      → (new : FIoDirectoryIndexResource) × (i : ℕ) × (get_or_create_dir self parent name
          ≡ ok (new, i))
        × IsForward new
        × (i < length new.directory_entries)
        × Grown 1 0 new
  unfolding get_or_create_dir
  get_or_create_dir-ok parent p fits names =
      let (d, e) = get_elem?-some self.directory_entries parent p in
      let links = forward.directories parent d e in
      let (s, searched, ends) =
        find_dir-ok (length self.directory_entries + 1) parent d.first_child_entry none
          links.first_child tt
          (omega (
            arith,
            file_rounds-After parent (length self.directory_entries) d.first_child_entry p
                links.first_child,
          )) in
      let (new, i, entered, valid, small, few) = enter_dir-ok parent s p fits names ends in
      (new, i, rw (directory_at-ok self parent d e, searched) entered, valid, small, few)

  get_or_create_file-ok :
      (parent : ℕ)
      → parent < length self.directory_entries
      → length self.file_entries < 2 ^ 32
      → length self.string_table < 2 ^ 32
      → (new : FIoDirectoryIndexResource) × (i : ℕ) × (get_or_create_file self parent name
          ≡ ok (new, i))
        × IsForward new
        × (i < length new.file_entries)
        × Grown 0 1 new
  unfolding get_or_create_file
  get_or_create_file-ok parent p fits names =
      let (d, e) = get_elem?-some self.directory_entries parent p in
      let links = forward.directories parent d e in
      let (s, searched, ends) =
        find_file-ok (length self.file_entries + 1) d.first_file_entry none links.first_file tt
          (file_rounds-le (length self.file_entries) d.first_file_entry) in
      let (new, i, entered, valid, small, few) = enter_file-ok parent s p fits names ends in
      (new, i, rw (directory_at-ok self parent d e, searched) entered, valid, small, few)

add_components-ok :
    (self : FIoDirectoryIndexResource) (dir : ℕ) (name : Text) (names : List Text) (user_data : ℕ)
    → IsForward self
    → dir < length self.directory_entries
    → length self.directory_entries + length names ≤ 2 ^ 32
    → length self.file_entries < 2 ^ 32
    → length self.string_table + length names < 2 ^ 32
    → (new : FIoDirectoryIndexResource) × (add_components self dir (name ∷ names) user_data
        ≡ ok new)
      × IsForward new
unfolding add_components
add_components-ok self dir name [] user_data forward h dirs_fit files_fit names_fit =
    let (filed, i, entered, valid, small, few) =
      get_or_create_file-ok self name forward dir h files_fit (omega arith) in
    let (f, e) = get_elem?-some filed.file_entries i small in
    let old = valid.files i f e in
    let (new, written, still, dirs, files, table) =
      update_file-ok filed valid i f (λ x. record x { user_data = user_data }) e
        (record { name = old.name; next_file = old.next_file }) in
    (new, rw (entered, written), still)
add_components-ok self dir name (next ∷ names) user_data forward h dirs_fit files_fit names_fit =
    let (entered, i, e, valid, small, few) =
      get_or_create_dir-ok self name forward dir h (omega arith) (omega arith) in
    let (new, added, still) =
      add_components-ok entered i next names user_data valid small (omega (arith, few))
        (omega (arith, few)) (omega (arith, few)) in
    (new, rw (e, added), still)

abbrev root : FIoDirectoryIndexEntry
root = record {
  name = none;
  first_child_entry = none;
  next_sibling_entry = none;
  first_file_entry = none;
}

root_alone : (files names : ℕ) → AreDirectories 1 files names (root ∷ [])
root_alone files names i d h = elim (get_elem?-append_inv [] root i d h) [
  | inl old ↦ cc
  | inr (at, is) ↦
      rw (at, ← is) (record { name = refl; first_child = tt; next_sibling = tt; first_file = tt })
]

ensure_root-IsForward :
    (self : FIoDirectoryIndexResource)
    → IsForward self
    → IsForward (ensure_root self)
      × (0 < length (ensure_root self).directory_entries)
      × (length (ensure_root self).directory_entries ≤ length self.directory_entries + 1)
      × (length (ensure_root self).file_entries ≡ length self.file_entries)
      × (length (ensure_root self).string_table ≡ length self.string_table)
unfolding ensure_root
ensure_root-IsForward self forward = elim (Bool-cases (is_empty self.directory_entries)) [
  | inl e ↦ rw e (
    record {
      directories = root_alone (length self.file_entries) (length self.string_table);
      files = forward.files;
    },
    omega arith,
    omega arith,
    refl,
    refl,
  )
  | inr e ↦ rw e (forward, not_empty self.directory_entries e, omega arith, refl, refl)
]

-- A file with any path of one component or more is added to an index whose links lead forward to
-- entries that are there, if its files are fewer than 2 ^ 32, and so are its directories and its
-- names, each together with the directories of the path: this ends without a panic, and gives such
-- an index again.
pub add_file-IsForward :
    (self : FIoDirectoryIndexResource) (name : Text) (names : List Text) (user_data : ℕ)
    → IsForward self
    → length self.directory_entries + length names < 2 ^ 32
    → length self.file_entries < 2 ^ 32
    → length self.string_table + length names < 2 ^ 32
    → (new : FIoDirectoryIndexResource) × (add_file self (name ∷ names) user_data ≡ ok new)
      × IsForward new
unfolding add_file
add_file-IsForward self name names user_data forward dirs_fit files_fit names_fit =
    let (rooted, some_root, dirs, files, table) = ensure_root-IsForward self forward in
    add_components-ok (ensure_root self) 0 name names user_data rooted some_root
      (omega (arith, dirs)) (omega (arith, files)) (omega (arith, table))
