-- ===== src/Directory/Forward.antt =====
-- Directory indexes of src/main.rs whose links lead forward and to entries that are there, and the
-- walk of `iter_root` on them.
pub mod Links
pub mod Insert
use retoc.Outcome.{ok}
use retoc.Prelude.{
  ℕ, ◌<◌, ◌≤◌, ◌≡◌, ◌+◌, ◌*◌, ◌-◌, List, [], ◌∷◌, ◌++◌, length, get_elem?, get_elem?-some, Option,
  some, none, arith, refl, false, inl, inr, is_empty, Bool-cases, zero, suc,
}
use retoc.Ser.Utf.{Text}
use retoc.Directory.{FIoDirectoryIndexResource, FIoDirectoryIndexEntry, FIoFileIndexEntry}
use retoc.Directory.Walk.{
  Visit, directory_at, file_at, name_at, push_name, iter_files, iter, iter_children, iter_root,
}

abbrev pub Below : ℕ → Option ℕ → Type 0
Below n none = Unit
Below n (some j) = j < n

-- A link of entry `i` in a vector of `n` entries leads to a later one.
abbrev pub After : ℕ → ℕ → Option ℕ → Type 0
After i n none = Unit
After i n (some j) = (i < j) × (j < n)

-- A name that is there, which every entry but the root has.
abbrev pub Named : ℕ → ℕ → Option ℕ → Type 0
Named i n none = i ≡ 0
Named i n (some j) = j < n

-- The entry at `i`, where there are so many directories, files and names.
pub record IsDirectory (i dirs files names : ℕ) (d : FIoDirectoryIndexEntry) : Type 0 where
  pub name : Named i names d.name
  pub first_child : After i dirs d.first_child_entry
  pub next_sibling : After i dirs d.next_sibling_entry
  pub first_file : Below files d.first_file_entry

pub record IsFile (i files names : ℕ) (f : FIoFileIndexEntry) : Type 0 where
  pub name : f.name < names
  pub next_file : After i files f.next_file_entry

abbrev pub AreDirectories : ℕ → ℕ → ℕ → List FIoDirectoryIndexEntry → Type 0
AreDirectories dirs files names ds =
    (i : ℕ) (d : FIoDirectoryIndexEntry)
    → get_elem? ds i ≡ some d
    → IsDirectory i dirs files names d

abbrev pub AreFiles : ℕ → ℕ → List FIoFileIndexEntry → Type 0
AreFiles files names fs =
    (i : ℕ) (f : FIoFileIndexEntry) → get_elem? fs i ≡ some f → IsFile i files names f

pub record IsForward (self : FIoDirectoryIndexResource) : Type 0 where
  pub directories :
      AreDirectories
        (length self.directory_entries)
        (length self.file_entries)
        (length self.string_table)
        self.directory_entries
  pub files : AreFiles (length self.file_entries) (length self.string_table) self.file_entries

module _ (self : FIoDirectoryIndexResource) where
  pub directory_at-ok :
      (i : ℕ) (d : FIoDirectoryIndexEntry)
      → get_elem? self.directory_entries i ≡ some d
      → directory_at self i ≡ ok d
  unfolding directory_at
  directory_at-ok i d h = rw h

  pub file_at-ok :
      (i : ℕ) (f : FIoFileIndexEntry)
      → get_elem? self.file_entries i ≡ some f
      → file_at self i ≡ ok f
  unfolding file_at
  file_at-ok i f h = rw h

  pub name_at-ok : (i : ℕ) → i < length self.string_table → (s : Text) × (name_at self i ≡ ok s)
  unfolding name_at
  name_at-ok i h = let (s, e) = get_elem?-some self.string_table i h in (s, rw e)

-- The rounds that a list of files from this link on can take.
abbrev pub file_rounds : ℕ → Option ℕ → ℕ
file_rounds n none = 1
file_rounds n (some j) = n - j + 1

abbrev child_rounds : ℕ → ℕ → Option ℕ → ℕ
child_rounds files dirs none = 1
child_rounds files dirs (some j) = files + 2 * (dirs - j) + 2

pub After-Below : (i n : ℕ) (link : Option ℕ) → After i n link → Below n link
After-Below i n none h = tt
After-Below i n (some j) h = h.1

-- A later link has a round less to go.
pub file_rounds-After :
    (i n : ℕ) (link : Option ℕ) → i < n → After i n link → file_rounds n link ≤ n - i
file_rounds-After i n none h a = omega arith
file_rounds-After i n (some j) h a = omega arith

pub file_rounds-le : (n : ℕ) (link : Option ℕ) → file_rounds n link ≤ n + 1
file_rounds-le n none = omega arith
file_rounds-le n (some j) = omega arith

child_rounds-After :
    (files i n : ℕ) (link : Option ℕ)
    → i < n
    → After i n link
    → child_rounds files n link ≤ files + 2 * (n - i)
child_rounds-After files i n none h a = omega arith
child_rounds-After files i n (some j) h a = omega arith

pub not_empty {ℓ} : {A : Type ℓ} (xs : List A) → is_empty xs ≡ false → 0 < length xs
not_empty [] h = cc
not_empty (x ∷ xs) h = omega arith

module _ (self : FIoDirectoryIndexResource) (forward : IsForward self) where
  push_name-ok :
      (i : ℕ) (name : Option ℕ) (stack : List Text)
      → Named i (length self.string_table) name
      → (inner : List Text) × (push_name self name stack ≡ ok inner)
  unfolding push_name
  push_name-ok i none stack h = (stack, refl)
  push_name-ok i (some n) stack h = let (s, e) = name_at-ok self n h in (stack ++ s ∷ [], rw e)

  iter_files-ok :
      (fuel : ℕ) (link : Option ℕ) (stack : List Text)
      → Below (length self.file_entries) link
      → file_rounds (length self.file_entries) link ≤ fuel
      → (visits : List Visit) × (iter_files self fuel link stack ≡ ok visits)
  unfolding iter_files
  iter_files-ok zero none stack h k = absurd (omega arith)
  iter_files-ok zero (some j) stack h k = absurd (omega arith)
  iter_files-ok (suc fuel) none stack h k = ([], refl)
  iter_files-ok (suc fuel) (some j) stack h k =
      let (f, e) = get_elem?-some self.file_entries j h in
      let links = forward.files j f e in
      let (s, named) = name_at-ok self f.name links.name in
      let (rest, more) =
        iter_files-ok fuel f.next_file_entry stack
          (After-Below j (length self.file_entries) f.next_file_entry links.next_file)
          (omega (
            arith,
            file_rounds-After j (length self.file_entries) f.next_file_entry h links.next_file,
          )) in
      ((f.user_data, stack ++ s ∷ []) ∷ rest, rw (file_at-ok self j f e, named, more))

  mutual
    unfolding iter iter_children

    iter-ok :
        (fuel i : ℕ) (stack : List Text)
        → i < length self.directory_entries
        → length self.file_entries + 2 * (length self.directory_entries - i) + 1 ≤ fuel
        → (visits : List Visit) × (iter self fuel i stack ≡ ok visits)
    iter-ok zero i stack h k = absurd (omega arith)
    iter-ok (suc fuel) i stack h k =
        let (d, e) = get_elem?-some self.directory_entries i h in
        let links = forward.directories i d e in
        let (inner, named) = push_name-ok i d.name stack links.name in
        let (files, walked) =
          iter_files-ok fuel d.first_file_entry inner links.first_file
            (omega (arith, file_rounds-le (length self.file_entries) d.first_file_entry)) in
        let (children, below) =
          iter_children-ok fuel d.first_child_entry inner
            (After-Below i (length self.directory_entries) d.first_child_entry links.first_child)
            (omega (
              arith,
              child_rounds-After (length self.file_entries) i (length self.directory_entries)
                  d.first_child_entry h links.first_child,
            )) in
        (files ++ children, rw (directory_at-ok self i d e, named, walked, below))

    iter_children-ok :
        (fuel : ℕ) (link : Option ℕ) (stack : List Text)
        → Below (length self.directory_entries) link
        → child_rounds (length self.file_entries) (length self.directory_entries) link ≤ fuel
        → (visits : List Visit) × (iter_children self fuel link stack ≡ ok visits)
    iter_children-ok zero none stack h k = absurd (omega arith)
    iter_children-ok zero (some i) stack h k = absurd (omega arith)
    iter_children-ok (suc fuel) none stack h k = ([], refl)
    iter_children-ok (suc fuel) (some i) stack h k =
        let (d, e) = get_elem?-some self.directory_entries i h in
        let links = forward.directories i d e in
        let (first, walked) = iter-ok fuel i stack h (omega arith) in
        let (rest, more) =
          iter_children-ok fuel d.next_sibling_entry stack
            (After-Below i (length self.directory_entries) d.next_sibling_entry links.next_sibling)
            (omega (
              arith,
              child_rounds-After (length self.file_entries) i (length self.directory_entries)
                  d.next_sibling_entry h links.next_sibling,
            )) in
        (first ++ rest, rw (directory_at-ok self i d e, walked, more))

  -- Where the links lead forward to entries that are there, with names that are there, the walk from
  -- the root ends within its fuel, with its visits and without a panic.
  pub iter_root-ok : (visits : List Visit) × (iter_root self ≡ ok visits)
  unfolding iter_root
  iter_root-ok = elim (Bool-cases (is_empty self.directory_entries)) [
    | inl e ↦ ([], rw e)
    | inr e ↦
        let (visits, walked) =
          iter-ok (length self.file_entries + 2 * length self.directory_entries + 1) 0 []
            (not_empty self.directory_entries e) (omega arith) in
        (visits, rw e walked)
  ]
