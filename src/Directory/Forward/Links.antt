-- ===== src/Directory/Forward/Links.antt =====
-- How names, entries and links are added to a directory index of src/main.rs while all links lead
-- forward.
use native.Mathlib.Nat.{mod-eq_of_lt}
use retoc.Outcome.{ok}
use retoc.Prelude.{
  ℕ, ◌<◌, ◌≤◌, ◌≡◌, ◌+◌, List, [], ◌∷◌, ◌++◌, length, length-append, length-set, get_elem?,
  get_elem?-append_inv, get_elem?-set_inv, set, Option, some, none, arith, refl, inl, inr, ap,
  list_eq, Option-cases, ◌^◌,
}
use retoc.Ser.Utf.{Text}
use retoc.Directory.{FIoDirectoryIndexResource, FIoDirectoryIndexEntry, FIoFileIndexEntry}
use retoc.Directory.Add.{
  position, place_name, get_or_create_name, append_dir, append_file, update_dir, update_file,
  link_dir, link_file,
}
use retoc.Directory.Forward.{
  Below, After, Named, IsDirectory, IsFile, AreDirectories, AreFiles, IsForward, directory_at-ok,
  file_at-ok, Bool-cases, get_elem?-some,
}

Below-le : (m n : ℕ) (link : Option ℕ) → m ≤ n → Below m link → Below n link
Below-le m n none h b = tt
Below-le m n (some j) h b = omega arith

After-le : (i m n : ℕ) (link : Option ℕ) → m ≤ n → After i m link → After i n link
After-le i m n none h b = tt
After-le i m n (some j) h b = omega arith

Named-le : (i m n : ℕ) (name : Option ℕ) → m ≤ n → Named i m name → Named i n name
Named-le i m n none h b = b
Named-le i m n (some j) h b = omega arith

module _ (dirs files names dirs' files' names' : ℕ) (d : dirs ≤ dirs') (f : files ≤ files')
    (n : names ≤ names') where
  AreDirectories-le :
      (ds : List FIoDirectoryIndexEntry)
      → AreDirectories dirs files names ds
      → AreDirectories dirs' files' names' ds
  AreDirectories-le ds all i e h =
      let old = all i e h in
      record {
        name = Named-le i names names' e.name n old.name;
        first_child = After-le i dirs dirs' e.first_child_entry d old.first_child;
        next_sibling = After-le i dirs dirs' e.next_sibling_entry d old.next_sibling;
        first_file = Below-le files files' e.first_file_entry f old.first_file;
      }

module _ (files names files' names' : ℕ) (f : files ≤ files') (n : names ≤ names') where
  AreFiles-le : (fs : List FIoFileIndexEntry) → AreFiles files names fs → AreFiles files' names' fs
  AreFiles-le fs all i e h =
      let old = all i e h in
      record {
        name = omega (arith, old.name);
        next_file = After-le i files files' e.next_file_entry f old.next_file;
      }

append-AreDirectories :
    (dirs files names : ℕ) (ds : List FIoDirectoryIndexEntry) (x : FIoDirectoryIndexEntry)
    → AreDirectories dirs files names ds
    → IsDirectory (length ds) dirs files names x
    → AreDirectories dirs files names (ds ++ x ∷ [])
append-AreDirectories dirs files names ds x all new i e h = elim (get_elem?-append_inv ds x i e h) [
  | inl old ↦ all i e old
  | inr (at, is) ↦ rw (at, ← is) new
]

append-AreFiles :
    (files names : ℕ) (fs : List FIoFileIndexEntry) (x : FIoFileIndexEntry)
    → AreFiles files names fs
    → IsFile (length fs) files names x
    → AreFiles files names (fs ++ x ∷ [])
append-AreFiles files names fs x all new i e h = elim (get_elem?-append_inv fs x i e h) [
  | inl old ↦ all i e old
  | inr (at, is) ↦ rw (at, ← is) new
]

set-AreDirectories :
    (dirs files names : ℕ) (ds : List FIoDirectoryIndexEntry) (j : ℕ) (x : FIoDirectoryIndexEntry)
    → AreDirectories dirs files names ds
    → IsDirectory j dirs files names x
    → AreDirectories dirs files names (set ds j x)
set-AreDirectories dirs files names ds j x all new i e h = elim (get_elem?-set_inv ds j i x e h) [
  | inl old ↦ all i e old
  | inr (at, is) ↦ rw (← at, ← is) new
]

set-AreFiles :
    (files names : ℕ) (fs : List FIoFileIndexEntry) (j : ℕ) (x : FIoFileIndexEntry)
    → AreFiles files names fs
    → IsFile j files names x
    → AreFiles files names (set fs j x)
set-AreFiles files names fs j x all new i e h = elim (get_elem?-set_inv fs j i x e h) [
  | inl old ↦ all i e old
  | inr (at, is) ↦ rw (← at, ← is) new
]

position-lt :
    (name : Text) (table : List Text) (i : ℕ) → position name table ≡ some i → i < length table
unfolding position
position-lt name [] i h = cc
position-lt name (n ∷ ns) i h = elim (Bool-cases (list_eq n name)) [
  | inl same ↦ ground (arith, rw same at h)
  | inr other ↦ elim (Option-cases (position name ns)) [
    | inl e ↦ ground (arith, rw (other, e) at h)
    | inr (j, e) ↦ ground (arith, rw (other, e) at h, position-lt name ns j e)
  ]
]

-- What a name, old or new, does to an index.
record IsNamed (self : FIoDirectoryIndexResource) (r : FIoDirectoryIndexResource × ℕ) : Type 0 where
  directories : r.0.directory_entries ≡ self.directory_entries
  files : r.0.file_entries ≡ self.file_entries
  more : length self.string_table ≤ length r.0.string_table
  few : length r.0.string_table ≤ length self.string_table + 1
  there : r.1 < length r.0.string_table

place_name-IsNamed :
    (self : FIoDirectoryIndexResource) (name : Text) (at : Option ℕ)
    → length self.string_table < 2 ^ 32
    → position name self.string_table ≡ at
    → IsNamed self (place_name self name at)
unfolding place_name
place_name-IsNamed self name (some i) fits h =
    let old = position-lt name self.string_table i h in
    record {
      directories = refl;
      files = refl;
      more = omega arith;
      few = omega arith;
      there = omega (arith, old, mod-eq_of_lt {n = i} {m = 2 ^ 32} (omega arith));
    }
place_name-IsNamed self name none fits h = record {
  directories = refl;
  files = refl;
  more = omega (arith, length-append self.string_table (name ∷ []));
  few = omega (arith, length-append self.string_table (name ∷ []));
  there = omega (
    arith,
    length-append self.string_table (name ∷ []),
    mod-eq_of_lt {n = length self.string_table} {m = 2 ^ 32} fits,
  );
}

get_or_create_name-IsNamed :
    (self : FIoDirectoryIndexResource) (name : Text)
    → length self.string_table < 2 ^ 32
    → IsNamed self (get_or_create_name self name)
unfolding get_or_create_name
get_or_create_name-IsNamed self name fits =
    place_name-IsNamed self name (position name self.string_table) fits refl

module _ (self : FIoDirectoryIndexResource) (name : Text) (forward : IsForward self)
    (fits : length self.string_table < 2 ^ 32) where
  -- A new directory that nothing links to, yet.
  pub append_dir-IsForward :
      IsForward (append_dir self name)
      × (length (append_dir self name).directory_entries ≡ length self.directory_entries + 1)
      × (length (append_dir self name).file_entries ≡ length self.file_entries)
      × (length (append_dir self name).string_table ≤ length self.string_table + 1)
  unfolding append_dir
  append_dir-IsForward =
      let p = get_or_create_name-IsNamed self name fits in
      let named = get_or_create_name self name in
      let ds = self.directory_entries in
      let x : FIoDirectoryIndexEntry = record {
        name = some named.1;
        first_child_entry = none;
        next_sibling_entry = none;
        first_file_entry = none;
      } in
      let count : length (ds ++ x ∷ []) ≡ length ds + 1 =
        omega (arith, length-append ds (x ∷ [])) in
      let older =
        AreDirectories-le (length ds) (length self.file_entries) (length self.string_table)
          (length ds + 1) (length self.file_entries) (length named.0.string_table) (omega arith)
          (omega arith) p.more ds forward.directories in
      let newer =
        append-AreDirectories (length ds + 1) (length self.file_entries)
          (length named.0.string_table) ds x older
          (record { name = p.there; first_child = tt; next_sibling = tt; first_file = tt }) in
      (
        record {
          directories = rw (p.directories, p.files, count) newer;
          files = rw p.files (
              AreFiles-le (length self.file_entries) (length self.string_table)
                (length self.file_entries) (length named.0.string_table) (omega arith) p.more
                self.file_entries forward.files);
        },
        rw (p.directories, count),
        ap (λ (fs : List FIoFileIndexEntry). length fs) p.files,
        p.few,
      )

  pub append_file-IsForward :
      IsForward (append_file self name)
      × (length (append_file self name).directory_entries ≡ length self.directory_entries)
      × (length (append_file self name).file_entries ≡ length self.file_entries + 1)
      × (length (append_file self name).string_table ≤ length self.string_table + 1)
  unfolding append_file
  append_file-IsForward =
      let p = get_or_create_name-IsNamed self name fits in
      let named = get_or_create_name self name in
      let fs = self.file_entries in
      let x : FIoFileIndexEntry = record {
        name = named.1;
        next_file_entry = none;
        user_data = 0;
      } in
      let count : length (fs ++ x ∷ []) ≡ length fs + 1 =
        omega (arith, length-append fs (x ∷ [])) in
      let older =
        AreFiles-le (length fs) (length self.string_table) (length fs + 1)
          (length named.0.string_table) (omega arith) p.more fs forward.files in
      let newer =
        append-AreFiles (length fs + 1) (length named.0.string_table) fs x older
          (record { name = p.there; next_file = tt }) in
      (
        record {
          directories =
              rw (p.directories, p.files, count)
                (AreDirectories-le (length self.directory_entries) (length fs)
                  (length self.string_table) (length self.directory_entries) (length fs + 1)
                  (length named.0.string_table) (omega arith) (omega arith) p.more
                  self.directory_entries forward.directories);
          files = rw (p.files, count) newer;
        },
        ap (λ (ds : List FIoDirectoryIndexEntry). length ds) p.directories,
        rw (p.files, count),
        p.few,
      )

module _ (self : FIoDirectoryIndexResource) (forward : IsForward self) where
  -- A change of an entry that keeps its links forward.
  update_dir-ok :
      (i : ℕ) (d : FIoDirectoryIndexEntry)
      (change : FIoDirectoryIndexEntry → FIoDirectoryIndexEntry)
      → get_elem? self.directory_entries i ≡ some d
      → IsDirectory i
          (length self.directory_entries)
          (length self.file_entries)
          (length self.string_table)
          (change d)
      → (new : FIoDirectoryIndexResource) × (update_dir self i change ≡ ok new)
        × IsForward new
        × (length new.directory_entries ≡ length self.directory_entries)
        × (length new.file_entries ≡ length self.file_entries)
        × (length new.string_table ≡ length self.string_table)
  unfolding update_dir
  update_dir-ok i d change e keeps =
      let ds = self.directory_entries in
      let same = length-set ds i (change d) in
      (
        record self { directory_entries = set ds i (change d) },
        rw (directory_at-ok self i d e),
        record {
          directories = rw same (
              set-AreDirectories (length ds) (length self.file_entries) (length self.string_table)
                ds i (change d) forward.directories keeps);
          files = forward.files;
        },
        same,
        refl,
        refl,
      )

  pub update_file-ok :
      (i : ℕ) (f : FIoFileIndexEntry) (change : FIoFileIndexEntry → FIoFileIndexEntry)
      → get_elem? self.file_entries i ≡ some f
      → IsFile i (length self.file_entries) (length self.string_table) (change f)
      → (new : FIoDirectoryIndexResource) × (update_file self i change ≡ ok new)
        × IsForward new
        × (length new.directory_entries ≡ length self.directory_entries)
        × (length new.file_entries ≡ length self.file_entries)
        × (length new.string_table ≡ length self.string_table)
  unfolding update_file
  update_file-ok i f change e keeps =
      let fs = self.file_entries in
      let same = length-set fs i (change f) in
      (
        record self { file_entries = set fs i (change f) },
        rw (file_at-ok self i f e),
        record {
          directories = rw same forward.directories;
          files = rw same (
              set-AreFiles (length fs) (length self.string_table) fs i (change f) forward.files
                keeps);
        },
        refl,
        same,
        refl,
      )

  -- The new entry at `id` is linked from an earlier one.
  pub link_dir-ok :
      (parent : ℕ) (last : Option ℕ) (id : ℕ)
      → parent < id
      → Below id last
      → id < length self.directory_entries
      → (new : FIoDirectoryIndexResource) × (link_dir self parent last id ≡ ok new)
        × IsForward new
        × (length new.directory_entries ≡ length self.directory_entries)
        × (length new.file_entries ≡ length self.file_entries)
        × (length new.string_table ≡ length self.string_table)
  unfolding link_dir
  link_dir-ok parent none id p l h =
      let (d, e) = get_elem?-some self.directory_entries parent (omega arith) in
      let old = forward.directories parent d e in
      update_dir-ok parent d (λ x. record x { first_child_entry = some id }) e
        (record {
          name = old.name;
          first_child = (p, h);
          next_sibling = old.next_sibling;
          first_file = old.first_file;
        })
  link_dir-ok parent (some last) id p l h =
      let (d, e) = get_elem?-some self.directory_entries last (omega arith) in
      let old = forward.directories last d e in
      update_dir-ok last d (λ x. record x { next_sibling_entry = some id }) e
        (record {
          name = old.name;
          first_child = old.first_child;
          next_sibling = (l, h);
          first_file = old.first_file;
        })

  pub link_file-ok :
      (parent : ℕ) (last : Option ℕ) (id : ℕ)
      → parent < length self.directory_entries
      → Below id last
      → id < length self.file_entries
      → (new : FIoDirectoryIndexResource) × (link_file self parent last id ≡ ok new)
        × IsForward new
        × (length new.directory_entries ≡ length self.directory_entries)
        × (length new.file_entries ≡ length self.file_entries)
        × (length new.string_table ≡ length self.string_table)
  unfolding link_file
  link_file-ok parent none id p l h =
      let (d, e) = get_elem?-some self.directory_entries parent p in
      let old = forward.directories parent d e in
      update_dir-ok parent d (λ x. record x { first_file_entry = some id }) e
        (record {
          name = old.name;
          first_child = old.first_child;
          next_sibling = old.next_sibling;
          first_file = h;
        })
  link_file-ok parent (some last) id p l h =
      let (f, e) = get_elem?-some self.file_entries last (omega arith) in
      let old = forward.files last f e in
      update_file-ok last f (λ x. record x { next_file_entry = some id }) e
        (record { name = old.name; next_file = (l, h) })
